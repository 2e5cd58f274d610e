-- ===== src/Verifier/Gate.antt =====
-- The completion gate: what a verification has found when it completes a task.
use adaptive_harness.Prelude.{
  String, ◌≡◌, sym, ap, ◌∙◌, Bool, true, false, List, [], Option, In, any, ok, >>=-eq-ok,
}
use mathlib.Core.Path.{subst}
use adaptive_harness.Paths.{PosixPath}
use adaptive_harness.Json.{Value, value_eq}
use adaptive_harness.Envelope.{Requirement, Acceptance}
use adaptive_harness.Store.{
  TaskEvent, TaskState, TaskRecord, Files, current_envelope, load, finalize,
}
use adaptive_harness.Store.History.{with_event}
use adaptive_harness.Store.Commits.{Next, finalize-Commit, load-Commit}
use adaptive_harness.Executor.{same_workspace}
use adaptive_harness.Prelude.{ok_path}
use adaptive_harness.Gateway.{has_type}
use adaptive_harness.Verifier.Defs.{GateOutcome, VerificationReport, Facts}
use adaptive_harness.Verifier.Checks.{
  check_workspace, path_allowed, check_diff, authorization_sequence, finished_sequences,
  check_incomplete_commands, check_high_risk_approvals, check_requirement_coverage, elements,
  declared_effects, unapproved, covering,
}
use adaptive_harness.Verifier.Acceptance.{verify_acceptance}
use adaptive_harness.Verifier.Verify.{
  verify_acceptances, evaluate, verify_with_lease, verification_data, finalize_as,
}
use adaptive_harness.Verifier.Evidence.{Evidence, verify_acceptance-Evidence}
use adaptive_harness.Verifier.Required.{verify_acceptances-required, result_for-passed}
use adaptive_harness.Verifier.Issues.{
  append-eq-nil, deduplicate_issues-nil, check_workspace-nil, check_diff-nil,
  check_incomplete_commands-nil, check_high_risk_approvals-nil, check_requirement_coverage-nil,
  outcome_of_issues-completed,
}

module _ (facts : Facts) (artifact_root : PosixPath) (secrets : List String) where
  -- No check has an issue.
  record Clean (r : TaskRecord) : Type 0 where
    workspace : check_workspace (current_envelope r) facts.snapshot ≡ []
    diff : check_diff (current_envelope r) facts.diff ≡ []
    commands : check_incomplete_commands r ≡ ok []
    approvals : check_high_risk_approvals r.events ≡ ok []
    acceptances :
        (verify_acceptances facts artifact_root secrets r (current_envelope r).acceptances).1 ≡ []
    requirements :
        check_requirement_coverage
          (current_envelope r)
          (verify_acceptances facts artifact_root secrets r (current_envelope r).acceptances).0
          (current_envelope r).requirements
        ≡ []

  evaluate-Clean :
      (r : TaskRecord) (task_id : String) (accept_risk : Bool) (risk_reason : Option String)
      {report : VerificationReport}
      → evaluate facts artifact_root secrets r task_id accept_risk risk_reason ≡ ok report
      → report.outcome ≡ GateOutcome.completed
      → Clean r
  unfolding evaluate
  evaluate-Clean r task_id accept_risk risk_reason h o =
      let e = current_envelope r in
      let (incomplete, i, h₁) = >>=-eq-ok (check_incomplete_commands r) _ h in
      let (high, g, h₂) = >>=-eq-ok (check_high_risk_approvals r.events) _ h₁ in
      let found = verify_acceptances facts artifact_root secrets r e.acceptances in
      let none_left = deduplicate_issues-nil _ (
        outcome_of_issues-completed accept_risk risk_reason _
          (ap (λ x. x.outcome) (ok_path h₂) ∙ o)) in
      let (w, n₁) = append-eq-nil (check_workspace e facts.snapshot) _ none_left in
      let (d, n₂) = append-eq-nil (check_diff e facts.diff) _ n₁ in
      let (c, n₃) = append-eq-nil incomplete _ n₂ in
      let (p, n₄) = append-eq-nil high _ n₃ in
      let (a, q) = append-eq-nil found.1 _ n₄ in
      record {
        workspace = w;
        diff = d;
        commands = i ∙ ap ok c;
        approvals = g ∙ ap ok p;
        acceptances = a;
        requirements = q;
      }

  finalize_as-report :
      (digest : TaskRecord → String) (files : Files) (id : String) (report₁ : VerificationReport)
      (o : GateOutcome) {report : VerificationReport} {files' : Files}
      → finalize_as facts artifact_root secrets digest files id report₁ o ≡ ok (report, files')
      → report₁ ≡ report
  finalize_as-report digest files id report₁ GateOutcome.rejected h = ap (λ x. x.0) (ok_path h)
  finalize_as-report digest files id report₁ GateOutcome.completed h =
      let (x, e, k) =
        >>=-eq-ok
          (finalize digest facts.now files id TaskState.completed (verification_data report₁)) _
          h in
      ap (λ x. x.0) (ok_path k)
  finalize_as-report digest files id report₁ GateOutcome.accepted_with_risk h =
      let (x, e, k) =
        >>=-eq-ok
          (finalize digest facts.now files id TaskState.accepted_with_risk
            (verification_data report₁))
          _ h in
      ap (λ x. x.0) (ok_path k)

  module _ (digest : TaskRecord → String) (files : Files) (id : String) (accept_risk : Bool)
      (risk_reason : Option String) (r : TaskRecord) (loaded : load digest files id ≡ ok r) where
    pub verify_with_lease-report :
        {report : VerificationReport} {files' : Files}
        → verify_with_lease facts artifact_root secrets digest files id accept_risk risk_reason
          ≡ ok (report, files')
        → (evaluate facts artifact_root secrets r id accept_risk risk_reason ≡ ok report)
          × (finalize_as facts artifact_root secrets digest files id report report.outcome
              ≡ ok (report, files'))
    unfolding verify_with_lease
    verify_with_lease-report {report} {files'} h =
        let (r₁, l, h₁) = >>=-eq-ok (load digest files id) _ h in
        let same : r₁ ≡ r = ok_path (sym l ∙ loaded) in
        let (report₁, e, h₂) =
          >>=-eq-ok (evaluate facts artifact_root secrets r₁ id accept_risk risk_reason) _ h₁ in
        let same_report = finalize_as-report digest files id report₁ report₁.outcome h₂ in
        (
          subst
                (λ x.
                  evaluate facts artifact_root secrets x id accept_risk risk_reason ≡ ok report₁)
                same e
              ∙ ap ok same_report,
          subst
              (λ x.
                finalize_as facts artifact_root secrets digest files id x x.outcome
                ≡ ok (report, files'))
              same_report h₂,
        )

    module _ {report : VerificationReport} {files' : Files}
        (verified : verify_with_lease facts artifact_root secrets digest files id accept_risk
            risk_reason
          ≡ ok (report, files'))
        (completed : report.outcome ≡ GateOutcome.completed) where
      clean : Clean r
      clean =
          evaluate-Clean r id accept_risk risk_reason (verify_with_lease-report verified).0
            completed

      -- A verification that completes a task observed the workspace that the envelope names.
      pub completed_workspace : same_workspace (current_envelope r) facts.snapshot ≡ true
      completed_workspace = check_workspace-nil (current_envelope r) facts.snapshot clean.workspace

      -- When a verification completes a task, each path of the diff is relative, has no part `..`
      -- and is in the allowed scope of the task's current envelope.
      pub completed_scope :
          (path : String) → In path facts.diff → path_allowed (current_envelope r) path ≡ true
      completed_scope = check_diff-nil (current_envelope r) facts.diff clean.diff

      -- When a verification completes a task, each start event of the record has a finish event for
      -- the same authorization.
      pub completed_commands :
          (ev : TaskEvent)
          → In ev r.events
          → has_type "command.started" ev ≡ true
          → any (value_eq (authorization_sequence ev)) (finished_sequences r.events) ≡ true
      completed_commands = check_incomplete_commands-nil r clean.commands

      -- When a verification completes a task, each authorization event of the record whose declared
      -- side effects or environment are high risk holds an approval.
      pub completed_approvals :
          (ev : TaskEvent)
          → In ev r.events
          → has_type "command.authorized" ev ≡ true
          → (effects : List Value) × (elements (declared_effects ev.payload) ≡ ok effects)
            × (unapproved ev effects ≡ false)
      completed_approvals = check_high_risk_approvals-nil r.events clean.approvals

      -- When a verification completes a task, each required acceptance of the current envelope has
      -- trusted evidence: the last finish event of its command was authorized for the current
      -- revision, was started before, was produced by the executor, has its artifacts, ran in the
      -- sandbox if the task is enforced, and reports the expected result.
      pub completed-Evidence :
          (a : Acceptance)
          → In a (current_envelope r).acceptances
          → a.required ≡ true
          → (finished : TaskEvent) × Evidence facts artifact_root secrets r a finished
      completed-Evidence a i q = verify_acceptance-Evidence facts artifact_root secrets r a (
          verify_acceptances-required facts artifact_root secrets r (current_envelope r).acceptances
            clean.acceptances a i q)

      -- When a verification completes a task, each requirement of the current envelope is covered by
      -- an acceptance for whose id an acceptance of the envelope with trusted evidence stands.
      pub completed_requirements :
          (q : Requirement)
          → In q (current_envelope r).requirements
          → (a b : Acceptance) × In a (covering (current_envelope r) q)
            × In b (current_envelope r).acceptances
            × ((verify_acceptance facts artifact_root secrets r b).0.acceptance_id ≡ a.id)
            × ((finished : TaskEvent) × Evidence facts artifact_root secrets r b finished)
      completed_requirements q i =
          let (a, j, p) =
            check_requirement_coverage-nil _ _ (current_envelope r).requirements clean.requirements
              q i in
          let (b, k, m, n) =
            result_for-passed facts artifact_root secrets a.id r (current_envelope r).acceptances
              p in
          (a, b, j, k, m, verify_acceptance-Evidence facts artifact_root secrets r b n)

      -- When a verification completes a task, the files it leaves hold the record that it judged, in
      -- the state `completed` and with one more event that holds the report.
      pub completed_record :
          (ev : TaskEvent) × Next r "task.completed" (verification_data report) ev
          × (load digest files' id ≡ ok (with_event r TaskState.completed ev))
      completed_record =
          let h : finalize_as facts artifact_root secrets digest files id report
                GateOutcome.completed
              ≡ ok (report, files') =
            subst
              (λ o.
                finalize_as facts artifact_root secrets digest files id report o
                ≡ ok (report, files'))
              completed (verify_with_lease-report verified).1 in
          let ((x, written), e, k) =
            >>=-eq-ok
              (finalize digest facts.now files id TaskState.completed (verification_data report)) _
              h in
          let (r₁, ev, n, o, c, q) =
            finalize-Commit digest facts.now files id TaskState.completed (verification_data report)
              e in
          let same : r₁ ≡ r = ok_path (sym c.loaded ∙ loaded) in
          let stored : load digest files' id ≡ ok x =
            subst (λ fs. load digest fs id ≡ ok x) (ap (λ y. y.1) (ok_path k))
              (load-Commit digest files id c).0 in
          (
            ev,
            subst (λ y. Next y "task.completed" (verification_data report) ev) same n,
            stored ∙ ap ok q ∙ ap (λ y. ok (with_event y TaskState.completed ev)) same,
          )
