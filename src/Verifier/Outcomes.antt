-- ===== src/Verifier/Outcomes.antt =====
-- A task that is accepted with risk: what that rests on, and the record that is stored.
use adaptive_harness.Prelude.{
  String, ◌≡◌, sym, ap, ◌∙◌, Bool, true, ◌&&◌, List, [], ◌∷◌, Option, arith, all, ok, ok_path,
  >>=-eq-ok, Bool-cases, inl, inr,
}
use mathlib.Core.Path.{subst}
use adaptive_harness.Paths.{PosixPath}
use adaptive_harness.Store.{TaskEvent, TaskState, TaskRecord, Files, load, finalize}
use adaptive_harness.Store.History.{with_event}
use adaptive_harness.Store.Commits.{Next, finalize-Commit, load-Commit}
use adaptive_harness.Verifier.Defs.{VerificationIssue, GateOutcome, VerificationReport, Facts}
use adaptive_harness.Verifier.Checks.{check_incomplete_commands, check_high_risk_approvals}
use adaptive_harness.Verifier.Verify.{
  good_reason, outcome_of_issues, verification_data, evaluate, finalize_as, verify_with_lease,
}
use adaptive_harness.Verifier.Gate.{verify_with_lease-report}

-- What a task that is accepted with risk rests on.
pub record RiskAccepted (accept_risk : Bool) (risk_reason : Option String)
    (issues : List VerificationIssue) : Type 0 where
  pub allowed : accept_risk ≡ true
  pub reason : good_reason risk_reason ≡ true
  pub waivable : all (λ y. y.waivable) issues ≡ true

outcome_of_issues-RiskAccepted :
    (accept_risk : Bool) (risk_reason : Option String) (issues : List VerificationIssue)
    → outcome_of_issues accept_risk risk_reason issues ≡ GateOutcome.accepted_with_risk
    → RiskAccepted accept_risk risk_reason issues
unfolding outcome_of_issues
outcome_of_issues-RiskAccepted accept_risk risk_reason [] h = cc
outcome_of_issues-RiskAccepted accept_risk risk_reason (x ∷ issues) h =
    elim (Bool-cases
      (accept_risk && good_reason risk_reason && all (λ y. y.waivable) (x ∷ issues))) [
        | inl t ↦ record { allowed = ground arith; reason = ground arith; waivable = ground arith }
        | inr f ↦ cc (rw f at h)
      ]

module _ (facts : Facts) (artifact_root : PosixPath) (secrets : List String) where
  evaluate-RiskAccepted :
      (r : TaskRecord) (task_id : String) (accept_risk : Bool) (risk_reason : Option String)
      {report : VerificationReport}
      → evaluate facts artifact_root secrets r task_id accept_risk risk_reason ≡ ok report
      → report.outcome ≡ GateOutcome.accepted_with_risk
      → RiskAccepted accept_risk risk_reason report.issues
  unfolding evaluate
  evaluate-RiskAccepted r task_id accept_risk risk_reason h o =
      let (incomplete, i, h₁) = >>=-eq-ok (check_incomplete_commands r) _ h in
      let (high, g, h₂) = >>=-eq-ok (check_high_risk_approvals r.events) _ h₁ in
      let same = ok_path h₂ in
      subst (RiskAccepted accept_risk risk_reason) (ap (λ x. x.issues) same)
        (outcome_of_issues-RiskAccepted accept_risk risk_reason _ (ap (λ x. x.outcome) same ∙ o))

  module _ (digest : TaskRecord → String) (files : Files) (id : String) (accept_risk : Bool)
      (risk_reason : Option String) (r : TaskRecord) (loaded : load digest files id ≡ ok r)
      {report : VerificationReport} {files' : Files}
      (verified : verify_with_lease facts artifact_root secrets digest files id accept_risk
          risk_reason
        ≡ ok (report, files')) where
    -- A verification accepts a task with risk only where that was allowed, with a reason that is not
    -- blank, and when each issue that it reports is waivable. The files then hold the judged record,
    -- in the state `accepted_with_risk` and with one more event that holds the report.
    pub accepted_risk :
        report.outcome ≡ GateOutcome.accepted_with_risk
        → RiskAccepted accept_risk risk_reason report.issues
          × (ev : TaskEvent) × Next r "task.accepted_with_risk" (verification_data report) ev
          × (load digest files' id ≡ ok (with_event r TaskState.accepted_with_risk ev))
    accepted_risk accepted =
        let (evaluated, finalized) =
          verify_with_lease-report facts artifact_root secrets digest files id accept_risk
            risk_reason r loaded verified in
        let h : finalize_as facts artifact_root secrets digest files id report
              GateOutcome.accepted_with_risk
            ≡ ok (report, files') =
          subst
            (λ o.
              finalize_as facts artifact_root secrets digest files id report o
              ≡ ok (report, files'))
            accepted finalized in
        let ((x, written), e, k) =
          >>=-eq-ok
            (finalize digest facts.now files id TaskState.accepted_with_risk
              (verification_data report))
            _ h in
        let (r₁, ev, n, o, c, q) =
          finalize-Commit digest facts.now files id TaskState.accepted_with_risk
            (verification_data report) e in
        let same : r₁ ≡ r = ok_path (sym c.loaded ∙ loaded) in
        let stored : load digest files' id ≡ ok x =
          subst (λ fs. load digest fs id ≡ ok x) (ap (λ y. y.1) (ok_path k))
            (load-Commit digest files id c).0 in
        (
          evaluate-RiskAccepted r id accept_risk risk_reason evaluated accepted,
          ev,
          subst (λ y. Next y "task.accepted_with_risk" (verification_data report) ev) same n,
          stored ∙ ap ok q ∙ ap (λ y. ok (with_event y TaskState.accepted_with_risk ev)) same,
        )
