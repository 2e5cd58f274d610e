-- ===== src/Verifier/Verify.antt =====
-- `Verifier.verify`: all checks in their order, the outcome, and the record's terminal state.
use adaptive_harness.Prelude.{
  ℕ, String, Bool, false, not, ◌&&◌, List, [], ◌∷◌, ◌++◌, map, Option, none, some, ◌=ˢ◌, all, any,
  is_blank, if◌then◌else◌, pos, Result, ok, ◌>>=◌,
}
use adaptive_harness.Paths.{PosixPath}
use adaptive_harness.Json.{
  Value, null, num, str, arr, obj, Items, nil, cons, Fields, end, field, strs, str_or_null,
}
use adaptive_harness.Envelope.{Acceptance}
use adaptive_harness.Store.{TaskState, TaskRecord, Files, current_envelope, load, finalize}
use adaptive_harness.Verifier.Defs.{
  VerificationIssue, AcceptanceResult, acceptance_status_name, GateOutcome, VerificationReport,
  Facts,
}
use adaptive_harness.Verifier.Checks.{
  issue, check_workspace, check_diff, check_incomplete_commands, check_high_risk_approvals,
  check_requirement_coverage,
}
use adaptive_harness.Verifier.Acceptance.{verify_acceptance}

-- `key in seen`, for keys of a code and a message
abbrev pub has_issue : VerificationIssue → List VerificationIssue → Bool
has_issue x seen = any (λ y. y.code =ˢ x.code && y.message =ˢ x.message) seen

-- The loop of `_deduplicate_issues`; `seen` holds the issues kept so far.
unfoldable pub deduplicate_from :
    List VerificationIssue → List VerificationIssue → List VerificationIssue
deduplicate_from seen [] = []
deduplicate_from seen (x ∷ xs) =
    let skipped = deduplicate_from seen xs in
    let kept = x ∷ deduplicate_from (x ∷ seen) xs in if has_issue x seen then skipped else kept

-- `_deduplicate_issues`
unfoldable pub deduplicate_issues : List VerificationIssue → List VerificationIssue
unfolding deduplicate_from
deduplicate_issues xs = deduplicate_from [] xs

abbrev pub good_reason : Option String → Bool
good_reason none = false
good_reason (some reason) = not (is_blank reason)

-- The outcome of the issues that are left.
unfoldable pub outcome_of_issues : Bool → Option String → List VerificationIssue → GateOutcome
outcome_of_issues accept_risk risk_reason [] = GateOutcome.completed
outcome_of_issues accept_risk risk_reason (x ∷ xs) =
    if accept_risk && good_reason risk_reason && all (λ y. y.waivable) (x ∷ xs)
    then GateOutcome.accepted_with_risk
    else GateOutcome.rejected

abbrev pub sequence_value : Option ℕ → Value
sequence_value none = null
sequence_value (some n) = num (pos n)

abbrev pub result_items : List AcceptanceResult → Items
result_items [] = nil
result_items (x ∷ xs) =
    cons
      (obj (
        field "id" (str x.acceptance_id) (
          field "status" (str (acceptance_status_name x.status))
            (field "evidence_event_sequence" (sequence_value x.evidence_event_sequence) end))))
      (result_items xs)

-- The data of the terminal event.
abbrev pub verification_data : VerificationReport → Fields
verification_data report = field "envelope_revision" (num (pos report.envelope_revision)) (
    field "acceptances" (arr (result_items report.acceptances)) (
      field "issues" (strs (map (λ x. x.code) report.issues))
        (field "risk_reason" (str_or_null report.risk_reason) end)))

module _ (facts : Facts) (artifact_root : PosixPath) (secrets : List String) where
  -- The results of all acceptances, and the issues that they append in turn.
  unfoldable pub verify_acceptances :
      TaskRecord → List Acceptance → List AcceptanceResult × List VerificationIssue
  verify_acceptances r [] = ([], [])
  verify_acceptances r (a ∷ acceptances) =
      let (x, first) = verify_acceptance facts artifact_root secrets r a in
      let (xs, others) = verify_acceptances r acceptances in (x ∷ xs, first ++ others)

  -- The report of `_verify_with_lease` on a record.
  unfoldable pub evaluate : TaskRecord → String → Bool → Option String → Result VerificationReport
  evaluate r task_id accept_risk risk_reason = do
    let e = current_envelope r
    incomplete ← check_incomplete_commands r
    high_risk ← check_high_risk_approvals r.events
    let (results, acceptance_issues) = verify_acceptances r e.acceptances
    let issues = deduplicate_issues (
        check_workspace e facts.snapshot
        ++ (check_diff e facts.diff
            ++ (incomplete
                ++ (high_risk
                    ++ (acceptance_issues
                        ++ check_requirement_coverage e results e.requirements)))))
    ok (record {
      task_id = task_id;
      envelope_revision = e.revision;
      outcome = outcome_of_issues accept_risk risk_reason issues;
      acceptances = results;
      issues = issues;
      risk_reason = risk_reason;
    })

  -- The report of a verification that cannot take the lease.
  abbrev pub lease_conflict_report : TaskRecord → String → Option String → VerificationReport
  lease_conflict_report r task_id risk_reason = record {
    task_id = task_id;
    envelope_revision = (current_envelope r).revision;
    outcome = GateOutcome.rejected;
    acceptances = [];
    issues = issue "lease_conflict" "workspace lease is held by another operation" false ∷ [];
    risk_reason = risk_reason;
  }

  module _ (digest : TaskRecord → String) where
    abbrev pub finalize_as :
        Files → String → VerificationReport → GateOutcome → Result (VerificationReport × Files)
    finalize_as files task_id report GateOutcome.rejected = ok (report, files)
    finalize_as files task_id report GateOutcome.completed = do
      (r, files') ←
          finalize digest facts.now files task_id TaskState.completed (verification_data report)
      ok (report, files')
    finalize_as files task_id report GateOutcome.accepted_with_risk = do
      (r, files') ←
          finalize digest facts.now files task_id TaskState.accepted_with_risk
            (verification_data report)
      ok (report, files')

    -- `_verify_with_lease`
    unfoldable pub verify_with_lease :
        Files → String → Bool → Option String → Result (VerificationReport × Files)
    verify_with_lease files task_id accept_risk risk_reason = do
      r ← load digest files task_id
      report ← evaluate r task_id accept_risk risk_reason
      finalize_as files task_id report report.outcome

    -- `verify`; `before` are the records when it is called, and `files` once the lease is held
    unfoldable pub verify :
        Files → Files → String → Bool → Option String → Result (VerificationReport × Files)
    verify before files task_id accept_risk risk_reason = do
      r ← load digest before task_id
      (if facts.lease_free
          then verify_with_lease files task_id accept_risk risk_reason
          else ok (lease_conflict_report r task_id risk_reason, files))
