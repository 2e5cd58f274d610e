-- ===== src/Tests/Acceptances.antt =====
-- A verification that accepts the task of the examples with risk.
use adaptive_harness.Prelude.{String, ◌≡◌, refl, List, [], ◌∷◌, none, some, ok, true, false}
use adaptive_harness.Store.{TaskEvent, TaskState, TaskRecord, Files, load, write}
use adaptive_harness.Store.History.{with_event}
use adaptive_harness.Store.Commits.{Next}
use adaptive_harness.Store.Progress.{next_event}
use adaptive_harness.Verifier.{
  Facts, VerificationReport, AcceptanceStatus, GateOutcome, verification_data, verify_with_lease,
}
use adaptive_harness.Verifier.Outcomes.{RiskAccepted, accepted_risk}
use adaptive_harness.Tests.Data.{digest, facts, artifact_root, created, created_files}
use adaptive_harness.Tests.Scenario.{created_loads}

abbrev acceptance_with_risk : VerificationReport
acceptance_with_risk = record {
  task_id = "t1";
  envelope_revision = 1;
  outcome = GateOutcome.accepted_with_risk;
  acceptances =
      record {
        acceptance_id = "tests-pass";
        status = AcceptanceStatus.missing;
        evidence_event_sequence = none;
      }
      ∷ [];
  issues =
      record {
        code = "required_acceptance_failed";
        message = "required acceptance tests-pass is missing";
        waivable = true;
      }
      ∷ record {
        code = "requirement_unverified";
        message = "requirement lacks passing evidence: r1";
        waivable = true;
      }
      ∷ [];
  risk_reason = some "shipped without tests";
}

abbrev accepted_files : Files
accepted_files = write digest created_files "t1" (
    with_event created TaskState.accepted_with_risk (
      next_event "day 5" created "task.accepted_with_risk"
        (verification_data acceptance_with_risk)))

accepts :
    verify_with_lease facts artifact_root [] digest created_files "t1" true
      (some "shipped without tests")
    ≡ ok (acceptance_with_risk, accepted_files)
unfolding adaptive_harness.Envelope.is_full_sha adaptive_harness.Envelope.is_identifier
    adaptive_harness.Envelope.valid_acceptance adaptive_harness.Envelope.valid_envelope
    adaptive_harness.Envelope.valid_requirement adaptive_harness.Executor.capture
    adaptive_harness.Executor.create_artifact_directory adaptive_harness.Executor.decimal
    adaptive_harness.Executor.event_matches_authorization adaptive_harness.Executor.execute
    adaptive_harness.Executor.finish adaptive_harness.Executor.limit_text
    adaptive_harness.Executor.outcome_of adaptive_harness.Executor.prepare
    adaptive_harness.Executor.records_number adaptive_harness.Executor.redact
    adaptive_harness.Executor.redact_and_limit adaptive_harness.Executor.run
    adaptive_harness.Executor.status_of adaptive_harness.Executor.validate_authorization
    adaptive_harness.Executor.validate_workspace adaptive_harness.Gateway.approval_matches
    adaptive_harness.Gateway.approve adaptive_harness.Gateway.authorize
    adaptive_harness.Gateway.check_limits adaptive_harness.Gateway.evaluate_policy
    adaptive_harness.Gateway.find_approval adaptive_harness.Gateway.in_scope
    adaptive_harness.Gateway.kernel_high_risk adaptive_harness.Gateway.records_text
    adaptive_harness.Gateway.requires_approval adaptive_harness.Gateway.validate_workspace
    adaptive_harness.Gateway.validate_write_scope adaptive_harness.Json.value_eq
    adaptive_harness.Paths.join_path adaptive_harness.Paths.parse_path
    adaptive_harness.Paths.show_path adaptive_harness.Prelude.is_blank
    adaptive_harness.Store.append_event adaptive_harness.Store.finalize adaptive_harness.Store.load
    adaptive_harness.Store.new_event adaptive_harness.Store.only_widens adaptive_harness.Store.read
    adaptive_harness.Store.safe_task_id adaptive_harness.Store.same_immutables
    adaptive_harness.Store.save adaptive_harness.Store.valid_payload
    adaptive_harness.Store.valid_record adaptive_harness.Store.write
    adaptive_harness.Verifier.authorization_event adaptive_harness.Verifier.check_artifacts
    adaptive_harness.Verifier.check_diff adaptive_harness.Verifier.check_high_risk_approvals
    adaptive_harness.Verifier.check_incomplete_commands
    adaptive_harness.Verifier.check_requirement_coverage adaptive_harness.Verifier.check_workspace
    adaptive_harness.Verifier.deduplicate_from adaptive_harness.Verifier.deduplicate_issues
    adaptive_harness.Verifier.evaluate adaptive_harness.Verifier.has_high_risk
    adaptive_harness.Verifier.has_started_event adaptive_harness.Verifier.incomplete_commands
    adaptive_harness.Verifier.judge_evidence adaptive_harness.Verifier.outcome_of_issues
    adaptive_harness.Verifier.reports_success adaptive_harness.Verifier.unapproved
    adaptive_harness.Verifier.verify_acceptance adaptive_harness.Verifier.verify_acceptances
    adaptive_harness.Verifier.verify_with_lease
accepts = refl

accepted_risk_example :
    RiskAccepted true (some "shipped without tests") acceptance_with_risk.issues
    × (ev : TaskEvent) × Next created "task.accepted_with_risk"
        (verification_data acceptance_with_risk)
        ev
    × (load digest accepted_files "t1" ≡ ok (with_event created TaskState.accepted_with_risk ev))
accepted_risk_example =
    accepted_risk facts artifact_root [] digest created_files "t1" true
      (some "shipped without tests") created created_loads accepts refl
