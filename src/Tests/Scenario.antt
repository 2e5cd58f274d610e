-- ===== src/Tests/Scenario.antt =====
-- The task of the examples, run.
use adaptive_harness.Prelude.{String, ◌≡◌, refl, [], ◌∷◌, none, pos, ok, true, false}
use adaptive_harness.Envelope.{apply_changes}
use adaptive_harness.Envelope
use adaptive_harness.Store.{load, TaskState, write}
use adaptive_harness.Gateway.{default_policy, authorize}
use adaptive_harness.Executor.{execute, result_of, outcome_of, process}
use adaptive_harness.Verifier.{
  GateOutcome, VerificationReport, verify_with_lease, verification_data,
}
use adaptive_harness.Tests.Data.{
  digest, codec, envelope, created, created_files, capability, snapshot, authorized_files, command,
  limits, artifact_root, host, world, finished_files, finished, facts, out, errors, report,
  completed_files, completed, widened,
}

pub created_loads : load digest created_files "t1" ≡ ok created
unfolding adaptive_harness.Envelope.is_full_sha adaptive_harness.Envelope.is_identifier
    adaptive_harness.Envelope.valid_acceptance adaptive_harness.Envelope.valid_envelope
    adaptive_harness.Envelope.valid_requirement adaptive_harness.Prelude.is_blank
    adaptive_harness.Store.load adaptive_harness.Store.only_widens adaptive_harness.Store.read
    adaptive_harness.Store.safe_task_id adaptive_harness.Store.same_immutables
    adaptive_harness.Store.valid_payload adaptive_harness.Store.valid_record
    adaptive_harness.Store.write
created_loads = refl

pub authorizes :
    authorize digest
      (λ p. p)
      (capability ∷ [])
      default_policy
      "day 2"
      0
      snapshot
      created_files
      "t1"
      "run-tests"
      []
    ≡ ok (command, authorized_files)
unfolding adaptive_harness.Envelope.is_full_sha adaptive_harness.Envelope.is_identifier
    adaptive_harness.Envelope.valid_acceptance adaptive_harness.Envelope.valid_envelope
    adaptive_harness.Envelope.valid_requirement adaptive_harness.Gateway.approval_matches
    adaptive_harness.Gateway.approve adaptive_harness.Gateway.authorize
    adaptive_harness.Gateway.check_limits adaptive_harness.Gateway.evaluate_policy
    adaptive_harness.Gateway.find_approval adaptive_harness.Gateway.in_scope
    adaptive_harness.Gateway.kernel_high_risk adaptive_harness.Gateway.records_text
    adaptive_harness.Gateway.requires_approval adaptive_harness.Gateway.validate_workspace
    adaptive_harness.Gateway.validate_write_scope adaptive_harness.Json.value_eq
    adaptive_harness.Paths.join_path adaptive_harness.Paths.parse_path
    adaptive_harness.Paths.show_path adaptive_harness.Prelude.is_blank
    adaptive_harness.Store.append_event adaptive_harness.Store.load adaptive_harness.Store.new_event
    adaptive_harness.Store.only_widens adaptive_harness.Store.read
    adaptive_harness.Store.safe_task_id adaptive_harness.Store.same_immutables
    adaptive_harness.Store.save adaptive_harness.Store.valid_payload
    adaptive_harness.Store.valid_record adaptive_harness.Store.write
authorizes = refl

pub executes : execute digest codec limits [] artifact_root host authorized_files world command ≡ (
  (execute digest codec limits [] artifact_root host authorized_files world command).0,
  ok (result_of command 1 out errors (outcome_of codec limits [] (process [] (pos 0)))),
)
unfolding adaptive_harness.Envelope.is_full_sha adaptive_harness.Envelope.is_identifier
    adaptive_harness.Envelope.valid_acceptance adaptive_harness.Envelope.valid_envelope
    adaptive_harness.Envelope.valid_requirement adaptive_harness.Executor.capture
    adaptive_harness.Executor.create_artifact_directory adaptive_harness.Executor.decimal
    adaptive_harness.Executor.event_matches_authorization adaptive_harness.Executor.execute
    adaptive_harness.Executor.finish adaptive_harness.Executor.limit_text
    adaptive_harness.Executor.outcome_of adaptive_harness.Executor.prepare
    adaptive_harness.Executor.records_number adaptive_harness.Executor.redact
    adaptive_harness.Executor.redact_and_limit adaptive_harness.Executor.run
    adaptive_harness.Executor.status_of adaptive_harness.Executor.validate_authorization
    adaptive_harness.Executor.validate_workspace adaptive_harness.Gateway.approval_matches
    adaptive_harness.Gateway.approve adaptive_harness.Gateway.authorize
    adaptive_harness.Gateway.check_limits adaptive_harness.Gateway.evaluate_policy
    adaptive_harness.Gateway.find_approval adaptive_harness.Gateway.in_scope
    adaptive_harness.Gateway.kernel_high_risk adaptive_harness.Gateway.records_text
    adaptive_harness.Gateway.requires_approval adaptive_harness.Gateway.validate_workspace
    adaptive_harness.Gateway.validate_write_scope adaptive_harness.Json.value_eq
    adaptive_harness.Paths.join_path adaptive_harness.Paths.parse_path
    adaptive_harness.Paths.show_path adaptive_harness.Prelude.is_blank
    adaptive_harness.Store.append_event adaptive_harness.Store.load adaptive_harness.Store.new_event
    adaptive_harness.Store.only_widens adaptive_harness.Store.read
    adaptive_harness.Store.safe_task_id adaptive_harness.Store.same_immutables
    adaptive_harness.Store.save adaptive_harness.Store.valid_payload
    adaptive_harness.Store.valid_record adaptive_harness.Store.write
executes = refl

pub finished_loads : load digest finished_files "t1" ≡ ok finished
unfolding adaptive_harness.Envelope.is_full_sha adaptive_harness.Envelope.is_identifier
    adaptive_harness.Envelope.valid_acceptance adaptive_harness.Envelope.valid_envelope
    adaptive_harness.Envelope.valid_requirement adaptive_harness.Executor.capture
    adaptive_harness.Executor.create_artifact_directory adaptive_harness.Executor.decimal
    adaptive_harness.Executor.event_matches_authorization adaptive_harness.Executor.execute
    adaptive_harness.Executor.finish adaptive_harness.Executor.limit_text
    adaptive_harness.Executor.outcome_of adaptive_harness.Executor.prepare
    adaptive_harness.Executor.records_number adaptive_harness.Executor.redact
    adaptive_harness.Executor.redact_and_limit adaptive_harness.Executor.run
    adaptive_harness.Executor.status_of adaptive_harness.Executor.validate_authorization
    adaptive_harness.Executor.validate_workspace adaptive_harness.Json.value_eq
    adaptive_harness.Paths.show_path adaptive_harness.Prelude.is_blank adaptive_harness.Store.load
    adaptive_harness.Store.only_widens adaptive_harness.Store.read
    adaptive_harness.Store.safe_task_id adaptive_harness.Store.same_immutables
    adaptive_harness.Store.valid_payload adaptive_harness.Store.valid_record
    adaptive_harness.Store.write
finished_loads = refl

pub verifies :
    verify_with_lease facts artifact_root [] digest finished_files "t1" false none
    ≡ ok (report, completed_files)
unfolding adaptive_harness.Envelope.is_full_sha adaptive_harness.Envelope.is_identifier
    adaptive_harness.Envelope.valid_acceptance adaptive_harness.Envelope.valid_envelope
    adaptive_harness.Envelope.valid_requirement adaptive_harness.Executor.capture
    adaptive_harness.Executor.create_artifact_directory adaptive_harness.Executor.decimal
    adaptive_harness.Executor.event_matches_authorization adaptive_harness.Executor.execute
    adaptive_harness.Executor.finish adaptive_harness.Executor.limit_text
    adaptive_harness.Executor.outcome_of adaptive_harness.Executor.prepare
    adaptive_harness.Executor.records_number adaptive_harness.Executor.redact
    adaptive_harness.Executor.redact_and_limit adaptive_harness.Executor.run
    adaptive_harness.Executor.status_of adaptive_harness.Executor.validate_authorization
    adaptive_harness.Executor.validate_workspace adaptive_harness.Gateway.approval_matches
    adaptive_harness.Gateway.approve adaptive_harness.Gateway.authorize
    adaptive_harness.Gateway.check_limits adaptive_harness.Gateway.evaluate_policy
    adaptive_harness.Gateway.find_approval adaptive_harness.Gateway.in_scope
    adaptive_harness.Gateway.kernel_high_risk adaptive_harness.Gateway.records_text
    adaptive_harness.Gateway.requires_approval adaptive_harness.Gateway.validate_workspace
    adaptive_harness.Gateway.validate_write_scope adaptive_harness.Json.value_eq
    adaptive_harness.Paths.join_path adaptive_harness.Paths.parse_path
    adaptive_harness.Paths.show_path adaptive_harness.Prelude.is_blank
    adaptive_harness.Store.append_event adaptive_harness.Store.finalize adaptive_harness.Store.load
    adaptive_harness.Store.new_event adaptive_harness.Store.only_widens adaptive_harness.Store.read
    adaptive_harness.Store.safe_task_id adaptive_harness.Store.same_immutables
    adaptive_harness.Store.save adaptive_harness.Store.valid_payload
    adaptive_harness.Store.valid_record adaptive_harness.Store.write
    adaptive_harness.Verifier.authorization_event adaptive_harness.Verifier.check_artifacts
    adaptive_harness.Verifier.check_diff adaptive_harness.Verifier.check_high_risk_approvals
    adaptive_harness.Verifier.check_incomplete_commands
    adaptive_harness.Verifier.check_requirement_coverage adaptive_harness.Verifier.check_workspace
    adaptive_harness.Verifier.deduplicate_from adaptive_harness.Verifier.deduplicate_issues
    adaptive_harness.Verifier.evaluate adaptive_harness.Verifier.has_high_risk
    adaptive_harness.Verifier.has_started_event adaptive_harness.Verifier.incomplete_commands
    adaptive_harness.Verifier.judge_evidence adaptive_harness.Verifier.outcome_of_issues
    adaptive_harness.Verifier.reports_success adaptive_harness.Verifier.unapproved
    adaptive_harness.Verifier.verify_acceptance adaptive_harness.Verifier.verify_acceptances
    adaptive_harness.Verifier.verify_with_lease
verifies = refl

pub completed_loads : load digest completed_files "t1" ≡ ok completed
unfolding adaptive_harness.Envelope.is_full_sha adaptive_harness.Envelope.is_identifier
    adaptive_harness.Envelope.valid_acceptance adaptive_harness.Envelope.valid_envelope
    adaptive_harness.Envelope.valid_requirement adaptive_harness.Executor.capture
    adaptive_harness.Executor.create_artifact_directory adaptive_harness.Executor.decimal
    adaptive_harness.Executor.event_matches_authorization adaptive_harness.Executor.execute
    adaptive_harness.Executor.finish adaptive_harness.Executor.limit_text
    adaptive_harness.Executor.outcome_of adaptive_harness.Executor.prepare
    adaptive_harness.Executor.records_number adaptive_harness.Executor.redact
    adaptive_harness.Executor.redact_and_limit adaptive_harness.Executor.run
    adaptive_harness.Executor.status_of adaptive_harness.Executor.validate_authorization
    adaptive_harness.Executor.validate_workspace adaptive_harness.Json.value_eq
    adaptive_harness.Paths.show_path adaptive_harness.Prelude.is_blank adaptive_harness.Store.load
    adaptive_harness.Store.only_widens adaptive_harness.Store.read
    adaptive_harness.Store.safe_task_id adaptive_harness.Store.same_immutables
    adaptive_harness.Store.valid_payload adaptive_harness.Store.valid_record
    adaptive_harness.Store.write adaptive_harness.Verifier.outcome_of_issues
completed_loads = refl

pub amends : Envelope.amend envelope widened ≡ ok (apply_changes envelope widened)
unfolding adaptive_harness.Envelope.amend adaptive_harness.Envelope.amendable
    adaptive_harness.Envelope.is_full_sha adaptive_harness.Envelope.is_identifier
    adaptive_harness.Envelope.keeps_bounds adaptive_harness.Envelope.valid_acceptance
    adaptive_harness.Envelope.valid_envelope adaptive_harness.Envelope.valid_requirement
    adaptive_harness.Prelude.is_blank adaptive_harness.Store.load adaptive_harness.Store.only_widens
    adaptive_harness.Store.read adaptive_harness.Store.safe_task_id
    adaptive_harness.Store.same_immutables adaptive_harness.Store.valid_payload
    adaptive_harness.Store.valid_record adaptive_harness.Store.write
amends = refl
