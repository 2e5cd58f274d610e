-- ===== src/Tests/Services.antt =====
-- An approval that is planned and granted for the task of the examples, and a run of its capability.
use adaptive_harness.Prelude.{
  ℕ, suc, String, ◌≡◌, refl, ap, Bool, true, false, ◌&&◌, List, [], ◌∷◌, ◌++◌, length, map, all,
  subset, Option, none, some, pos, Result, ok, err,
}
use adaptive_harness.Paths.{PosixPath, parse_path, show_path}
use adaptive_harness.Envelope.{Acceptance, TaskEnvelope}
use adaptive_harness.Json.{Fields, Value, end, field, str, num, bool, strs, arr, get}
use adaptive_harness.Store.{TaskEvent, TaskRecord, load, write}
use adaptive_harness.Store.History.{with_event}
use adaptive_harness.Store.Progress.{next_event}
use adaptive_harness.Tests.Scenario.{created_loads}
use adaptive_harness.Gateway.{
  NetworkAccess, SideEffect, ExecutionEnvironment, Capability, ScopedApproval, default_policy,
  valid_capability, is_identifier,
}
use adaptive_harness.Executor.{Artifacts, CommandResult, result_of, outcome_of, process}
use adaptive_harness.Service.{
  Clock, Place, Stores, ServiceFacts, StartFacts, StartRequest, files_at, with_files, plan_approval,
  store_for, approval_payload, approval_from_payload, grant_approval, recorded_approvals,
  run_capability, planned_task, start_task, changes_of, load_capabilities, capabilities_document,
  has_exactly,
}
use adaptive_harness.Service.Payloads.{from_payload-payload}
use adaptive_harness.Service.Granted.{grant_recorded}
use adaptive_harness.Service.Grantable.{later, planned_grantable}
use adaptive_harness.Service.Whole.{RecordedRun, run_recorded}
use adaptive_harness.Tests.Data.{
  digest, codec, created, created_files, capability, snapshot, command, limits, artifact_root, host,
  out, errors,
}

abbrev clock : Clock
clock = record { show_time = λ t. "noon"; read_time = λ text. some 12 }

abbrev pub isalnum : ℕ → Bool
isalnum c = true

abbrev pub service_facts : ServiceFacts
service_facts = record {
  capabilities = ok (capability ∷ []);
  snapshot = snapshot;
  now = "day 2";
  time = 0;
  approval_id = "a2";
}

abbrev approval : ScopedApproval
approval = record {
  id = "a1";
  task_id = "t1";
  capability_id = "run-tests";
  base_sha = snapshot.base_sha;
  worktree_path = snapshot.worktree_path;
  read_paths = "." ∷ [];
  write_paths = [];
  side_effects = SideEffect.filesystem_read ∷ [];
  network = NetworkAccess.none;
  listener = false;
  environment = ExecutionEnvironment.test;
  max_uses = pos 1;
  expires_at = 12;
}

path_reads : parse_path (show_path approval.worktree_path) ≡ approval.worktree_path
unfolding parse_path show_path
path_reads = refl

valid : adaptive_harness.Gateway.valid_approval isalnum approval ≡ true
unfolding adaptive_harness.Gateway.valid_approval adaptive_harness.Gateway.is_identifier
    adaptive_harness.Gateway.valid_paths parse_path
valid = refl

from_payload-payload_example :
    approval_from_payload clock isalnum (approval_payload clock approval) ≡ ok approval
from_payload-payload_example = from_payload-payload clock isalnum approval refl path_reads valid

abbrev stores : Stores
stores = record { current = created_files; legacy = none }

stands : store_for digest snapshot stores "t1" ≡ ok Place.in_current
unfolding adaptive_harness.Envelope.is_full_sha adaptive_harness.Envelope.is_identifier
    adaptive_harness.Envelope.valid_acceptance adaptive_harness.Envelope.valid_envelope
    adaptive_harness.Envelope.valid_requirement adaptive_harness.Prelude.is_blank
    adaptive_harness.Store.append_event adaptive_harness.Store.load adaptive_harness.Store.new_event
    adaptive_harness.Store.only_widens adaptive_harness.Store.read
    adaptive_harness.Store.safe_task_id adaptive_harness.Store.same_immutables
    adaptive_harness.Store.save adaptive_harness.Store.valid_payload
    adaptive_harness.Store.valid_record adaptive_harness.Store.write
    adaptive_harness.Service.store_for adaptive_harness.Service.legacy_matches
stands = refl

none_recorded :
    recorded_approvals digest isalnum clock service_facts created_files "t1" "run-tests" ≡ ok []
unfolding adaptive_harness.Envelope.is_full_sha adaptive_harness.Envelope.is_identifier
    adaptive_harness.Envelope.valid_acceptance adaptive_harness.Envelope.valid_envelope
    adaptive_harness.Envelope.valid_requirement adaptive_harness.Prelude.is_blank
    adaptive_harness.Store.append_event adaptive_harness.Store.load adaptive_harness.Store.new_event
    adaptive_harness.Store.only_widens adaptive_harness.Store.read
    adaptive_harness.Store.safe_task_id adaptive_harness.Store.same_immutables
    adaptive_harness.Store.save adaptive_harness.Store.valid_payload
    adaptive_harness.Store.valid_record adaptive_harness.Store.write
    adaptive_harness.Gateway.records_text adaptive_harness.Service.recorded_approvals
    adaptive_harness.Service.approvals_in adaptive_harness.Json.value_eq
none_recorded = refl

abbrev artifacts : Artifacts
artifacts p = none

abbrev ran : (Stores × Artifacts) × Result CommandResult
ran =
    run_capability digest isalnum clock service_facts (λ p. p) codec limits []
      (λ place. artifact_root) host stores artifacts "t1" "run-tests"

runs :
    ran
    ≡ (ran.0, ok (result_of command 1 out errors (outcome_of codec limits [] (process [] (pos 0)))))
unfolding adaptive_harness.Envelope.is_full_sha adaptive_harness.Envelope.is_identifier
    adaptive_harness.Envelope.valid_acceptance adaptive_harness.Envelope.valid_envelope
    adaptive_harness.Envelope.valid_requirement adaptive_harness.Executor.capture
    adaptive_harness.Executor.create_artifact_directory adaptive_harness.Executor.decimal
    adaptive_harness.Executor.event_matches_authorization adaptive_harness.Executor.execute
    adaptive_harness.Executor.finish adaptive_harness.Executor.limit_text
    adaptive_harness.Executor.outcome_of adaptive_harness.Executor.prepare
    adaptive_harness.Executor.records_number adaptive_harness.Executor.redact
    adaptive_harness.Executor.redact_and_limit adaptive_harness.Executor.run
    adaptive_harness.Executor.status_of adaptive_harness.Executor.validate_authorization
    adaptive_harness.Executor.validate_workspace adaptive_harness.Gateway.approval_matches
    adaptive_harness.Gateway.approve adaptive_harness.Gateway.authorize
    adaptive_harness.Gateway.check_limits adaptive_harness.Gateway.evaluate_policy
    adaptive_harness.Gateway.find_approval adaptive_harness.Gateway.in_scope
    adaptive_harness.Gateway.kernel_high_risk adaptive_harness.Gateway.records_text
    adaptive_harness.Gateway.requires_approval adaptive_harness.Gateway.validate_workspace
    adaptive_harness.Gateway.validate_write_scope adaptive_harness.Json.value_eq
    adaptive_harness.Paths.join_path adaptive_harness.Paths.parse_path
    adaptive_harness.Paths.show_path adaptive_harness.Prelude.is_blank
    adaptive_harness.Store.append_event adaptive_harness.Store.load adaptive_harness.Store.new_event
    adaptive_harness.Store.only_widens adaptive_harness.Store.read
    adaptive_harness.Store.safe_task_id adaptive_harness.Store.same_immutables
    adaptive_harness.Store.save adaptive_harness.Store.valid_payload
    adaptive_harness.Store.valid_record adaptive_harness.Store.write
    adaptive_harness.Service.store_for adaptive_harness.Service.legacy_matches
    adaptive_harness.Service.run_capability adaptive_harness.Service.authorize_capability
    adaptive_harness.Service.recorded_approvals adaptive_harness.Service.approvals_in
runs = refl

run_recorded_example :
    RecordedRun digest isalnum clock service_facts
      (λ p. p)
      codec
      limits
      []
      (λ place. artifact_root)
      host
      stores
      artifacts
      "t1"
      "run-tests"
      ran.0.0
      (result_of command 1 out errors (outcome_of codec limits [] (process [] (pos 0))))
run_recorded_example =
    run_recorded digest isalnum clock service_facts (λ p. p) codec limits []
      (λ place. artifact_root) host stores artifacts "t1" "run-tests" runs

abbrev approval_fields : Fields
approval_fields = field "approval_id" (str "a1") (
    field "task_id" (str "t1") (
      field "capability_id" (str "run-tests") (
        field "base_sha" (str snapshot.base_sha) (
          field "worktree_path" (str "/repo") (
            field "read_paths" (strs ("." ∷ [])) (
              field "write_paths" (strs []) (
                field "side_effects" (strs ("filesystem_read" ∷ [])) (
                  field "network" (str "none") (
                    field "listener" (bool false) (
                      field "environment" (str "test") (
                        field "max_uses" (num (pos 1))
                          (field "expires_at" (str "noon") end))))))))))))

abbrev granted_event : TaskEvent
granted_event = record {
  sequence = 2;
  type = "approval.granted";
  occurred_at = "day 2";
  payload = approval_fields;
}

abbrev granted_record : TaskRecord
granted_record = with_event created created.state granted_event

abbrev granted_stores : Stores
granted_stores = record { current = write digest created_files "t1" granted_record; legacy = none }

grants :
    grant_approval digest isalnum clock service_facts stores approval
    ≡ ok (granted_record, granted_stores)
unfolding adaptive_harness.Envelope.is_full_sha adaptive_harness.Envelope.is_identifier
    adaptive_harness.Envelope.valid_acceptance adaptive_harness.Envelope.valid_envelope
    adaptive_harness.Envelope.valid_requirement adaptive_harness.Executor.validate_authorization
    adaptive_harness.Executor.validate_workspace adaptive_harness.Gateway.validate_workspace
    adaptive_harness.Gateway.validate_write_scope adaptive_harness.Json.value_eq
    adaptive_harness.Paths.join_path adaptive_harness.Paths.parse_path
    adaptive_harness.Paths.show_path adaptive_harness.Prelude.is_blank
    adaptive_harness.Store.append_event adaptive_harness.Store.load adaptive_harness.Store.new_event
    adaptive_harness.Store.only_widens adaptive_harness.Store.read
    adaptive_harness.Store.safe_task_id adaptive_harness.Store.same_immutables
    adaptive_harness.Store.save adaptive_harness.Store.valid_payload
    adaptive_harness.Store.valid_record adaptive_harness.Store.write
    adaptive_harness.Service.store_for adaptive_harness.Service.legacy_matches
    adaptive_harness.Service.run_capability adaptive_harness.Service.authorize_capability
    adaptive_harness.Service.recorded_approvals adaptive_harness.Service.approvals_in
    adaptive_harness.Service.grant_approval adaptive_harness.Service.plan_approval
    adaptive_harness.Service.approval_payload adaptive_harness.Gateway.valid_approval
    adaptive_harness.Gateway.valid_paths adaptive_harness.Gateway.is_identifier
grants = refl

grant_recorded_example :
    recorded_approvals digest isalnum clock service_facts granted_stores.current "t1" "run-tests"
    ≡ ok (approval ∷ [])
grant_recorded_example =
    grant_recorded digest isalnum clock service_facts stores granted_stores approval []
      {place = Place.in_current} refl path_reads valid stands none_recorded grants

-- The approval that is planned on "day 2" and granted on "day 3".
abbrev planned : ScopedApproval
planned = record approval { id = "a2"; expires_at = 900000000 }

plans :
    plan_approval digest isalnum clock service_facts stores "t1" "run-tests" (pos 1) (pos 15)
    ≡ ok planned
unfolding adaptive_harness.Envelope.is_full_sha adaptive_harness.Envelope.is_identifier
    adaptive_harness.Envelope.valid_acceptance adaptive_harness.Envelope.valid_envelope
    adaptive_harness.Envelope.valid_requirement adaptive_harness.Executor.validate_authorization
    adaptive_harness.Executor.validate_workspace adaptive_harness.Gateway.validate_workspace
    adaptive_harness.Gateway.validate_write_scope adaptive_harness.Json.value_eq
    adaptive_harness.Paths.join_path adaptive_harness.Paths.parse_path
    adaptive_harness.Paths.show_path adaptive_harness.Prelude.is_blank
    adaptive_harness.Store.append_event adaptive_harness.Store.load adaptive_harness.Store.new_event
    adaptive_harness.Store.only_widens adaptive_harness.Store.read
    adaptive_harness.Store.safe_task_id adaptive_harness.Store.same_immutables
    adaptive_harness.Store.save adaptive_harness.Store.valid_payload
    adaptive_harness.Store.valid_record adaptive_harness.Store.write
    adaptive_harness.Service.store_for adaptive_harness.Service.legacy_matches
    adaptive_harness.Service.run_capability adaptive_harness.Service.authorize_capability
    adaptive_harness.Service.recorded_approvals adaptive_harness.Service.approvals_in
    adaptive_harness.Service.grant_approval adaptive_harness.Service.plan_approval
    adaptive_harness.Service.approval_payload adaptive_harness.Gateway.valid_approval
    adaptive_harness.Gateway.valid_paths adaptive_harness.Gateway.is_identifier
plans = refl

identified : is_identifier isalnum "a3" ≡ true
unfolding is_identifier
identified = refl

abbrev with_grant : TaskRecord
with_grant =
    with_event created created.state
      (next_event "day 3" created "approval.granted" (approval_payload clock planned))

planned_grantable_example :
    grant_approval digest isalnum clock (later service_facts "day 3" 5 "a3") stores planned
    ≡ ok (
      with_grant,
      with_files Place.in_current (write digest created_files "t1" with_grant) stores,
    )
planned_grantable_example =
    planned_grantable digest isalnum clock service_facts "day 3" 5 "a3" stores "t1" "run-tests"
      (pos 1) (pos 15) planned Place.in_current created plans stands created_loads refl identified
      refl
