-- ===== src/Tests/Starts.antt =====
-- A task that is started, an amendment of it, and capabilities that are loaded.
use adaptive_harness.Prelude.{
  ℕ, suc, String, ◌≡◌, refl, ap, Bool, true, false, ◌&&◌, List, [], ◌∷◌, ◌++◌, length, map, all,
  subset, Option, none, some, pos, Result, ok, err,
}
use adaptive_harness.Paths.{PosixPath, parse_path, show_path}
use adaptive_harness.Envelope.{Acceptance, TaskEnvelope}
use adaptive_harness.Service.Amended.{commands_of, changes_of-covers}
use adaptive_harness.Json.{Fields, Value, end, field, str, num, bool, strs, arr, get}
use adaptive_harness.Store.{TaskEvent, TaskRecord, load, write}
use adaptive_harness.Gateway.{
  NetworkAccess, SideEffect, ExecutionEnvironment, Capability, ScopedApproval, default_policy,
  valid_capability, is_identifier,
}
use adaptive_harness.Executor.{Artifacts, CommandResult, result_of, outcome_of, process}
use adaptive_harness.Modules.{ActivationDecision, LockFormat}
use adaptive_harness.Service.{
  Clock, Place, Stores, ServiceFacts, StartFacts, StartRequest, files_at, with_files, plan_approval,
  store_for, approval_payload, approval_from_payload, grant_approval, recorded_approvals,
  run_capability, planned_task, start_task, changes_of, load_capabilities, capabilities_document,
  has_exactly,
}
use adaptive_harness.Service.Declared.{load_capabilities-document}
use adaptive_harness.Service.Planned.{Planned}
use adaptive_harness.Service.Started.{Decisions, start_recorded}
use adaptive_harness.Tests.Data.{digest, no_files, created, envelope, capability}
use adaptive_harness.Tests.Modules
use adaptive_harness.Tests.Services.{isalnum, service_facts}

abbrev start_facts : StartFacts
start_facts = record {
  observed = record service_facts { now = "day 1" };
  dirty_state = [];
  config = ok (record { schema_version = "1.0"; mode = "observe" });
  harness_version = "0.1";
  new_task_id = "t1";
  modules = Modules.host;
  lock = record { read_lock = λ content. some Modules.empty; write_lock = λ d. [] };
  disk = Modules.disk;
}

abbrev request : StartRequest
request = record {
  goal = "fix it";
  allowed_scope = "src" ∷ [];
  requirements = [];
  capability_ids = [];
  task_traits = [];
  manually_requested_modules = [];
  task_id = none;
  timeout_seconds = pos 120;
  retry_budget = pos 1;
}

abbrev nothing_stored : Stores
nothing_stored = record { current = no_files; legacy = none }

abbrev record_or : TaskRecord → Result TaskRecord → TaskRecord
record_or r (err e) = r
record_or r (ok r') = r'

abbrev begun : Stores × Result TaskRecord
begun = start_task digest start_facts request nothing_stored

starts : begun ≡ (begun.0, ok (record_or created begun.1))
unfolding adaptive_harness.Envelope.is_full_sha adaptive_harness.Envelope.is_identifier
    adaptive_harness.Envelope.valid_acceptance adaptive_harness.Envelope.valid_envelope
    adaptive_harness.Envelope.valid_requirement adaptive_harness.Executor.decimal
    adaptive_harness.Json.value_eq adaptive_harness.Paths.join_path
    adaptive_harness.Paths.parse_path adaptive_harness.Paths.show_path
    adaptive_harness.Prelude.is_blank adaptive_harness.Store.append_event
    adaptive_harness.Store.load adaptive_harness.Store.new_event adaptive_harness.Store.only_widens
    adaptive_harness.Store.read adaptive_harness.Store.safe_task_id
    adaptive_harness.Store.same_immutables adaptive_harness.Store.save
    adaptive_harness.Store.valid_payload adaptive_harness.Store.valid_record
    adaptive_harness.Store.write adaptive_harness.Service.legacy_matches
    adaptive_harness.Service.start_task adaptive_harness.Service.planned_task
    adaptive_harness.Service.record_decisions adaptive_harness.Service.requirements_from
    adaptive_harness.Service.acceptances_from adaptive_harness.Modules.activation_decisions
    adaptive_harness.Modules.builtin_modules adaptive_harness.Modules.decide_all
    adaptive_harness.Modules.load_lock adaptive_harness.Modules.list_modules
    adaptive_harness.Store.create
starts = refl

start_recorded_example :
    (e : TaskEnvelope) × (decisions : List ActivationDecision) × (planned_task digest start_facts
        request nothing_stored
      ≡ ok (e, decisions))
    × Planned start_facts.observed e
    × (load digest begun.0.current e.task_id ≡ ok (record_or created begun.1))
    × ((record_or created begun.1).first_envelope ≡ e)
    × ((record_or created begun.1).later_envelopes ≡ [])
    × (made : TaskEvent) × (events : List TaskEvent) × ((record_or created begun.1).events
        ≡ made ∷ events)
    × (made.type ≡ "task.created")
    × Decisions request.task_traits decisions events
start_recorded_example =
    start_recorded digest start_facts request nothing_stored begun.0 {r = record_or created begun.1}
      starts

changes_of-covers_example :
    (acceptances : List Acceptance) × (requested : List String) × ((changes_of envelope none []
        ("lint" ∷ [])).acceptances
      ≡ some acceptances)
    × ((changes_of envelope none [] ("lint" ∷ [])).requested_capabilities ≡ some requested)
    × (subset ("lint" ∷ []) (commands_of acceptances) ≡ true)
    × (subset (commands_of envelope.acceptances) (commands_of acceptances) ≡ true)
    × (subset ("lint" ∷ []) requested ≡ true)
    × (subset envelope.requested_capabilities requested ≡ true)
changes_of-covers_example = changes_of-covers envelope none [] "lint" []

capability_valid : all (valid_capability isalnum) (capability ∷ []) ≡ true
unfolding valid_capability adaptive_harness.Gateway.is_identifier
    adaptive_harness.Gateway.valid_paths adaptive_harness.Gateway.valid_relative_path parse_path
capability_valid = refl

abbrev is_array : Value → Bool
is_array (arr items) = true
is_array _ = false

-- The part of the schema that is about the document's root.
abbrev conforms : Fields → Bool
conforms d =
    has_exactly ("schema_version" ∷ "capabilities" ∷ []) d && is_array (get d "capabilities")

load_capabilities-document_example :
    load_capabilities isalnum conforms (capabilities_document (capability ∷ []))
    ≡ ok (capability ∷ [])
load_capabilities-document_example =
    load_capabilities-document isalnum conforms (capability ∷ []) capability_valid refl
