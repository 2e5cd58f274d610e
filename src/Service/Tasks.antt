-- ===== src/Service/Tasks.antt =====
-- The start and the amendment of a task: `start` and `amend` of `TaskService`.
use adaptive_harness.Prelude.{
  suc, String, Bool, true, false, not, List, [], ◌∷◌, ◌++◌, map, Option, none, some, contains,
  subset, all, length, if◌then◌else◌, pos, Result, ok, err, value_error, task_already_exists,
  envelope_invariant, guard, ◌>>=◌, ◌>>◌,
}
use adaptive_harness.Envelope.{
  Acceptance, TaskEnvelope, Changes, valid_requirement, valid_acceptance, make_envelope,
}
use adaptive_harness.Store.{TaskRecord, Files, current_envelope, load, create, append_event}
use adaptive_harness.Store
use adaptive_harness.Modules.{ActivationDecision, is_empty, activation_decisions}
use adaptive_harness.Service.Places.{Stores, files_at, legacy_matches, store_for, at_place}
use adaptive_harness.Service.Runs.{ServiceFacts}
use adaptive_harness.Service.Requests.{
  StartFacts, StartRequest, capability_ids_of, selected_capabilities, requirements_from,
  acceptance_of, acceptances_from, requirement_ids_of, envelope_of, activation_data,
}

-- `dict.fromkeys(xs)`: each text once, where it stands first; `seen` are the texts before.
unfoldable pub unique_from : List String → List String → List String
unique_from seen [] = []
unique_from seen (x ∷ xs) =
    let rest = unique_from (x ∷ seen) xs in if contains seen x then rest else x ∷ rest

-- The loop of `amend` over the added capabilities; `existing` are the commands of the acceptances that
-- there were.
unfoldable pub with_acceptances :
    TaskEnvelope → List String → List String → List Acceptance → List Acceptance
with_acceptances e existing [] acceptances = acceptances
with_acceptances e existing (c ∷ cs) acceptances = with_acceptances e existing cs (
    if contains existing c
    then acceptances
    else acceptances
      ++ acceptance_of (suc (length acceptances)) (requirement_ids_of e.requirements) c
          e.timeout_seconds e.retry_budget
        ∷ [])

abbrev pub if_given : {A : Type 0} → List String → A → Option A
if_given [] a = none
if_given (x ∷ xs) a = some a

-- The changes that `amend` asks the store for.
unfoldable pub changes_of : TaskEnvelope → Option String → List String → List String → Changes
unfolding unique_from with_acceptances
changes_of e goal add_scope add_capabilities = record {
  other_fields = [];
  base_sha = none;
  worktree_path = none;
  initial_dirty_state = none;
  harness_version = none;
  config_version = none;
  goal = goal;
  non_goals = none;
  requirements = none;
  allowed_scope = if_given add_scope (unique_from [] (e.allowed_scope ++ add_scope));
  acceptances =
      if_given add_capabilities
        (with_acceptances e (map (λ a. a.command_id) e.acceptances) add_capabilities e.acceptances);
  requested_capabilities =
      if_given add_capabilities (unique_from [] (e.requested_capabilities ++ add_capabilities));
  timeout_seconds = none;
  retry_budget = none;
  budget = none;
  integration_mode = none;
}

abbrev pub nothing_given : Option String → List String → List String → Bool
nothing_given none [] [] = true
nothing_given _ _ _ = false

module _ (digest : TaskRecord → String) where
  -- Declared capabilities are asked for only where some are to be added.
  abbrev pub check_added : ServiceFacts → List String → Result (Unit {0})
  check_added facts [] = ok tt
  check_added facts (c ∷ cs) = do
    capabilities ← facts.capabilities
    guard (subset (c ∷ cs) (capability_ids_of capabilities)) value_error

  -- `amend`
  unfoldable pub amend_task :
      ServiceFacts
      → Stores
      → String
      → Option String
      → List String
      → List String
      → Result (TaskRecord × Stores)
  unfolding store_for changes_of
  amend_task facts stores task_id goal add_scope add_capabilities = do
    place ← store_for digest facts.snapshot stores task_id
    r ← load digest (files_at place stores) task_id
    check_added facts add_capabilities
    guard (not (nothing_given goal add_scope add_capabilities)) value_error
    at_place digest facts.snapshot
        (λ files.
          Store.amend digest facts.now files task_id
            (changes_of (current_envelope r) goal add_scope add_capabilities))
        stores place

  -- `start` up to the new record.
  unfoldable pub planned_task :
      StartFacts → StartRequest → Stores → Result (TaskEnvelope × List ActivationDecision)
  unfolding requirements_from acceptances_from legacy_matches
  planned_task sf q stores = do
    config ← sf.config
    capabilities ← sf.observed.capabilities
    let selected = selected_capabilities q capabilities
    guard (not (is_empty selected)) value_error
    guard (subset selected (capability_ids_of capabilities)) value_error
    decisions ←
        activation_decisions sf.modules sf.lock sf.disk q.task_traits selected
          q.manually_requested_modules (pos 2000)
    let e = envelope_of sf q config selected
    guard (all valid_requirement e.requirements) envelope_invariant
    guard (all valid_acceptance e.acceptances) envelope_invariant
    matches ← legacy_matches digest sf.observed.snapshot stores e.task_id
    guard (not matches) task_already_exists
    envelope ← make_envelope e
    ok (envelope, decisions)

  abbrev pub append_then :
      Files
      → (TaskRecord → Files → Files × Result TaskRecord)
      → Result (TaskRecord × Files)
      → Files × Result TaskRecord
  append_then files next (err e) = (files, err e)
  append_then files next (ok (r, files')) = next r files'

  -- The loop of `start` over the decisions; `r` is the record as it is.
  unfoldable pub record_decisions :
      String
      → String
      → List String
      → List ActivationDecision
      → TaskRecord
      → Files
      → Files × Result TaskRecord
  record_decisions now id task_traits [] r files = (files, ok r)
  record_decisions now id task_traits (d ∷ decisions) r files =
      append_then files (λ r' files'. record_decisions now id task_traits decisions r' files')
        (append_event digest now files id "module.activation" (activation_data task_traits d))

  abbrev pub create_and_record :
      StartFacts
      → StartRequest
      → Files
      → Result (TaskEnvelope × List ActivationDecision)
      → Files × Result TaskRecord
  create_and_record sf q files (err e) = (files, err e)
  create_and_record sf q files (ok (e, decisions)) =
      append_then files
        (λ r files'. record_decisions sf.observed.now e.task_id q.task_traits decisions r files')
        (create digest sf.observed.now files e)

  -- `start`. What was written before an exception stays written.
  unfoldable pub start_task : StartFacts → StartRequest → Stores → Stores × Result TaskRecord
  unfolding planned_task record_decisions
  start_task sf q stores =
      let (files, result) = create_and_record sf q stores.current (planned_task sf q stores) in
      (record stores { current = files }, result)
