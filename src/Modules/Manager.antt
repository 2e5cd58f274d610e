-- ===== src/Modules/Manager.antt =====
-- `ModuleManager` (modules/manager.py) and the registry it asks (modules/registry.py): each operation
-- reads the lock, changes its object, and plans the change of the file, which the transaction applies.
use adaptive_harness.Prelude.{
  ℕ, suc, String, Bool, false, not, ◌&&◌, List, [], ◌∷◌, ◌++◌, Option, none, some, leb, ◌==◌, ◌=ˢ◌,
  any, length, if◌then◌else◌, ℤ, pos, negsuc, Result, ok, err, value_error, initialization, guard,
  ◌>>=◌, ◌>>◌,
}
use adaptive_harness.Executor.{decimal}
use adaptive_harness.Init.{Bytes, Parts, Disk, PlannedChange, same_bytes}
use adaptive_harness.Modules.Defs.{
  ActivationPolicy, ActivationDecision, ModuleManifest, ModuleStatus, Source, LockedModule,
  Document, ModuleHost,
}
use adaptive_harness.Modules.Registry.{builtin_modules}
use adaptive_harness.Modules.Activation.{decide_within}
use adaptive_harness.Modules.Lock.{
  find, find_last, or_value_error, upsert, has_id, is_of, is_open, is_enabled, locked_of, new_trial,
  record_result, promote, rollback, disable,
}

abbrev pub lock_name : String
lock_name = ".harness/modules.lock.json"

abbrev pub lock_path : Parts
lock_path = ".harness" ∷ "modules.lock.json" ∷ []

-- `json` and the lock's schema: a file that is no lock of the schema is not read.
pub record LockFormat : Type 0 where
  pub read_lock : Bytes → Option Document
  pub write_lock : Document → Bytes

abbrev pub policy_or : ActivationPolicy → Option ActivationPolicy → ActivationPolicy
policy_or default none = default
policy_or default (some policy) = policy

module _ (host : ModuleHost) where
  abbrev pub is_compatible : ModuleManifest → Bool
  is_compatible m = m.runtime_major == host.runtime_major && m.protocol =ˢ "1.0"

  -- `ensure_compatible`
  abbrev pub ensure_compatible : ModuleManifest → Result (Unit {0})
  ensure_compatible m = guard (is_compatible m) value_error

  abbrev pub get_builtin : String → Result ModuleManifest
  get_builtin id = or_value_error (find (λ m. m.id =ˢ id) builtin_modules)

  -- `load_local`
  unfoldable pub load_local : String → Result ModuleManifest
  load_local location = do
    m ← or_value_error (host.read_manifest location)
    ensure_compatible m
    ok m

  abbrev pub or_initialization : Option String → Result String
  or_initialization none = err initialization
  or_initialization (some location) = ok location

  -- `_load_locked_local`
  unfoldable pub load_locked_local : LockedModule → Result ModuleManifest
  unfolding load_local
  load_locked_local item = do
    location ← or_initialization item.location
    m ← load_local location
    guard (host.sha256 m =ˢ item.sha256) initialization
    ok m

  -- `_resolve_manifest`
  unfoldable pub resolve_manifest :
      String → Option String → Result (ModuleManifest × Source × Option String)
  unfolding load_local
  resolve_manifest id none = do
    m ← get_builtin id
    ensure_compatible m
    ok (m, Source.builtin, none)
  resolve_manifest id (some path) = do
    location ← or_value_error (host.relative_to_root path)
    m ← load_local location
    guard (m.id =ˢ id) value_error
    ok (m, Source.local, some location)

  -- What `plan_enable` does to the lock.
  unfoldable pub enable :
      String → Option ActivationPolicy → Option String → Document → Result Document
  unfolding resolve_manifest upsert
  enable id policy local_manifest d = do
    (m, source, location) ← resolve_manifest id local_manifest
    let selected = policy_or m.activation_policy policy
    ok (record d { modules = upsert d.modules (locked_of host.sha256 m source selected location) })

  -- The manifest of a trial: of a module that is locked as local, the one at its location.
  abbrev pub trial_manifest :
      String → Option LockedModule → Result (ModuleManifest × Source × Option String)
  trial_manifest id none = resolve_manifest id none
  trial_manifest id (some item) = elim item.source [
    | Source.builtin ↦ resolve_manifest id none
    | Source.local ↦ do m ← load_locked_local item; ok (m, Source.local, item.location)
  ]

  -- What `plan_trial` does to the lock, the number of tasks checked.
  unfoldable pub start_trial : String → ℕ → Document → Result Document
  unfolding resolve_manifest load_locked_local upsert
  start_trial id matching_tasks d = do
    guard (not (any (λ t. is_of id t && is_open t.state) d.trials)) value_error
    (m, source, location) ← trial_manifest id (find (has_id id) d.modules)
    let locked = locked_of host.sha256 m source m.activation_policy location
    let number = decimal (suc (length d.trials))
    ok (record d {
      modules = upsert d.modules locked;
      trials = d.trials ++ new_trial id number matching_tasks m (find (has_id id) d.modules) ∷ [];
    })

  -- The status of a builtin module, given what is locked under its id.
  abbrev pub builtin_status : ModuleManifest → Option LockedModule → ModuleStatus
  builtin_status m none = record {
    manifest = m;
    source = Source.builtin;
    enabled = false;
    activation_policy = m.activation_policy;
  }
  builtin_status m (some item) = record {
    manifest = m;
    source = Source.builtin;
    enabled = is_enabled item;
    activation_policy = policy_or m.activation_policy item.activation_policy;
  }

  abbrev pub builtin_statuses : List ModuleManifest → List LockedModule → List ModuleStatus
  builtin_statuses [] items = []
  builtin_statuses (m ∷ ms) items =
      builtin_status m (find_last (has_id m.id) items) ∷ builtin_statuses ms items

  -- The second loop of `list`.
  unfoldable pub local_statuses : List LockedModule → Result (List ModuleStatus)
  unfolding load_locked_local
  local_statuses [] = ok []
  local_statuses (item ∷ items) = elim item.source [
    | Source.builtin ↦ local_statuses items
    | Source.local ↦ do
      m ← load_locked_local item
      statuses ← local_statuses items
      ok (record (builtin_status m (some item)) { source = Source.local } ∷ statuses)
  ]

  -- `list`
  unfoldable pub list_modules : Document → Result (List ModuleStatus)
  unfolding local_statuses
  list_modules d = do
    locals ← local_statuses d.modules
    ok (builtin_statuses builtin_modules d.modules ++ locals)

  module _ (format : LockFormat) (disk : Disk) where
    abbrev pub parsed : Bytes → Option Document → Result (Bytes × Document)
    parsed content none = err initialization
    parsed content (some d) = ok (content, d)

    abbrev pub read_document : Option Bytes → Result (Bytes × Document)
    read_document none = err initialization
    read_document (some content) = parsed content (format.read_lock content)

    -- `_load`
    unfoldable pub load_lock : Result (Bytes × Document)
    load_lock = read_document (disk lock_path)

    -- `_plan`: the changes of the plan
    unfoldable pub plan : Bytes → Document → List PlannedChange
    plan before d =
        if same_bytes before (format.write_lock d)
        then []
        else record { path = lock_name; before = some before; after = format.write_lock d } ∷ []

    -- Read the lock, change its object, and plan the change of the file.
    abbrev pub plan_with : (Document → Result Document) → Result (List PlannedChange)
    plan_with operation = do
      (before, d) ← load_lock
      changed ← operation d
      ok (plan before changed)

    unfoldable pub plan_enable :
        String → Option ActivationPolicy → Option String → Result (List PlannedChange)
    unfolding load_lock enable plan
    plan_enable id policy local_manifest = plan_with (enable id policy local_manifest)

    unfoldable pub plan_disable : String → Result (List PlannedChange)
    unfolding load_lock plan
    plan_disable id = plan_with (disable id)

    unfoldable pub plan_trial : String → ℤ → Result (List PlannedChange)
    unfolding load_lock start_trial plan
    plan_trial id (negsuc n) = err value_error
    plan_trial id (pos matching_tasks) = do
      guard (leb 1 matching_tasks) value_error
      plan_with (start_trial id matching_tasks)

    unfoldable pub plan_record_trial_result :
        String → String → String → Bool → ℤ → Result (List PlannedChange)
    unfolding load_lock record_result plan
    plan_record_trial_result id task_id evidence_ref beneficial overhead_ms = do
      guard (not (task_id =ˢ "") && not (evidence_ref =ˢ "")) value_error
      elim overhead_ms [
        | negsuc n ↦ err value_error
        | pos n ↦ plan_with (
            record_result id (record {
              task_id = task_id;
              evidence_ref = evidence_ref;
              beneficial = beneficial;
              overhead_ms = n;
            }))
      ]

    unfoldable pub plan_promote : String → Result (List PlannedChange)
    unfolding load_lock promote plan
    plan_promote id = plan_with (promote id)

    unfoldable pub plan_rollback : String → Result (List PlannedChange)
    unfolding load_lock rollback plan
    plan_rollback id = plan_with (rollback id)

    -- `activation_decisions`
    unfoldable pub activation_decisions :
        List String → List String → List String → ℤ → Result (List ActivationDecision)
    unfolding load_lock list_modules
    activation_decisions task_traits available_capabilities manually_requested (negsuc n) =
        err value_error
    activation_decisions task_traits available_capabilities manually_requested (pos budget) = do
      (before, d) ← load_lock
      statuses ← list_modules d
      decide_within task_traits available_capabilities manually_requested statuses (pos budget)
