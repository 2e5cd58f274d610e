-- ===== src/Modules/Lock.antt =====
-- The operations on the module lock's object (modules/manager.py). An operation that raises leaves the
-- lock as it was, since the object is dropped.
use adaptive_harness.Prelude.{
  ℕ, ◌+◌, ◌-◌, ◌*◌, String, Bool, true, false, not, ◌&&◌, List, [], ◌∷◌, ◌++◌, Option, none, some,
  ltb, ◌==◌, ◌=ˢ◌, any, select, count_if, length, if◌then◌else◌, Result, ok, err, value_error,
  guard, ◌>>=◌, ◌>>◌,
}
use Prim.Native.String.{◌++◌ as ◌<>◌}
use adaptive_harness.Modules.Defs.{
  ActivationPolicy, ModuleManifest, Source, LockedModule, TrialState, TrialResult, Trial, Document,
}
use adaptive_harness.Modules.Activation.{text_before}

-- The first element that passes, and the last.
abbrev pub find {ℓ} : {A : Type ℓ} → (A → Bool) → List A → Option A
find p [] = none
find p (x ∷ xs) = if p x then some x else find p xs

abbrev pub find_last {ℓ} : {A : Type ℓ} → (A → Bool) → List A → Option A
find_last p [] = none
find_last p (x ∷ xs) = if any p xs then find_last p xs else (if p x then some x else none)

-- Assignments to the first, and to the last, element that passes.
abbrev pub update_first {ℓ} : {A : Type ℓ} → (A → Bool) → (A → A) → List A → List A
update_first p f [] = []
update_first p f (x ∷ xs) = if p x then f x ∷ xs else x ∷ update_first p f xs

abbrev pub update_last {ℓ} : {A : Type ℓ} → (A → Bool) → (A → A) → List A → List A
update_last p f [] = []
update_last p f (x ∷ xs) =
    if any p xs then x ∷ update_last p f xs else (if p x then f x else x) ∷ xs

abbrev pub or_value_error {ℓ} : {A : Type ℓ} → Option A → Result A
or_value_error none = err value_error
or_value_error (some a) = ok a

-- `items.sort(key=lambda item: item["id"])`, which is stable
abbrev pub insert_module : LockedModule → List LockedModule → List LockedModule
insert_module x [] = x ∷ []
insert_module x (y ∷ ys) = if text_before y.id x.id then y ∷ insert_module x ys else x ∷ y ∷ ys

unfoldable pub sort_modules : List LockedModule → List LockedModule
sort_modules [] = []
sort_modules (x ∷ xs) = insert_module x (sort_modules xs)

abbrev pub has_id : String → LockedModule → Bool
has_id id item = item.id =ˢ id

-- `[item for item in items if item["id"] != id]`
abbrev pub without : String → List LockedModule → List LockedModule
without id items = select (λ item. not (has_id id item)) items

-- `_upsert`
unfoldable pub upsert : List LockedModule → LockedModule → List LockedModule
unfolding sort_modules
upsert items replacement = sort_modules (without replacement.id items ++ replacement ∷ [])

abbrev pub is_of : String → Trial → Bool
is_of id t = t.module_id =ˢ id

abbrev pub is_trial : TrialState → Bool
is_trial TrialState.trial = true
is_trial _ = false

abbrev pub is_open : TrialState → Bool
is_open TrialState.rejected = false
is_open TrialState.rolled_back = false
is_open _ = true

abbrev pub is_active_of : String → Trial → Bool
is_active_of id t = is_of id t && is_trial t.state

-- `_active_trial` and `_latest_trial`
abbrev pub active_trial : Document → String → Result Trial
active_trial d id = or_value_error (find_last (is_active_of id) d.trials)

abbrev pub latest_trial : Document → String → Result Trial
latest_trial d id = or_value_error (find_last (is_of id) d.trials)

-- `_locked_item`
abbrev pub locked_item : Document → String → Result LockedModule
locked_item d id = or_value_error (find (has_id id) d.modules)

abbrev pub set_enabled : Bool → LockedModule → LockedModule
set_enabled b item = record item { enabled = some b }

abbrev pub is_enabled : LockedModule → Bool
is_enabled item = elim item.enabled [ none ↦ false | some b ↦ b ]

abbrev pub locked_of :
    (ModuleManifest → String)
    → ModuleManifest
    → Source
    → ActivationPolicy
    → Option String
    → LockedModule
locked_of sha256 m source policy location = record {
  id = m.id;
  version = m.version;
  source = source;
  sha256 = sha256 m;
  enabled = some true;
  activation_policy = some policy;
  location = location;
}

abbrev pub previously_enabled : Option LockedModule → Bool
previously_enabled none = false
previously_enabled (some item) = is_enabled item

abbrev pub previous_policy : Option LockedModule → ActivationPolicy
previous_policy none = ActivationPolicy.disabled
previous_policy (some item) = elim item.activation_policy [
  | none ↦ ActivationPolicy.disabled
  | some p ↦ p
]

-- The trial that `plan_trial` appends.
abbrev pub new_trial : String → String → ℕ → ModuleManifest → Option LockedModule → Trial
new_trial id number matching_tasks m previous = record {
  id = "trial-" <> id <> "-" <> number;
  module_id = id;
  state = TrialState.trial;
  remaining_tasks = matching_tasks;
  matching_tasks = matching_tasks;
  results = [];
  previous = previous;
  success_metrics = m.success_metrics;
  cost_budget = record {
    context_tokens = m.cost.context_tokens * matching_tasks;
    runtime_ms = m.cost.runtime_ms matching_tasks;
  };
  control = record {
    enabled = previously_enabled previous;
    activation_policy = previous_policy previous;
  };
  stop_conditions = record { maximum_tasks = matching_tasks; minimum_beneficial_rate = (1, 2) };
  rollback = m.rollback;
  history = TrialState.proposed ∷ TrialState.approved ∷ TrialState.trial ∷ [];
}

-- `sum(item["overhead_ms"] for item in results)`
abbrev pub total_overhead : List TrialResult → ℕ
total_overhead [] = 0
total_overhead (r ∷ rs) = r.overhead_ms + total_overhead rs

abbrev pub has_result : String → TrialResult → Bool
has_result task_id r = r.task_id =ˢ task_id

-- The trial moves to another state.
abbrev pub enter : TrialState → Trial → Trial
enter state t = record t { state = state; history = t.history ++ state ∷ [] }

abbrev pub reject_over_budget : Trial → Trial
reject_over_budget t =
    if ltb t.cost_budget.runtime_ms (total_overhead t.results)
    then enter TrialState.rejected t
    else t

abbrev pub with_result : TrialResult → Trial → Trial
with_result r t =
    reject_over_budget
      (record t { results = t.results ++ r ∷ []; remaining_tasks = t.remaining_tasks - 1 })

-- What `plan_record_trial_result` does to the lock, its arguments checked.
unfoldable pub record_result : String → TrialResult → Document → Result Document
record_result id r d = do
  t ← active_trial d id
  guard (not (t.remaining_tasks == 0)) value_error
  guard (not (any (has_result r.task_id) t.results)) value_error
  ok (record d { trials = update_last (is_active_of id) (with_result r) d.trials })

-- More than half of the results are beneficial.
abbrev pub shows_benefit : List TrialResult → Bool
shows_benefit results = ltb (length results) (2 * count_if (λ r. r.beneficial) results)

-- What `plan_promote` does to the lock.
unfoldable pub promote : String → Document → Result Document
promote id d = do
  t ← active_trial d id
  guard (t.remaining_tasks == 0) value_error
  guard (shows_benefit t.results) value_error
  item ← locked_item d id
  ok (record d {
    modules = update_first (has_id id) (set_enabled true) d.modules;
    trials = update_last (is_active_of id) (enter TrialState.promoted) d.trials;
  })

abbrev pub put_previous : Option LockedModule → List LockedModule → List LockedModule
put_previous none items = items
put_previous (some item) items = items ++ item ∷ []

-- What `plan_rollback` does to the lock.
unfoldable pub rollback : String → Document → Result Document
rollback id d = do
  t ← latest_trial d id
  guard (is_open t.state) value_error
  ok (record d {
    modules = put_previous t.previous (without id d.modules);
    trials = update_last (is_of id) (enter TrialState.rolled_back) d.trials;
  })

-- What `plan_disable` does to the lock.
unfoldable pub disable : String → Document → Result Document
disable id d = do
  item ← locked_item d id
  ok (record d { modules = update_first (has_id id) (set_enabled false) d.modules })
