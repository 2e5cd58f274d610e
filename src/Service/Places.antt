-- ===== src/Service/Places.antt =====
-- Where a task's record stands: the store of the project's data, or the one from before it moved.
use adaptive_harness.Prelude.{
  String, Bool, true, false, not, ◌&&◌, Option, none, some, if◌then◌else◌, Result, ok, value_error,
  task_store, guard, ◌>>=◌, ◌>>◌,
}
use adaptive_harness.Paths.{same_path}
use adaptive_harness.Store.{TaskRecord, Files, current_envelope, safe_task_id, exists, load, cancel}
use adaptive_harness.Gateway.{WorkspaceSnapshot}

pub data Place : Type 0 where
  in_current in_legacy : Place

-- The files of `self.store`, and of `self.legacy_store` where there is one.
pub record Stores : Type 0 where
  pub current : Files
  pub legacy : Option Files

abbrev pub no_files : Files
no_files id = none

abbrev pub legacy_files : Stores → Files
legacy_files stores = elim stores.legacy [ none ↦ no_files | some files ↦ files ]

abbrev pub files_at : Place → Stores → Files
files_at Place.in_current stores = stores.current
files_at Place.in_legacy stores = legacy_files stores

abbrev pub with_files : Place → Files → Stores → Stores
with_files Place.in_current files stores = record stores { current = files }
with_files Place.in_legacy files stores = record stores { legacy = some files }

-- `record_path(task_id).exists()`
abbrev pub record_exists : Files → String → Result Bool
record_exists files id = do guard (safe_task_id id) task_store; ok (exists (files id))

module _ (digest : TaskRecord → String) (snapshot : WorkspaceSnapshot) where
  abbrev pub in_this_worktree : Files → String → Bool → Result Bool
  in_this_worktree files id false = ok false
  in_this_worktree files id true = do
    r ← load digest files id
    ok (same_path (current_envelope r).worktree_path snapshot.worktree_path)

  abbrev pub legacy_matches_in : Option Files → String → Result Bool
  legacy_matches_in none id = ok false
  legacy_matches_in (some files) id = do
    found ← record_exists files id
    in_this_worktree files id found

  -- `_legacy_record_matches_worktree`
  unfoldable pub legacy_matches : Stores → String → Result Bool
  legacy_matches stores id = legacy_matches_in stores.legacy id

  -- `_store_for`
  unfoldable pub store_for : Stores → String → Result Place
  unfolding legacy_matches
  store_for stores id = do
    current_exists ← record_exists stores.current id
    matches ← legacy_matches stores id
    guard (not (current_exists && matches)) value_error
    ok (if matches then Place.in_legacy else Place.in_current)

  -- An operation on the store that holds the task's record.
  abbrev pub at_place :
      {A : Type 0} → (Files → Result (A × Files)) → Stores → Place → Result (A × Stores)
  at_place operation stores place = do
    (a, files) ← operation (files_at place stores)
    ok (a, with_files place files stores)

  -- `show` and `cancel`
  unfoldable pub show_task : Stores → String → Result TaskRecord
  unfolding store_for
  show_task stores id = do place ← store_for stores id; load digest (files_at place stores) id

  unfoldable pub cancel_task : String → Stores → String → String → Result (TaskRecord × Stores)
  unfolding store_for
  cancel_task now stores id reason = do
    place ← store_for stores id
    at_place (λ files. cancel digest now files id reason) stores place
