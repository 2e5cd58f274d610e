-- ===== src/Init/Transaction.antt =====
-- `RepositoryTransaction`. Directories, temporary files and the flushing of files are not part of the
-- state: making a directory and flushing are operations that may fail.
use adaptive_harness.Prelude.{
  ℕ, String, Bool, true, false, not, List, [], ◌∷◌, ◌++◌, map, Option, none, some, contains,
  if◌then◌else◌, initialization, plan_drift, value_error, os_error,
}
use adaptive_harness.Paths.{parse_path}
use adaptive_harness.Store.{exists}
use adaptive_harness.Init.Io.{
  Bytes, Parts, put, remove, remove_tree, Fate, Io, pure, raise, ◌>>=◌, ◌>>◌, require, try_except,
  effect, attempt, read_file,
}
use adaptive_harness.Init.Journal.{
  JournalStatus, PlannedChange, valid_target, same_content, Backup, JournalItem, invalid, item,
  Journal, Format,
}

abbrev pub journal_path : Parts
journal_path = ".harness" ∷ ".transaction.json" ∷ []

abbrev pub staging_root : Parts
staging_root = ".harness" ∷ ".staging" ∷ []

abbrev pub staging_dir : String → Parts
staging_dir transaction_id = staging_root ++ transaction_id ∷ []

abbrev pub parts_of : String → Parts
parts_of path = (parse_path path).parts

abbrev pub staged_path : String → String → Parts
staged_path transaction_id path = staging_dir transaction_id ++ parts_of path

abbrev pub backup_of : Format → Option Bytes → Backup
backup_of format none = Backup.absent
backup_of format (some content) = Backup.text (format.encode content)

-- `_journal_change`
abbrev pub journal_change : Format → PlannedChange → JournalItem
journal_change format c = item c.path (backup_of format c.before) (format.sha256 c.after)

abbrev pub journal_of : Format → String → Bool → List PlannedChange → JournalStatus → Journal
journal_of format transaction_id harness_dir_existed changes status = record {
  transaction_id = some transaction_id;
  harness_dir_existed = some harness_dir_existed;
  status = status;
  changes = some (map (journal_change format) changes);
}

-- A component before the last is a symbolic link; `above` are the components before these.
abbrev pub through_symlink : (Parts → Bool) → Parts → Parts → Bool
through_symlink is_symlink above [] = false
through_symlink is_symlink above (last ∷ []) = false
through_symlink is_symlink above (component ∷ next ∷ rest) =
    if is_symlink (above ++ component ∷ [])
    then true
    else through_symlink is_symlink (above ++ component ∷ []) (next ∷ rest)

-- `fate` decides over each operation; `is_symlink` tells which paths are symbolic links.
module _ (format : Format) (is_symlink : Parts → Bool) (fate : ℕ → Fate) where
  -- `_target`
  unfoldable pub target : String → Io Parts
  target path = do
    require (valid_target path) value_error
    require (not (through_symlink is_symlink [] (parts_of path))) initialization
    pure (parts_of path)

  -- Making the directories above a file.
  abbrev pub make_directories : Io (Unit {0})
  make_directories = effect fate (λ disk. disk)

  abbrev pub sync_directory : Io (Unit {0})
  sync_directory = effect fate (λ disk. disk)

  -- `_atomic_write`
  unfoldable pub atomic_write : Parts → Bytes → Io (Unit {0})
  atomic_write path content = do make_directories; effect fate (put path content); sync_directory

  -- `_write_journal`
  unfoldable pub write_journal : Journal → Io (Unit {0})
  unfolding atomic_write
  write_journal journal = atomic_write journal_path (format.write_journal journal)

  abbrev pub remove_staging : Option String → Io (Unit {0})
  remove_staging none = pure tt
  remove_staging (some transaction_id) = attempt fate (remove_tree (staging_dir transaction_id))

  -- `_cleanup`
  unfoldable pub cleanup : Journal → Io (Unit {0})
  cleanup journal = do remove_staging journal.transaction_id; effect fate (remove journal_path)

  abbrev pub restore_content : Parts → Option Bytes → Io (Unit {0})
  restore_content path none = raise initialization
  restore_content path (some content) = do make_directories; atomic_write path content

  abbrev pub put_back : Parts → Backup → Io (Unit {0})
  put_back path Backup.absent = effect fate (remove path)
  put_back path (Backup.text before) = restore_content path (format.decode before)
  put_back path Backup.other = raise initialization

  -- The loop of `_restore`.
  unfoldable pub restore_items : List JournalItem → Io (Unit {0})
  unfolding target
  restore_items [] = pure tt
  restore_items (invalid ∷ items) = raise initialization
  restore_items (item path before sha256 ∷ items) = do
    t ← target path
    put_back t before
    restore_items items

  abbrev pub restore_changes : Option (List JournalItem) → Io (Unit {0})
  restore_changes none = raise initialization
  restore_changes (some items) = restore_items items

  -- `_restore`
  unfoldable pub restore : Journal → Io (Unit {0})
  unfolding restore_items cleanup
  restore journal = do restore_changes journal.changes; cleanup journal

  -- `_validate_reviewed_state`; `seen` are the paths of the changes before.
  unfoldable pub validate_from : List String → List PlannedChange → Io (Unit {0})
  unfolding target
  validate_from seen [] = pure tt
  validate_from seen (c ∷ changes) = do
    require (not (contains seen c.path)) initialization
    t ← target c.path
    require (not (is_symlink t)) initialization
    current ← read_file fate t
    require (same_content current c.before) plan_drift
    validate_from (c.path ∷ seen) changes

  -- The content of each change is written below the staging directory.
  unfoldable pub stage : String → List PlannedChange → Io (Unit {0})
  stage transaction_id [] = pure tt
  stage transaction_id (c ∷ changes) = do
    make_directories
    effect fate (put (staged_path transaction_id c.path) c.after)
    stage transaction_id changes

  abbrev pub move_content : Parts → Parts → Option Bytes → Io (Unit {0})
  move_content source t none = raise os_error
  move_content source t (some content) = effect fate (λ disk. put t content (remove source disk))

  -- `os.replace`, which raises when the source is missing
  unfoldable pub replace_file : Parts → Parts → Io (Unit {0})
  replace_file source t s = move_content source t (s.disk source) s

  unfoldable pub commit : String → List PlannedChange → Io (Unit {0})
  unfolding target replace_file
  commit transaction_id [] = pure tt
  commit transaction_id (c ∷ changes) = do
    t ← target c.path
    make_directories
    replace_file (staged_path transaction_id c.path) t
    sync_directory
    commit transaction_id changes

  -- The body of the `try` in `apply`.
  unfoldable pub stage_and_commit : String → Bool → List PlannedChange → Io (Unit {0})
  unfolding stage commit write_journal cleanup
  stage_and_commit transaction_id harness_dir_existed changes = do
    stage transaction_id changes
    write_journal
        (journal_of format transaction_id harness_dir_existed changes JournalStatus.staged)
    commit transaction_id changes
    cleanup (journal_of format transaction_id harness_dir_existed changes JournalStatus.staged)

  -- `pending`
  unfoldable pub pending : Io Bool
  pending s = pure (exists (s.disk journal_path)) s

  -- `apply`; the transaction's id is new, and `harness_dir_existed` what the host tells. The journal
  -- that `_restore` is given has the status that was reached, which it does not read.
  unfoldable pub apply : String → Bool → List PlannedChange → Io (Unit {0})
  unfolding pending validate_from write_journal stage_and_commit restore
  apply transaction_id harness_dir_existed [] = pure tt
  apply transaction_id harness_dir_existed (c ∷ changes) = do
    unfinished ← pending
    require (not unfinished) initialization
    validate_from [] (c ∷ changes)
    make_directories
    write_journal
        (journal_of format transaction_id harness_dir_existed (c ∷ changes) JournalStatus.preparing)
    try_except (stage_and_commit transaction_id harness_dir_existed (c ∷ changes)) (λ e. do
      restore (
          journal_of format transaction_id harness_dir_existed (c ∷ changes)
            JournalStatus.preparing)
      raise initialization)

  abbrev pub restore_read : Option Journal → Io Bool
  restore_read none = raise initialization
  restore_read (some journal) = do restore journal; pure true

  abbrev pub read_back : Option Bytes → Option Journal
  read_back none = none
  read_back (some content) = format.read_journal content

  abbrev pub recover_pending : Bool → Io Bool
  recover_pending false = pure false
  recover_pending true = do
    content ← try_except (read_file fate journal_path) (λ e. raise initialization)
    restore_read (read_back content)

  -- `recover`
  unfoldable pub recover : Io Bool
  unfolding pending restore
  recover = do unfinished ← pending; recover_pending unfinished
