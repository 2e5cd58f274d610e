-- ===== src/Init/Journal.antt =====
-- The reviewed changes, and the journal of an unfinished transaction.
use adaptive_harness.Prelude.{
  String, Bool, true, false, not, ◌&&◌, List, [], ◌∷◌, Option, none, some, ◌==◌, ◌=ˢ◌,
}
use adaptive_harness.Paths.{parse_path, is_absolute, has_parent_part}
use adaptive_harness.Envelope.{is_nil}
use adaptive_harness.Init.Io.{Bytes}

pub record PlannedChange : Type 0 where
  pub path : String
  pub before : Option Bytes
  pub after : Bytes

-- `_validate_relative_path` raises nothing.
unfoldable pub valid_target : String → Bool
valid_target value =
    not (value =ˢ "")
    && not (is_absolute (parse_path value))
    && not (has_parent_part (parse_path value))
    && not (is_nil (parse_path value).parts)

abbrev pub same_bytes : Bytes → Bytes → Bool
same_bytes [] [] = true
same_bytes (x ∷ xs) (y ∷ ys) = x == y && same_bytes xs ys
same_bytes _ _ = false

abbrev pub same_content : Option Bytes → Option Bytes → Bool
same_content none none = true
same_content (some x) (some y) = same_bytes x y
same_content _ _ = false

-- `PlannedChange.__post_init__` raises nothing.
unfoldable pub valid_change : PlannedChange → Bool
unfolding valid_target
valid_change c = valid_target c.path && not (same_content c.before (some c.after))

-- The value that a journal stores under `before`.
pub data Backup : Type 0 where
  absent : Backup
  text : String → Backup
  other : Backup

-- An item of the journal's changes: anything that is no object with a text as its path is `invalid`.
pub data JournalItem : Type 0 where
  invalid : JournalItem
  item : String → Backup → String → JournalItem

-- The statuses that are written; no operation reads them.
pub data JournalStatus : Type 0 where
  preparing staged : JournalStatus

-- The journal's object. Where a value is missing or of another type, the field is `none`.
pub record Journal : Type 0 where
  pub transaction_id : Option String
  pub harness_dir_existed : Option Bool
  pub status : JournalStatus
  pub changes : Option (List JournalItem)

-- `json` and `base64` of the standard library, SHA-256, and what they are relied on for: the journal
-- and the backups that are written are read again.
pub record Format : Type 0 where
  pub write_journal : Journal → Bytes
  pub read_journal : Bytes → Option Journal
  pub encode : Bytes → String
  pub decode : String → Option Bytes
  pub sha256 : Bytes → String
