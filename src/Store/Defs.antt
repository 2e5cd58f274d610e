-- ===== src/Store/Defs.antt =====
-- The records of core/store.py, and the files that hold them.
use adaptive_harness.Prelude.{ℕ, String, Bool, true, false, List, ◌∷◌, Option, last_or}
use adaptive_harness.Json.{Fields}
use adaptive_harness.Envelope.{TaskEnvelope}

pub record TaskEvent : Type 0 where
  pub sequence : ℕ
  pub type : String
  pub occurred_at : String
  pub payload : Fields  -- `data`

-- `TASK_STATES`; any other text is no state of a record.
pub data TaskState : Type 0 where
  draft active completed accepted_with_risk blocked failed abandoned : TaskState

-- `state in TERMINAL_STATES`
abbrev pub is_terminal : TaskState → Bool
is_terminal draft = false
is_terminal active = false
is_terminal _ = true

abbrev pub state_name : TaskState → String
state_name draft = "draft"
state_name active = "active"
state_name completed = "completed"
state_name accepted_with_risk = "accepted_with_risk"
state_name blocked = "blocked"
state_name failed = "failed"
state_name abandoned = "abandoned"

-- The tuple `envelope_revisions`, which the constructor requires not to be empty, is the first
-- envelope and the later ones.
pub record TaskRecord : Type 0 where
  pub schema_version : String
  pub task_id : String
  pub state : TaskState
  pub first_envelope : TaskEnvelope
  pub later_envelopes : List TaskEnvelope
  pub events : List TaskEvent

abbrev pub envelope_revisions : TaskRecord → List TaskEnvelope
envelope_revisions r = r.first_envelope ∷ r.later_envelopes

abbrev pub current_envelope : TaskRecord → TaskEnvelope
current_envelope r = last_or r.first_envelope r.later_envelopes

-- What `record.json` holds: a payload with the digest stored beside it, or text that is no JSON
-- object with integrity metadata and the fields of a task record. The payload is read and not yet
-- checked.
pub data File : Type 0 where
  unreadable : File
  document : TaskRecord → String → File

-- The tasks directory, by task id.
abbrev pub Files : Type 0
Files = String → Option File
