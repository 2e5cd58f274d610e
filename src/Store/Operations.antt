-- ===== src/Store/Operations.antt =====
-- The operations of `TaskStore`. A write replaces the record's file at once, and is the last step of
-- each operation: one that raises leaves the files as they were. Failures of the file system are
-- not modelled. `now` is the clock's text; `digest` stands for the SHA-256 of the payload's
-- canonical JSON.
use adaptive_harness.Prelude.{
  ℕ, suc, String, Bool, true, false, not, ◌&&◌, ◌||◌, [], ◌∷◌, ◌++◌, Option, none, some, leb, ◌==◌,
  ◌=ˢ◌, all, length, codes, is_blank, if◌then◌else◌, pos, Result, ok, err, task_store,
  task_already_exists, task_not_found, record_corrupted, invalid_task_state, guard, ◌>>=◌, ◌>>◌,
}
use Prim.Native.String.{◌++◌ as ◌<>◌}
use adaptive_harness.Json.{Fields, end, field, num, str}
use adaptive_harness.Envelope.{TaskEnvelope, Changes, valid_envelope, make_envelope}
use adaptive_harness.Envelope
use adaptive_harness.Store.Defs.{
  TaskState, draft, completed, accepted_with_risk, abandoned, is_terminal, state_name, TaskRecord,
  envelope_revisions, current_envelope, File, unreadable, document, Files,
}
use adaptive_harness.Store.Checks.{
  record_schema_version, valid_event, new_event, valid_record, make_record,
}

-- A character of `_SAFE_TASK_ID`.
abbrev is_safe : ℕ → Bool
is_safe c =
    leb b'a' c && leb c b'z'
    || leb b'A' c && leb c b'Z'
    || leb b'0' c && leb c b'9'
    || c == b'.'
    || c == b'_'
    || c == b'-'

-- `record_path` raises nothing.
unfoldable pub safe_task_id : String → Bool
safe_task_id id = not (id =ˢ "") && all is_safe (codes id)

-- `path.exists()`
abbrev pub exists {ℓ} : {A : Type ℓ} → Option A → Bool
exists none = false
exists (some f) = true

-- `TaskRecord.from_payload` raises nothing: each envelope, each event and the record pass their
-- constructors.
unfoldable pub valid_payload : TaskRecord → Bool
valid_payload r =
    all valid_envelope (envelope_revisions r) && all valid_event r.events && valid_record r

-- `outcome in {"completed", "accepted_with_risk"}`
abbrev pub is_outcome : TaskState → Bool
is_outcome completed = true
is_outcome accepted_with_risk = true
is_outcome _ = false

module _ (digest : TaskRecord → String) where
  -- `load`, once the file is found
  unfoldable pub read : String → File → Result TaskRecord
  read id unreadable = err record_corrupted
  read id (document payload integrity) = do
    guard (integrity =ˢ digest payload) record_corrupted
    guard (valid_payload payload) record_corrupted
    guard (payload.task_id =ˢ id) record_corrupted
    ok payload

  abbrev pub read_found : String → Option File → Result TaskRecord
  read_found id none = err task_not_found
  read_found id (some f) = read id f

  unfoldable pub load : Files → String → Result TaskRecord
  load files id = do guard (safe_task_id id) task_store; read_found id (files id)

  -- `_write`
  unfoldable pub write : Files → String → TaskRecord → Files
  write files id r k = if id =ˢ k then some (document r (digest r)) else files k

  -- Check the new record, write it, and return it.
  unfoldable pub save : Files → String → TaskRecord → Result (TaskRecord × Files)
  save files id r = do updated ← make_record r; ok (updated, write files id updated)

  -- `_require_active`
  abbrev pub require_active : TaskRecord → Result (Unit {0})
  require_active r = guard (not (is_terminal r.state)) invalid_task_state

  unfoldable pub create : String → Files → TaskEnvelope → Result (TaskRecord × Files)
  create now files envelope = do
    guard (safe_task_id envelope.task_id) task_store
    guard (not (exists (files envelope.task_id))) task_already_exists
    created ← new_event now 1 "task.created" end
    save files envelope.task_id (record {
      schema_version = record_schema_version;
      task_id = envelope.task_id;
      state = draft;
      first_envelope = envelope;
      later_envelopes = [];
      events = created ∷ [];
    })

  unfoldable pub amend : String → Files → String → Changes → Result (TaskRecord × Files)
  amend now files id changes = do
    r ← load files id
    require_active r
    envelope ← Envelope.amend (current_envelope r) changes
    amended ←
        new_event now (suc (length r.events)) "task.amended"
          (field "revision" (num (pos envelope.revision)) end)
    save files id (record r {
      later_envelopes = r.later_envelopes ++ envelope ∷ [];
      events = r.events ++ amended ∷ [];
    })

  unfoldable pub cancel : String → Files → String → String → Result (TaskRecord × Files)
  cancel now files id reason = do
    r ← load files id
    require_active r
    guard (not (is_blank reason)) task_store
    cancelled ←
        new_event now (suc (length r.events)) "task.cancelled" (field "reason" (str reason) end)
    save files id (record r { state = abandoned; events = r.events ++ cancelled ∷ [] })

  unfoldable pub append_event :
      String → Files → String → String → Fields → Result (TaskRecord × Files)
  append_event now files id event_type payload = do
    r ← load files id
    require_active r
    guard (not (event_type =ˢ "")) task_store
    appended ← new_event now (suc (length r.events)) event_type payload
    save files id (record r { events = r.events ++ appended ∷ [] })

  unfoldable pub finalize :
      String → Files → String → TaskState → Fields → Result (TaskRecord × Files)
  finalize now files id outcome verification = do
    guard (is_outcome outcome) invalid_task_state
    r ← load files id
    require_active r
    finalized ← new_event now (suc (length r.events)) ("task." <> state_name outcome) verification
    save files id (record r { state = outcome; events = r.events ++ finalized ∷ [] })
