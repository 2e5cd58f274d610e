-- ===== src/Store/History.antt =====
-- Every operation on the store appends to the record that it loads, and freezes a terminal one.
use mathlib.Core.List.{append-nil}
use adaptive_harness.Prelude.{
  ℕ, task_store, suc, String, ◌≡◌, refl, sym, ap, true, false, List, [], ◌∷◌, ◌++◌, Option, none,
  some, arith, eq_iff, length, all-append, ok, guard-eq-ok, last_or-append,
}
use adaptive_harness.Json.{Fields}
use adaptive_harness.Envelope.{TaskEnvelope, valid_envelope}
use adaptive_harness.Envelope.Monotone.{Extends, Extends-refl}
use adaptive_harness.Store.Defs.{
  TaskEvent, TaskState, TaskRecord, File, unreadable, document, Files, is_terminal,
  current_envelope,
}
use adaptive_harness.Store.Checks.{valid_event, new_event, valid_record}
use adaptive_harness.Store.Operations.{
  safe_task_id, valid_payload, read, load, write, save, read_found,
}
use adaptive_harness.Store.Records.{valid_record-event, valid_record-envelope}

-- `r'` is a later version of the record `r`: the facts and revisions of `r` stand unchanged at the
-- front, and the boundaries of the task were only widened.
pub record Later (r r' : TaskRecord) : Type 0 where
  pub task_id : r'.task_id ≡ r.task_id
  pub first_envelope : r'.first_envelope ≡ r.first_envelope
  pub new_events : List TaskEvent
  pub events : r'.events ≡ r.events ++ new_events
  pub new_envelopes : List TaskEnvelope
  pub later_envelopes : r'.later_envelopes ≡ r.later_envelopes ++ new_envelopes
  pub bounds : Extends (current_envelope r) (current_envelope r')

abbrev pub with_event : TaskRecord → TaskState → TaskEvent → TaskRecord
with_event r state ev = record r { state = state; events = r.events ++ ev ∷ [] }

abbrev pub with_envelope : TaskRecord → TaskEnvelope → TaskEvent → TaskRecord
with_envelope r e ev = record r {
  later_envelopes = r.later_envelopes ++ e ∷ [];
  events = r.events ++ ev ∷ [];
}

pub event-Later :
    (r : TaskRecord) (state : TaskState) (ev : TaskEvent) → Later r (with_event r state ev)
event-Later r state ev = record {
  task_id = refl;
  first_envelope = refl;
  new_events = ev ∷ [];
  events = refl;
  new_envelopes = [];
  later_envelopes = sym (append-nil r.later_envelopes);
  bounds = Extends-refl (current_envelope r);
}

pub envelope-Later :
    (r : TaskRecord) (e : TaskEnvelope) (ev : TaskEvent)
    → Extends (current_envelope r) e
    → Later r (with_envelope r e ev)
envelope-Later r e ev x = record {
  task_id = refl;
  first_envelope = refl;
  new_events = ev ∷ [];
  events = refl;
  new_envelopes = e ∷ [];
  later_envelopes = refl;
  bounds = rw (last_or-append r.first_envelope r.later_envelopes e) x;
}

-- The event that `_new_event` makes.
pub new_event-inversion :
    (now : String) (n : ℕ) (type : String) (payload : Fields) {ev : TaskEvent}
    → new_event now n type payload ≡ ok ev
    → (valid_event ev ≡ true) × (ev.sequence ≡ n) × (ev.type ≡ type) × (ev.payload ≡ payload)
unfolding new_event
new_event-inversion now n type payload h = ground arith

pub valid_payload-event :
    (r : TaskRecord) (state : TaskState) (ev : TaskEvent)
    → valid_payload r ≡ true
    → valid_event ev ≡ true
    → ev.sequence ≡ suc (length r.events)
    → valid_payload (with_event r state ev) ≡ true
unfolding valid_payload
valid_payload-event r state ev h v e =
    ground (arith, valid_record-event r state ev, all-append valid_event r.events (ev ∷ []))

pub valid_payload-envelope :
    (r : TaskRecord) (e : TaskEnvelope) (ev : TaskEvent)
    → valid_payload r ≡ true
    → valid_envelope e ≡ true
    → Extends (current_envelope r) e
    → e.revision ≡ suc (current_envelope r).revision
    → valid_event ev ≡ true
    → ev.sequence ≡ suc (length r.events)
    → valid_payload (with_envelope r e ev) ≡ true
unfolding valid_payload
valid_payload-envelope r e ev h w x n v k = ground (
  arith,
  valid_record-envelope r e ev (ground arith) x n k,
  all-append valid_event r.events (ev ∷ []),
  all-append valid_envelope r.later_envelopes (e ∷ []),
)

module _ (digest : TaskRecord → String) where
  read-inversion :
      (id : String) (f : File) {r : TaskRecord}
      → read digest id f ≡ ok r
      → (f ≡ document r (digest r)) × (valid_payload r ≡ true) × (r.task_id ≡ id)
  unfolding read
  read-inversion id unreadable h = cc
  read-inversion id (document p d) h = ground (arith, eq_iff d (digest p), eq_iff p.task_id id)

  found-inversion :
      (id : String) (f : Option File) {r : TaskRecord}
      → read_found digest id f ≡ ok r
      → (f ≡ some (document r (digest r))) × (valid_payload r ≡ true) × (r.task_id ≡ id)
  found-inversion id none h = cc
  found-inversion id (some f) h = let (p, v, e) = read-inversion id f h in (ap some p, v, e)

  -- What a record that loads has passed.
  pub load-inversion :
      (files : Files) (id : String) {r : TaskRecord}
      → load digest files id ≡ ok r
      → (safe_task_id id ≡ true)
        × (files id ≡ some (document r (digest r)))
        × (valid_payload r ≡ true)
        × (r.task_id ≡ id)
  unfolding load
  load-inversion files id h =
      let (safe, found) =
        guard-eq-ok (safe_task_id id) task_store (read_found digest id (files id)) h in
      let (p, v, e) = found-inversion id (files id) found in (safe, p, v, e)

  pub save-inversion :
      (files : Files) (id : String) (r : TaskRecord) {r' : TaskRecord} {files' : Files}
      → save digest files id r ≡ ok (r', files')
      → (valid_record r ≡ true) × (r ≡ r') × (write digest files id r ≡ files')
  unfolding save
  save-inversion files id r h = ground arith

  -- An operation on the task `id` has read `r`, which was not terminal, and written `r'`.
  pub record Commit (files : Files) (id : String) (r r' : TaskRecord) (files' : Files)
      : Type 0 where
    pub loaded : load digest files id ≡ ok r
    pub active : is_terminal r.state ≡ false
    pub later : Later r r'
    pub valid : valid_payload r' ≡ true
    pub written : files' ≡ write digest files id r'
