-- ===== src/Store/Commits.antt =====
-- What each operation of `TaskStore` does when it returns, and that a record it wrote loads again.
use adaptive_harness.Prelude.{
  suc, String, ◌≡◌, sym, ap, ◌∙◌, true, false, not, arith, ◌=ˢ◌, eq_iff, length, is_blank, ok,
  >>=-eq-ok, guard-eq-ok, task_store, invalid_task_state, pos,
}
use mathlib.Core.Path.{subst}
use Prim.Native.String.{◌++◌ as ◌<>◌}
use adaptive_harness.Json.{Fields, end, field, str, num}
use adaptive_harness.Envelope.{TaskEnvelope, Changes, valid_envelope}
use adaptive_harness.Envelope
use adaptive_harness.Envelope.Monotone.{amend-Extends}
use adaptive_harness.Store.Defs.{
  TaskEvent, TaskState, abandoned, TaskRecord, Files, is_terminal, current_envelope, state_name,
}
use adaptive_harness.Store.Checks.{valid_event, new_event}
use adaptive_harness.Store.Operations.{
  safe_task_id, valid_payload, read, load, write, save, amend, cancel, append_event, finalize,
  is_outcome,
}
use adaptive_harness.Store.History.{
  Later, with_event, with_envelope, event-Later, envelope-Later, new_event-inversion,
  valid_payload-event, valid_payload-envelope, load-inversion, save-inversion, Commit,
}

-- `ev` is the next event of the record, of this type and with this payload.
pub record Next (r : TaskRecord) (type : String) (payload : Fields) (ev : TaskEvent) : Type 0 where
  pub sequence : ev.sequence ≡ suc (length r.events)
  pub type_ : ev.type ≡ type
  pub payload_ : ev.payload ≡ payload
  pub valid : valid_event ev ≡ true

pub new_event-Next :
    (now : String) (r : TaskRecord) (type : String) (payload : Fields) {ev : TaskEvent}
    → new_event now (suc (length r.events)) type payload ≡ ok ev
    → Next r type payload ev
new_event-Next now r type payload h =
    let (v, s, t, p) = new_event-inversion now (suc (length r.events)) type payload h in
    record { sequence = s; type_ = t; payload_ = p; valid = v }

module _ (digest : TaskRecord → String) where
  -- A valid record with a safe id loads from where it was written.
  pub load-write :
      (files : Files) (id : String) (r : TaskRecord)
      → safe_task_id id ≡ true
      → valid_payload r ≡ true
      → r.task_id ≡ id
      → load digest (write digest files id r) id ≡ ok r
  unfolding load write read
  load-write files id r s v e =
      ground (arith, eq_iff id id, eq_iff (digest r) (digest r), eq_iff r.task_id id)

  pub load-write_ne :
      (files : Files) (id k : String) (r : TaskRecord)
      → (id =ˢ k) ≡ false
      → load digest (write digest files id r) k ≡ load digest files k
  unfolding load write
  load-write_ne files id k r ne = rw ne

  module _ (files : Files) (id : String) (r : TaskRecord) (loaded : load digest files id ≡ ok r)
      (active : is_terminal r.state ≡ false) where
    event-Commit :
        (state : TaskState) (type : String) (payload : Fields) (ev : TaskEvent) {r' : TaskRecord}
        {files' : Files}
        → Next r type payload ev
        → save digest files id (with_event r state ev) ≡ ok (r', files')
        → Commit digest files id r r' files' × (r' ≡ with_event r state ev)
    event-Commit state type payload ev n h =
        let (v, e, w) = save-inversion digest files id (with_event r state ev) h in
        (
          record {
            loaded = loaded;
            active = active;
            later = subst (Later r) e (event-Later r state ev);
            valid =
                subst (λ x. valid_payload x ≡ true) e
                  (valid_payload-event r state ev (load-inversion digest files id loaded).2 n.valid
                    n.sequence);
            written = sym w ∙ ap (write digest files id) e;
          },
          sym e,
        )

  -- `append_event` has read a record that was not terminal and added one event of the given type
  -- and data, numbered after the others.
  pub append_event-Commit :
      (now : String) (files : Files) (id event_type : String) (payload : Fields) {r' : TaskRecord}
      {files' : Files}
      → append_event digest now files id event_type payload ≡ ok (r', files')
      → (r : TaskRecord) × (ev : TaskEvent) × Next r event_type payload ev
        × Commit digest files id r r' files'
        × (r' ≡ with_event r r.state ev)
  unfolding append_event
  append_event-Commit now files id event_type payload h =
      let (r, l, h₁) = >>=-eq-ok (load digest files id) _ h in
      let (a, h₂) = guard-eq-ok (not (is_terminal r.state)) invalid_task_state _ h₁ in
      let (t, h₃) = guard-eq-ok (not (event_type =ˢ "")) task_store _ h₂ in
      let (ev, e, h₄) = >>=-eq-ok (new_event now (suc (length r.events)) event_type payload) _ h₃ in
      let n = new_event-Next now r event_type payload e in
      let (c, q) = event-Commit files id r l (ground arith) r.state event_type payload ev n h₄ in
      (r, ev, n, c, q)

  -- `cancel` abandons a record that was not terminal, for a reason that is not blank.
  pub cancel-Commit :
      (now : String) (files : Files) (id reason : String) {r' : TaskRecord} {files' : Files}
      → cancel digest now files id reason ≡ ok (r', files')
      → (r : TaskRecord) × (ev : TaskEvent) × Next r "task.cancelled"
          (field "reason" (str reason) end)
          ev
        × (is_blank reason ≡ false)
        × Commit digest files id r r' files'
        × (r' ≡ with_event r abandoned ev)
  unfolding cancel
  cancel-Commit now files id reason h =
      let payload : Fields = field "reason" (str reason) end in
      let (r, l, h₁) = >>=-eq-ok (load digest files id) _ h in
      let (a, h₂) = guard-eq-ok (not (is_terminal r.state)) invalid_task_state _ h₁ in
      let (t, h₃) = guard-eq-ok (not (is_blank reason)) task_store _ h₂ in
      let (ev, e, h₄) =
        >>=-eq-ok (new_event now (suc (length r.events)) "task.cancelled" payload) _ h₃ in
      let n = new_event-Next now r "task.cancelled" payload e in
      let (c, q) =
        event-Commit files id r l (ground arith) abandoned "task.cancelled" payload ev n h₄ in
      (r, ev, n, ground arith, c, q)

  -- `finalize` moves a record that was not terminal to the outcome that it is given, which is one of
  -- the two that a verifier may reach.
  pub finalize-Commit :
      (now : String) (files : Files) (id : String) (outcome : TaskState) (verification : Fields)
      {r' : TaskRecord} {files' : Files}
      → finalize digest now files id outcome verification ≡ ok (r', files')
      → (r : TaskRecord) × (ev : TaskEvent) × Next r ("task." <> state_name outcome) verification ev
        × (is_outcome outcome ≡ true)
        × Commit digest files id r r' files'
        × (r' ≡ with_event r outcome ev)
  unfolding finalize
  finalize-Commit now files id outcome verification h =
      let (o, h₀) = guard-eq-ok (is_outcome outcome) invalid_task_state _ h in
      let (r, l, h₁) = >>=-eq-ok (load digest files id) _ h₀ in
      let (a, h₂) = guard-eq-ok (not (is_terminal r.state)) invalid_task_state _ h₁ in
      let (ev, e, h₃) =
        >>=-eq-ok
          (new_event now (suc (length r.events)) ("task." <> state_name outcome) verification) _
          h₂ in
      let n = new_event-Next now r ("task." <> state_name outcome) verification e in
      let (c, q) =
        event-Commit files id r l (ground arith) outcome ("task." <> state_name outcome)
          verification ev n h₃ in
      (r, ev, n, o, c, q)

  -- `amend` adds the amended envelope and one event to a record that was not terminal; the record's
  -- own checks never refuse what the envelope's amendment allows.
  pub amend-Commit :
      (now : String) (files : Files) (id : String) (changes : Changes) {r' : TaskRecord}
      {files' : Files}
      → amend digest now files id changes ≡ ok (r', files')
      → (r : TaskRecord) × (e : TaskEnvelope) × (ev : TaskEvent) × Next r "task.amended"
          (field "revision" (num (pos e.revision)) end)
          ev
        × (Envelope.amend (current_envelope r) changes ≡ ok e)
        × Commit digest files id r r' files'
        × (r' ≡ with_envelope r e ev)
  unfolding amend
  amend-Commit now files id changes h =
      let (r, l, h₁) = >>=-eq-ok (load digest files id) _ h in
      let (a, h₂) = guard-eq-ok (not (is_terminal r.state)) invalid_task_state _ h₁ in
      let (e, m, h₃) = >>=-eq-ok (Envelope.amend (current_envelope r) changes) _ h₂ in
      let payload : Fields = field "revision" (num (pos e.revision)) end in
      let (ev, f, h₄) =
        >>=-eq-ok (new_event now (suc (length r.events)) "task.amended" payload) _ h₃ in
      let n = new_event-Next now r "task.amended" payload f in
      let (x, valid, revision) = amend-Extends (current_envelope r) changes m in
      let (v, q, w) = save-inversion digest files id (with_envelope r e ev) h₄ in
      (
        r,
        e,
        ev,
        n,
        m,
        record {
          loaded = l;
          active = ground arith;
          later = subst (Later r) q (envelope-Later r e ev x);
          valid =
              subst (λ x. valid_payload x ≡ true) q
                (valid_payload-envelope r e ev (load-inversion digest files id l).2 valid x revision
                  n.valid n.sequence);
          written = sym w ∙ ap (write digest files id) q;
        },
        sym q,
      )

  -- What an operation wrote loads again, and the other tasks are as they were.
  pub load-Commit :
      (files : Files) (id : String) {r r' : TaskRecord} {files' : Files}
      → Commit digest files id r r' files'
      → (load digest files' id ≡ ok r')
        × ((k : String) → (id =ˢ k) ≡ false → load digest files' k ≡ load digest files k)
  load-Commit files id {r} {r'} c =
      let (safe, found, valid, owner) = load-inversion digest files id c.loaded in
      (
        rw c.written (load-write files id r' safe c.valid (c.later.task_id ∙ owner)),
        λ k ne. rw c.written (load-write_ne files id k r' ne),
      )
