-- ===== src/Store/Progress.antt =====
-- When the operations of `TaskStore` on a record that is not terminal succeed.
use adaptive_harness.Prelude.{
  suc, String, ◌≡◌, refl, true, false, ◌&&◌, arith, ◌=ˢ◌, length, ok, err, if◌then◌else◌, pos,
  envelope_invariant, Bool-cases, inl, inr,
}
use adaptive_harness.Json.{Fields, end, field, num}
use adaptive_harness.Envelope.{TaskEnvelope, Changes, valid_envelope, amendable, apply_changes}
use adaptive_harness.Envelope
use adaptive_harness.Envelope.Monotone.{amend-Extends, amend_exact}
use adaptive_harness.Store.Defs.{TaskEvent, TaskRecord, Files, is_terminal, current_envelope}
use adaptive_harness.Store.Checks.{new_event, valid_record}
use adaptive_harness.Store.Operations.{valid_payload, load, write, save, amend, append_event}
use adaptive_harness.Store.History.{with_event, with_envelope, load-inversion}
use adaptive_harness.Store.Records.{valid_record-event, valid_record-envelope}

-- The event that an operation appends at the time `now`.
abbrev pub next_event : String → TaskRecord → String → Fields → TaskEvent
next_event now r type payload = record {
  sequence = suc (length r.events);
  type = type;
  occurred_at = now;
  payload = payload;
}

new_event_lem :
    (now : String) (r : TaskRecord) (type : String) (payload : Fields)
    → (now =ˢ "") ≡ false
    → (type =ˢ "") ≡ false
    → new_event now (suc (length r.events)) type payload ≡ ok (next_event now r type payload)
unfolding new_event
new_event_lem now r type payload h t = ground arith

payload_record : (r : TaskRecord) → valid_payload r ≡ true → valid_record r ≡ true
unfolding valid_payload
payload_record r h = ground arith

module _ (digest : TaskRecord → String) where
  save_lem :
      (files : Files) (id : String) (r : TaskRecord)
      → valid_record r ≡ true
      → save digest files id r ≡ ok (r, write digest files id r)
  unfolding save
  save_lem files id r v = rw v

  module _ (now : String) (files : Files) (id : String) (r : TaskRecord)
      (loaded : load digest files id ≡ ok r) (clock : (now =ˢ "") ≡ false) where
    -- An event of any type that is not empty can be appended to a loaded record that is not terminal.
    pub append_event_total :
        (event_type : String) (payload : Fields)
        → is_terminal r.state ≡ false
        → (event_type =ˢ "") ≡ false
        → let r' = with_event r r.state (next_event now r event_type payload) in
          append_event digest now files id event_type payload ≡ ok (r', write digest files id r')
    unfolding append_event
    append_event_total event_type payload a t =
        let ev = next_event now r event_type payload in
        rw loaded (
          rw a (
            rw t (
              rw (new_event_lem now r event_type payload clock t) (
                save_lem files id (with_event r r.state ev) (
                  valid_record-event r r.state ev
                    (payload_record r (load-inversion digest files id loaded).2) refl)))))

    -- A loaded record that is not terminal can be amended exactly when its current envelope can: the
    -- record's own checks refuse nothing more.
    pub store_amend_exact :
        (changes : Changes)
        → is_terminal r.state ≡ false
        → let e = apply_changes (current_envelope r) changes in
          let ev = next_event now r "task.amended" (field "revision" (num (pos e.revision)) end) in
          amend digest now files id changes ≡ (
            if amendable (current_envelope r) changes && valid_envelope e
            then ok (with_envelope r e ev, write digest files id (with_envelope r e ev))
            else err envelope_invariant)
    unfolding amend
    store_amend_exact changes a =
        elim (Bool-cases (
          amendable (current_envelope r) changes
          && valid_envelope (apply_changes (current_envelope r) changes))) [
            | inl h ↦
                let e = apply_changes (current_envelope r) changes in
                let payload : Fields = field "revision" (num (pos e.revision)) end in
                let ev = next_event now r "task.amended" payload in
                let m : Envelope.amend (current_envelope r) changes ≡ ok e =
                  rw (amend_exact (current_envelope r) changes) (rw h refl) in
                let (x, v, n) = amend-Extends (current_envelope r) changes m in
                rw loaded (
                  rw a (
                    rw m (
                      rw (new_event_lem now r "task.amended" payload clock refl) (
                        rw h (
                          save_lem files id (with_envelope r e ev) (
                            valid_record-envelope r e ev
                              (payload_record r (load-inversion digest files id loaded).2) x n
                              refl))))))
            | inr h ↦
                let m : Envelope.amend (current_envelope r) changes ≡ err envelope_invariant =
                  rw (amend_exact (current_envelope r) changes) (rw h refl) in
                rw loaded (rw a (rw m (rw h refl)))
          ]
