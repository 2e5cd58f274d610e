-- ===== src/Store/Records.antt =====
-- What the operations append to a valid record keeps it valid.
use adaptive_harness.Prelude.{
  suc, ◌≡◌, true, [], ◌∷◌, ◌++◌, arith, ◌=ˢ◌, eq_refl, all, length, all-append, &&-true,
  same_list_refl, map,
}
use adaptive_harness.Paths.{same_path_refl}
use adaptive_harness.Envelope.{TaskEnvelope}
use adaptive_harness.Envelope.Monotone.{Extends}
use adaptive_harness.Store.Defs.{
  TaskEvent, TaskState, TaskRecord, envelope_revisions, current_envelope,
}
use adaptive_harness.Store.Checks.{
  numbered_from, all_pairs, same_immutables, only_widens, valid_record, record_schema_version,
}
use adaptive_harness.Store.Numbering.{numbered-snoc, numbered-last, all_pairs-snoc, all-last}

-- The checks of a record, one by one.
pub record Parts (r : TaskRecord) : Type 0 where
  pub version : (r.schema_version =ˢ record_schema_version) ≡ true
  pub owner : (r.task_id =ˢ r.first_envelope.task_id) ≡ true
  pub revisions : numbered_from 1 (map (λ e. e.revision) (envelope_revisions r)) ≡ true
  pub owners : all (λ e. e.task_id =ˢ r.task_id) (envelope_revisions r) ≡ true
  pub immutables : all (same_immutables r.first_envelope) r.later_envelopes ≡ true
  pub widens : all_pairs only_widens r.first_envelope r.later_envelopes ≡ true
  pub sequences : numbered_from 1 (map (λ ev. ev.sequence) r.events) ≡ true

pub valid_record-Parts : (r : TaskRecord) → valid_record r ≡ true → Parts r
unfolding valid_record
valid_record-Parts r h = record {
  version = ground arith;
  owner = ground arith;
  revisions = ground arith;
  owners = ground arith;
  immutables = ground arith;
  widens = ground arith;
  sequences = ground arith;
}

pub Parts-valid_record : (r : TaskRecord) → Parts r → valid_record r ≡ true
unfolding valid_record
Parts-valid_record r p =
    ground (arith, p.version, p.owner, p.revisions, p.owners, p.immutables, p.widens, p.sequences)

same_immutables_refl : (e : TaskEnvelope) → same_immutables e e ≡ true
unfolding same_immutables
same_immutables_refl e = ground (
  arith,
  eq_refl e.schema_version,
  eq_refl e.repository_id,
  eq_refl e.base_sha,
  same_path_refl e.worktree_path,
  same_list_refl e.initial_dirty_state,
  eq_refl e.harness_version,
  eq_refl e.config_version,
)

same_immutables-Extends :
    (first e later : TaskEnvelope)
    → same_immutables first e ≡ true
    → Extends e later
    → same_immutables first later ≡ true
unfolding same_immutables
same_immutables-Extends first e later h x =
    rw
      (
        x.schema_version, x.repository_id, x.base_sha, x.worktree_path, x.initial_dirty_state,
        x.harness_version, x.config_version,
      )
      h

only_widens-Extends : (e later : TaskEnvelope) → Extends e later → only_widens e later ≡ true
unfolding only_widens
only_widens-Extends e later x = ground arith

-- One more event with the next number, in any state.
pub valid_record-event :
    (r : TaskRecord) (state : TaskState) (ev : TaskEvent)
    → valid_record r ≡ true
    → ev.sequence ≡ suc (length r.events)
    → valid_record (record r { state = state; events = r.events ++ ev ∷ [] }) ≡ true
valid_record-event r state ev h e =
    let p = valid_record-Parts r h in
    Parts-valid_record (record r { state = state; events = r.events ++ ev ∷ [] })
      (record {
        version = p.version;
        owner = p.owner;
        revisions = p.revisions;
        owners = p.owners;
        immutables = p.immutables;
        widens = p.widens;
        sequences = numbered-snoc (λ ev. ev.sequence) 1 r.events ev p.sequences (omega arith);
      })

-- One more envelope that extends the current one, with the next revision, and one more event.
pub valid_record-envelope :
    (r : TaskRecord) (e : TaskEnvelope) (ev : TaskEvent)
    → valid_record r ≡ true
    → Extends (current_envelope r) e
    → e.revision ≡ suc (current_envelope r).revision
    → ev.sequence ≡ suc (length r.events)
    → valid_record
        (record r { later_envelopes = r.later_envelopes ++ e ∷ []; events = r.events ++ ev ∷ [] })
      ≡ true
valid_record-envelope r e ev h x n k =
    let p = valid_record-Parts r h in
    let owners =
      &&-true (r.first_envelope.task_id =ˢ r.task_id)
        (all (λ (e : TaskEnvelope). e.task_id =ˢ r.task_id) r.later_envelopes) p.owners in
    let owner : ((current_envelope r).task_id =ˢ r.task_id) ≡ true =
      all-last (λ e. e.task_id =ˢ r.task_id) r.first_envelope r.later_envelopes owners.0 owners.1 in
    let same : same_immutables r.first_envelope (current_envelope r) ≡ true =
      all-last (same_immutables r.first_envelope) r.first_envelope r.later_envelopes
        (same_immutables_refl r.first_envelope) p.immutables in
    let last : (e.task_id =ˢ r.task_id) ≡ true = rw x.task_id owner in
    Parts-valid_record
      (record r { later_envelopes = r.later_envelopes ++ e ∷ []; events = r.events ++ ev ∷ [] })
      (record {
        version = p.version;
        owner = p.owner;
        revisions =
            numbered-snoc (λ e. e.revision) 1 (envelope_revisions r) e p.revisions
              (omega (
                arith,
                n,
                numbered-last (λ (e : TaskEnvelope). e.revision) 1 r.first_envelope
                    r.later_envelopes p.revisions,
              ));
        owners = ground (
          arith,
          owners,
          last,
          all-append (λ (e : TaskEnvelope). e.task_id =ˢ r.task_id) r.later_envelopes (e ∷ []),
        );
        immutables = ground (
          arith,
          p.immutables,
          same_immutables-Extends r.first_envelope (current_envelope r) e same x,
          all-append (same_immutables r.first_envelope) r.later_envelopes (e ∷ []),
        );
        widens = ground (
          arith,
          p.widens,
          only_widens-Extends (current_envelope r) e x,
          all_pairs-snoc only_widens r.first_envelope r.later_envelopes e,
        );
        sequences = numbered-snoc (λ ev. ev.sequence) 1 r.events ev p.sequences (omega arith);
      })
