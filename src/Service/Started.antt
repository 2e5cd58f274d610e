-- ===== src/Service/Started.antt =====
-- A started task: what its record holds.
use mathlib.Core.Path.{subst}
use mathlib.Core.List.{append-nil, append_assoc}
use adaptive_harness.Prelude.{
  String, ◌≡◌, refl, sym, ap, ◌∙◌, inl, inr, true, not, List, [], ◌∷◌, ◌++◌, map, arith, Result, ok,
  err, task_store, task_already_exists, >>=-eq-ok, guard-eq-ok, ok_path, Result-cases,
}
use adaptive_harness.Json.{Fields, end}
use adaptive_harness.Envelope.{TaskEnvelope, valid_envelope}
use adaptive_harness.Store.{
  TaskEvent, TaskRecord, Files, draft, record_schema_version, safe_task_id, exists, load, create,
  append_event, new_event, valid_payload,
}
use adaptive_harness.Store.Commits.{append_event-Commit, load-Commit, load-write}
use adaptive_harness.Store.History.{new_event-inversion, save-inversion}
use adaptive_harness.Modules.{ActivationDecision}
use adaptive_harness.Service.{
  Stores, StartFacts, StartRequest, activation_data, planned_task, append_then, record_decisions,
  create_and_record, start_task,
}
use adaptive_harness.Service.Planned.{Planned, planned_task-Planned}

-- The events hold the decisions, one each and in their order.
abbrev pub Decisions : List String → List ActivationDecision → List TaskEvent → Type 0
Decisions task_traits decisions events =
    ◌≡◌ {A = List (String × Fields)} (map (λ ev. (ev.type, ev.payload)) events)
      (map (λ d. ("module.activation", activation_data task_traits d)) decisions)

module _ (digest : TaskRecord → String) where
  -- A record that was created loads, and holds the envelope and the event of its creation.
  create_loads :
      (now : String) (files files' : Files) (e : TaskEnvelope) {r : TaskRecord}
      → valid_envelope e ≡ true
      → create digest now files e ≡ ok (r, files')
      → (load digest files' e.task_id ≡ ok r)
        × (r.first_envelope ≡ e)
        × (r.later_envelopes ≡ [])
        × (created : TaskEvent) × (r.events ≡ created ∷ [])
        × (created.type ≡ "task.created")
  unfolding create valid_payload
  create_loads now files files' e {r = r} valid h =
      let (safe, h₁) = guard-eq-ok (safe_task_id e.task_id) task_store _ h in
      let (x, h₂) = guard-eq-ok (not (exists (files e.task_id))) task_already_exists _ h₁ in
      let (ev, n, h₃) = >>=-eq-ok (new_event now 1 "task.created" end) _ h₂ in
      let (v, same, w) = save-inversion digest files e.task_id _ h₃ in
      let r₀ : TaskRecord = record {
        schema_version = record_schema_version;
        task_id = e.task_id;
        state = draft;
        first_envelope = e;
        later_envelopes = [];
        events = ev ∷ [];
      } in
      let (numbered, s, t, p) = new_event-inversion now 1 "task.created" end n in
      let stored : valid_payload r₀ ≡ true = ground arith in
      let loads : load digest files' e.task_id ≡ ok r₀ =
        ap (λ fs. load digest fs e.task_id) (sym w)
        ∙ load-write digest files e.task_id r₀ safe stored refl in
      subst
        (λ x.
          (load digest files' e.task_id ≡ ok x)
          × (x.first_envelope ≡ e)
          × (x.later_envelopes ≡ [])
          × (created : TaskEvent) × (x.events ≡ created ∷ [])
          × (created.type ≡ "task.created"))
        same (loads, refl, refl, ev, refl, t)

  -- The record that the decisions are added to, and the events that it has then: those that it had,
  -- and one that holds each decision.
  abbrev Grown :
      Files → String → List String → TaskRecord → List ActivationDecision → TaskRecord → Type 0
  Grown files id task_traits r decisions r' =
      (load digest files id ≡ ok r')
      × (r'.first_envelope ≡ r.first_envelope)
      × (r'.later_envelopes ≡ r.later_envelopes)
      × (events : List TaskEvent) × (r'.events ≡ r.events ++ events)
      × Decisions task_traits decisions events

  record_decisions-Grown :
      (now id : String) (task_traits : List String) (decisions : List ActivationDecision)
      (r : TaskRecord) (files : Files) {files' : Files} {r' : TaskRecord}
      → load digest files id ≡ ok r
      → record_decisions digest now id task_traits decisions r files ≡ (files', ok r')
      → Grown files' id task_traits r decisions r'
  unfolding record_decisions
  record_decisions-Grown now id task_traits [] r files {files' = files'} loads h =
      let same = ok_path (ap (λ x. x.1) h) in
      subst (λ x. Grown files' id task_traits r [] x) same
        (
          ap (λ fs. load digest fs id) (sym (ap (λ x. x.0) h)) ∙ loads,
          refl,
          refl,
          [],
          sym (append-nil r.events),
          refl,
        )
  record_decisions-Grown now id task_traits (d ∷ decisions) r files {files' = files'} {r' = r'}
        loads h =
      elim (Result-cases
        (append_event digest now files id "module.activation" (activation_data task_traits d))) [
          | inr (x, e) ↦ cc (ap (λ y. y.1) (rw e at h))
          | inl ((r₁, files₁), e) ↦
              let (r₀, ev, n, c, q) =
                append_event-Commit digest now files id "module.activation"
                  (activation_data task_traits d) e in
              let one : r₀ ≡ r = ok_path (sym c.loaded ∙ loads) in
              let after = (load-Commit digest files id c).0 in
              let (loads', first, later, events, holds, decided) =
                record_decisions-Grown now id task_traits decisions r₁ files₁ after (rw e at h) in
              let more : r₁.events ≡ r.events ++ ev ∷ [] =
                ap (λ x. x.events) q ∙ ap (λ x. x.events ++ ev ∷ []) one in
              (
                loads',
                first ∙ ap (λ x. x.first_envelope) q ∙ ap (λ x. x.first_envelope) one,
                later ∙ ap (λ x. x.later_envelopes) q ∙ ap (λ x. x.later_envelopes) one,
                ev ∷ events,
                holds ∙ ap (λ xs. xs ++ events) more ∙ append_assoc r.events (ev ∷ []) events,
                rw (n.type_, n.payload_, decided) refl,
              )
        ]

  append_then-returned :
      (files : Files) (next : TaskRecord → Files → Files × Result TaskRecord)
      (o : Result (TaskRecord × Files)) {files' : Files} {r : TaskRecord}
      → append_then digest files next o ≡ (files', ok r)
      → (r₀ : TaskRecord) × (files₀ : Files) × (o ≡ ok (r₀, files₀))
        × (next r₀ files₀ ≡ (files', ok r))
  append_then-returned files next (err e) h = cc (ap (λ y. y.1) h)
  append_then-returned files next (ok (r₀, files₀)) h = (r₀, files₀, refl, h)

  -- When `start` returns, it has planned a valid envelope, each of whose acceptances is required, covers
  -- all requirements and stands for one requested capability, which is declared; and the record that
  -- loads holds that envelope, unamended. Its events are the one of its creation, and then one for
  -- each decision on a module, in their order, whose payload holds the decision and the task's traits.
  pub start_recorded :
      (sf : StartFacts) (q : StartRequest) (stores stores' : Stores) {r : TaskRecord}
      → start_task digest sf q stores ≡ (stores', ok r)
      → (e : TaskEnvelope) × (decisions : List ActivationDecision) × (planned_task digest sf q
            stores
          ≡ ok (e, decisions))
        × Planned sf.observed e
        × (load digest stores'.current e.task_id ≡ ok r)
        × (r.first_envelope ≡ e)
        × (r.later_envelopes ≡ [])
        × (created : TaskEvent) × (events : List TaskEvent) × (r.events ≡ created ∷ events)
        × (created.type ≡ "task.created")
        × Decisions q.task_traits decisions events
  unfolding start_task
  start_recorded sf q stores stores' {r = r} h =
      elim (Result-cases (planned_task digest sf q stores)) [
        | inr (x, e) ↦ cc (ap (λ y. y.1) (rw e at h))
        | inl ((e, decisions), plans) ↦
            let planned = planned_task-Planned digest sf q stores plans in
            let now = sf.observed.now in
            let recorded : create_and_record digest sf q stores.current
                  (planned_task digest sf q stores)
                ≡ (stores'.current, ok r) =
              ap (λ y. (y.0.current, y.1)) h in
            let (r₀, files₀, creates, rest) =
              append_then-returned stores.current
                (λ r' files'.
                  record_decisions digest now e.task_id q.task_traits decisions r' files')
                (create digest now stores.current e) (rw plans at recorded) in
            let (loads, first, later, created, one, made) =
              create_loads now stores.current files₀ e planned.valid creates in
            let (loads', first', later', events, holds, decided) =
              record_decisions-Grown now e.task_id q.task_traits decisions r₀ files₀ loads rest in
            (
              e,
              decisions,
              plans,
              planned,
              loads',
              first' ∙ first,
              later' ∙ later,
              created,
              events,
              holds ∙ ap (λ xs. xs ++ events) one,
              made,
              decided,
            )
      ]
