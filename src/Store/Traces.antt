-- ===== src/Store/Traces.antt =====
-- What a task's record goes through, whatever sequence of operations runs on the store.
use mathlib.Core.List.{append-nil, append_assoc}
use adaptive_harness.Prelude.{
  String, ◌≡◌, refl, sym, ap, ◌∙◌, true, List, [], ◌∷◌, ◌++◌, ◌=ˢ◌, eq_iff, Result, ok, err,
  Bool-cases, inl, inr, task_store, task_already_exists, guard-eq-ok, >>=-eq-ok, not,
}
use mathlib.Core.Path.{subst}
use adaptive_harness.Json.{Fields, end}
use adaptive_harness.Store.Checks.{new_event}
use adaptive_harness.Envelope.{TaskEnvelope, Changes}
use adaptive_harness.Envelope.Monotone.{Extends-refl, Extends-trans}
use adaptive_harness.Store.Defs.{TaskState, TaskRecord, Files, is_terminal, current_envelope}
use adaptive_harness.Store.Operations.{
  safe_task_id, exists, load, create, amend, cancel, append_event, finalize,
}
use adaptive_harness.Store.History.{Later, Commit, load-inversion, save-inversion}
use adaptive_harness.Store.Commits.{
  append_event-Commit, cancel-Commit, finalize-Commit, amend-Commit, load-Commit, load-write_ne,
}

-- A call of one of the operations of `TaskStore` that write.
pub data StoreCall : Type 0 where
  call_create : TaskEnvelope → StoreCall
  call_amend : String → Changes → StoreCall
  call_cancel : String → String → StoreCall
  call_append_event : String → String → Fields → StoreCall
  call_finalize : String → TaskState → Fields → StoreCall

pub Later-refl : (r : TaskRecord) → Later r r
Later-refl r = record {
  task_id = refl;
  first_envelope = refl;
  new_events = [];
  events = sym (append-nil r.events);
  new_envelopes = [];
  later_envelopes = sym (append-nil r.later_envelopes);
  bounds = Extends-refl (current_envelope r);
}

pub Later-trans : (a b c : TaskRecord) → Later a b → Later b c → Later a c
Later-trans a b c x y = record {
  task_id = y.task_id ∙ x.task_id;
  first_envelope = y.first_envelope ∙ x.first_envelope;
  new_events = x.new_events ++ y.new_events;
  events =
      y.events
      ∙ ap (λ l. l ++ y.new_events) x.events
      ∙ append_assoc a.events x.new_events y.new_events;
  new_envelopes = x.new_envelopes ++ y.new_envelopes;
  later_envelopes =
      y.later_envelopes
      ∙ ap (λ l. l ++ y.new_envelopes) x.later_envelopes
      ∙ append_assoc a.later_envelopes x.new_envelopes y.new_envelopes;
  bounds =
      Extends-trans (current_envelope a) (current_envelope b) (current_envelope c) x.bounds
        y.bounds;
}

module _ (digest : TaskRecord → String) where
  unfoldable pub run_call : String → Files → StoreCall → Result (TaskRecord × Files)
  run_call now files (call_create e) = create digest now files e
  run_call now files (call_amend id changes) = amend digest now files id changes
  run_call now files (call_cancel id reason) = cancel digest now files id reason
  run_call now files (call_append_event id event_type payload) =
      append_event digest now files id event_type payload
  run_call now files (call_finalize id outcome verification) =
      finalize digest now files id outcome verification

  -- A call that raises leaves the files as they were.
  abbrev pub files_after : Files → Result (TaskRecord × Files) → Files
  files_after files (ok (r, files')) = files'
  files_after files (err e) = files

  -- The files after a sequence of calls, each at its time.
  unfoldable pub run_calls : Files → List (String × StoreCall) → Files
  run_calls files [] = files
  run_calls files ((now, call) ∷ calls) =
      run_calls (files_after files (run_call now files call)) calls

  -- What became of a task after some calls.
  abbrev Continues : String → TaskRecord → Files → Type 0
  Continues id r files' =
      (r' : TaskRecord) × (load digest files' id ≡ ok r')
      × Later r r'
      × (is_terminal r.state ≡ true → r' ≡ r)

  same_file :
      (files : Files) (id : String) (r : TaskRecord)
      → load digest files id ≡ ok r
      → Continues id r files
  same_file files id r l = (r, l, Later-refl r, λ t. refl)

  Commit-Continues :
      (files : Files) (id k : String) (r r₀ r' : TaskRecord) (files' : Files)
      → load digest files id ≡ ok r
      → Commit digest files k r₀ r' files'
      → Continues id r files'
  Commit-Continues files id k r r₀ r' files' l c = elim (Bool-cases (k =ˢ id)) [
    | inl e ↦
        let p : k ≡ id = (eq_iff k id).0 e in
        let q : r₀ ≡ r = cc (ap (load digest files) p, c.loaded, l) in
        (
          r',
          subst (λ x. load digest files' x ≡ ok r') p (load-Commit digest files k c).0,
          subst (λ x. Later x r') q c.later,
          λ t. cc (ap (λ (x : TaskRecord). is_terminal x.state) q, c.active, t),
        )
    | inr e ↦ (r, (load-Commit digest files k c).1 id e ∙ l, Later-refl r, λ t. refl)
  ]

  create-Continues :
      (now : String) (files files' : Files) (id : String) (e : TaskEnvelope) (r r' : TaskRecord)
      → load digest files id ≡ ok r
      → create digest now files e ≡ ok (r', files')
      → Continues id r files'
  unfolding create
  create-Continues now files files' id e r r' l h =
      let (s, h₁) = guard-eq-ok (safe_task_id e.task_id) task_store _ h in
      let (x, h₂) = guard-eq-ok (not (exists (files e.task_id))) task_already_exists _ h₁ in
      let (ev, n, h₃) = >>=-eq-ok (new_event now 1 "task.created" end) _ h₂ in
      let (v, q, w) = save-inversion digest files e.task_id _ h₃ in
      elim (Bool-cases (e.task_id =ˢ id)) [
        | inl p ↦
            let found = (load-inversion digest files id l).1 in
            let same : e.task_id ≡ id = (eq_iff e.task_id id).0 p in cc (ap files same, found, x)
        | inr ne ↦ (
          r,
          rw (← w) (load-write_ne digest files e.task_id id _ ne ∙ l),
          Later-refl r,
          λ t. refl,
        )
      ]

  call-Continues :
      (now : String) (files : Files) (call : StoreCall) (id : String) (r : TaskRecord)
      (result : Result (TaskRecord × Files))
      → load digest files id ≡ ok r
      → run_call now files call ≡ result
      → Continues id r (files_after files result)
  unfolding run_call
  call-Continues now files call id r (err x) l h = same_file files id r l
  call-Continues now files (call_create e) id r (ok (r', files')) l h =
      create-Continues now files files' id e r r' l h
  call-Continues now files (call_amend k changes) id r (ok (r', files')) l h =
      let (r₀, e, ev, n, m, c, q) = amend-Commit digest now files k changes h in
      Commit-Continues files id k r r₀ r' files' l c
  call-Continues now files (call_cancel k reason) id r (ok (r', files')) l h =
      let (r₀, ev, n, b, c, q) = cancel-Commit digest now files k reason h in
      Commit-Continues files id k r r₀ r' files' l c
  call-Continues now files (call_append_event k t payload) id r (ok (r', files')) l h =
      let (r₀, ev, n, c, q) = append_event-Commit digest now files k t payload h in
      Commit-Continues files id k r r₀ r' files' l c
  call-Continues now files (call_finalize k outcome payload) id r (ok (r', files')) l h =
      let (r₀, ev, n, o, c, q) = finalize-Commit digest now files k outcome payload h in
      Commit-Continues files id k r r₀ r' files' l c

  calls-Continues :
      (files : Files) (calls : List (String × StoreCall)) (id : String) (r : TaskRecord)
      → load digest files id ≡ ok r
      → Continues id r (run_calls files calls)
  unfolding run_calls
  calls-Continues files [] id r l = same_file files id r l
  calls-Continues files ((now, call) ∷ calls) id r l =
      let (r₁, l₁, later₁, frozen₁) =
        call-Continues now files call id r (run_call now files call) l refl in
      let (r₂, l₂, later₂, frozen₂) =
        calls-Continues (files_after files (run_call now files call)) calls id r₁ l₁ in
      (
        r₂,
        l₂,
        Later-trans r r₁ r₂ later₁ later₂,
        λ t. let e = frozen₁ t in frozen₂ (subst (λ x. is_terminal x.state ≡ true) (sym e) t) ∙ e,
      )

  -- Whatever calls are made on the store, each at its time, a task whose record loads keeps loading;
  -- the events and envelope revisions that its record had stay unchanged at the front, its identity
  -- and base stay, and its required acceptances, capabilities and scope are only widened.
  pub history_append_only :
      (files : Files) (calls : List (String × StoreCall)) (id : String) (r : TaskRecord)
      → load digest files id ≡ ok r
      → (r' : TaskRecord) × (load digest (run_calls files calls) id ≡ ok r') × Later r r'
  history_append_only files calls id r l =
      let (r', l', later, frozen) = calls-Continues files calls id r l in (r', l', later)

  -- Whatever calls are made on the store, a record that loads and is terminal stays as it is.
  pub terminal_frozen :
      (files : Files) (calls : List (String × StoreCall)) (id : String) (r : TaskRecord)
      → load digest files id ≡ ok r
      → is_terminal r.state ≡ true
      → load digest (run_calls files calls) id ≡ ok r
  terminal_frozen files calls id r l t =
      let (r', l', later, frozen) = calls-Continues files calls id r l in l' ∙ ap ok (frozen t)
