-- ===== src/Executor/Recorded.antt =====
-- What an execution that returns has checked, and the two events that it leaves in the record.
use mathlib.Core.Path.{subst}
use adaptive_harness.Prelude.{
  ℕ, ◌≡◌, refl, sym, ap, ◌∙◌, String, true, List, [], ◌∷◌, ◌++◌, arith, ◌=ˢ◌, any-append, Result,
  ok, ok_path, err, execution_rejected, lease_conflict, >>=-eq-ok, guard-eq-ok, Result-cases, inl,
  inr,
}
use adaptive_harness.Paths.{PosixPath, join_path}
use adaptive_harness.Store.{TaskEvent, TaskRecord, Files, current_envelope, load, append_event}
use adaptive_harness.Store.History.{with_event}
use adaptive_harness.Store.Commits.{Next}
use adaptive_harness.Gateway.{AuthorizedCommand}
use adaptive_harness.Gateway.Sound.{appended}
use adaptive_harness.Executor.Defs.{ExecutionLimits, CommandResult, Host, World}
use adaptive_harness.Executor.Validate.{
  records_number, validate_workspace, was_started, validate_authorization, next_attempt,
}
use adaptive_harness.Executor.Output.{Codec}
use adaptive_harness.Executor.Execute.{
  create_artifact_directory, outcome_of, started_data, finished_data, result_of, Prepared, prepare,
  finish, run, execute, start_and_run, then_with, command_for,
}

then_with-eq-ok :
    {A : Type 0} (w : World) (next : Files → World × Result A) (m : Result (TaskRecord × Files))
    {w' : World} {a : A}
    → then_with w next m ≡ (w', ok a)
    → (r : TaskRecord) × (records : Files) × (m ≡ ok (r, records)) × (next records ≡ (w', ok a))
then_with-eq-ok w next (ok (r, records)) h = (r, records, refl, h)
then_with-eq-ok {A} w next (err e) h = cc (ap (λ (x : World × Result A). x.1) h)

-- An authorization that was started is refused.
pub validate_started :
    (r : TaskRecord) (a : AuthorizedCommand)
    → was_started a.authorization_event_sequence r.events ≡ true
    → validate_authorization r a ≡ err execution_rejected
unfolding validate_authorization
validate_started r a h = rw h (ground arith)

start_recorded :
    (r : TaskRecord) (a : AuthorizedCommand) (attempt : ℕ) (ev : TaskEvent)
    → Next r "command.started" (started_data a attempt) ev
    → records_number "command.started" "authorization_event_sequence" a.authorization_event_sequence
        ev
      ≡ true
unfolding records_number
start_recorded r a attempt ev n = rw (n.type_, n.payload_) (ground arith)

pub was_started-append :
    (n : ℕ) (xs ys : List TaskEvent) → was_started n xs ≡ true → was_started n (xs ++ ys) ≡ true
was_started-append n xs ys h =
    rw (any-append (records_number "command.started" "authorization_event_sequence" n) xs ys)
      (ground arith)

pub started_snoc :
    (r : TaskRecord) (a : AuthorizedCommand) (attempt : ℕ) (ev : TaskEvent)
    → Next r "command.started" (started_data a attempt) ev
    → was_started a.authorization_event_sequence (r.events ++ ev ∷ []) ≡ true
started_snoc r a attempt ev n =
    rw
      (any-append
        (records_number "command.started" "authorization_event_sequence"
          a.authorization_event_sequence)
        r.events (ev ∷ []))
      (ground (arith, start_recorded r a attempt ev n))

module _ (digest : TaskRecord → String) (codec : Codec) (limits : ExecutionLimits)
    (secrets : List String) (artifact_root : PosixPath) (host : Host) where
  -- What is settled when an execution starts.
  pub record Ready (before records : Files) (a : AuthorizedCommand) (r : TaskRecord) (p : Prepared)
      : Type 0 where
    pub lease : host.lease_free ≡ true
    pub loaded : load digest records a.task_id ≡ ok r
    pub workspace : validate_workspace (current_envelope r) host.locked_snapshot ≡ ok tt
    pub authorized : validate_authorization r a ≡ ok tt
    pub attempt : p.attempt ≡ next_attempt r a
    pub enforced : p.sandbox_enforced ≡ ((current_envelope r).integration_mode =ˢ "enforced")
    pub command : command_for host p.sandbox_enforced a ≡ ok p.command

  pub prepare-Ready :
      (before records : Files) (a : AuthorizedCommand) {p : Prepared}
      → prepare digest codec limits secrets artifact_root host before records a ≡ ok p
      → (r : TaskRecord) × Ready before records a r p
  unfolding prepare
  prepare-Ready before records a {p} h =
      let (r₀, l₀, h₁) = >>=-eq-ok (load digest before a.task_id) _ h in
      let (u₁, w₀, h₂) = >>=-eq-ok (validate_workspace (current_envelope r₀) host.snapshot) _ h₁ in
      let (u₂, v₀, h₃) = >>=-eq-ok (validate_authorization r₀ a) _ h₂ in
      let (free, h₄) = guard-eq-ok host.lease_free lease_conflict _ h₃ in
      let (r, l, h₅) = >>=-eq-ok (load digest records a.task_id) _ h₄ in
      let (u₃, w, h₆) =
        >>=-eq-ok (validate_workspace (current_envelope r) host.locked_snapshot) _ h₅ in
      let (u₄, v, h₇) = >>=-eq-ok (validate_authorization r a) _ h₆ in
      let (command, c, h₈) =
        >>=-eq-ok (command_for host ((current_envelope r).integration_mode =ˢ "enforced") a) _ h₇ in
      let (dir, d, h₉) =
        >>=-eq-ok
          (create_artifact_directory host artifact_root a.task_id a.authorization_event_sequence
            (next_attempt r a))
          _ h₈ in
      (
        r,
        record {
          lease = free;
          loaded = l;
          workspace = w;
          authorized = v;
          attempt = ap (λ x. x.attempt) (sym (ok_path h₉));
          enforced = ap (λ x. x.sandbox_enforced) (sym (ok_path h₉));
          command =
              subst (λ x. command_for host x.sandbox_enforced a ≡ ok x.command) (ok_path h₉) c;
        },
      )

  started_then :
      (a : AuthorizedCommand) (p : Prepared) (w : World) {w' : World} {result : CommandResult}
      → start_and_run digest codec limits secrets artifact_root host a w (ok p) ≡ (w', ok result)
      → (r : TaskRecord) × (records : Files) × (append_event digest host.started_now w.records
            a.task_id "command.started"
            (started_data a p.attempt)
          ≡ ok (r, records))
        × (run digest codec limits secrets artifact_root host a p (record w { records = records })
            ≡ (w', ok result))
  started_then a p w h =
      then_with-eq-ok w
        (λ records.
          run digest codec limits secrets artifact_root host a p (record w { records = records }))
        (append_event digest host.started_now w.records a.task_id "command.started"
          (started_data a p.attempt))
        h

  run_recorded :
      (a : AuthorizedCommand) (p : Prepared) (w : World) {w' : World} {result : CommandResult}
      → run digest codec limits secrets artifact_root host a p w ≡ (w', ok result)
      → (r : TaskRecord) × (append_event digest host.finished_now w.records a.task_id
            "command.finished"
            (finished_data limits a p.attempt p.sandbox_enforced
              (join_path p.artifact_dir "stdout.txt")
              (join_path p.artifact_dir "stderr.txt")
              (outcome_of codec limits secrets (host.launch p.command)))
          ≡ ok (r, w'.records))
        × (result
            ≡ result_of a p.attempt
                (join_path p.artifact_dir "stdout.txt")
                (join_path p.artifact_dir "stderr.txt")
                (outcome_of codec limits secrets (host.launch p.command)))
  unfolding run finish
  run_recorded a p w h =
      let (r, records, q, g) =
        then_with-eq-ok _ _
          (append_event digest host.finished_now w.records a.task_id "command.finished" (
            finished_data limits a p.attempt p.sandbox_enforced
              (join_path p.artifact_dir "stdout.txt") (join_path p.artifact_dir "stderr.txt")
              (outcome_of codec limits secrets (host.launch p.command))))
          h in
      (
        r,
        q ∙ ap (λ (x : World × Result CommandResult). ok (r, x.0.records)) g,
        sym (ok_path (ap (λ x. x.1) g)),
      )

  -- An execution that returns has started once and finished once: the record has one start event
  -- and then one finish event more, which hold the attempt and the outcome of the process.
  pub execute_recorded :
      (before : Files) (w : World) (a : AuthorizedCommand) {w' : World} {result : CommandResult}
      → execute digest codec limits secrets artifact_root host before w a ≡ (w', ok result)
      → (r : TaskRecord) × (p : Prepared) × (start : TaskEvent) × (finished : TaskEvent) × Ready
          before w.records a r p
        × Next r "command.started" (started_data a p.attempt) start
        × Next
            (with_event r r.state start)
            "command.finished"
            (finished_data limits a p.attempt p.sandbox_enforced
              (join_path p.artifact_dir "stdout.txt")
              (join_path p.artifact_dir "stderr.txt")
              (outcome_of codec limits secrets (host.launch p.command)))
            finished
        × (load digest w'.records a.task_id
            ≡ ok (with_event (with_event r r.state start) r.state finished))
        × (result
            ≡ result_of a p.attempt
                (join_path p.artifact_dir "stdout.txt")
                (join_path p.artifact_dir "stderr.txt")
                (outcome_of codec limits secrets (host.launch p.command)))
  unfolding execute
  execute_recorded before w a h =
      elim (Result-cases
        (prepare digest codec limits secrets artifact_root host before w.records a)) [
          | inr (e, q) ↦ cc (ap (λ x. x.1) (rw q at h))
          | inl (p, q) ↦
              let (r, ready) = prepare-Ready before w.records a q in
              let (r₁, records, s, g) = started_then a p w (rw q at h) in
              let (start, n₁, l₁, k₁) =
                appended digest host.started_now w.records a.task_id "command.started"
                  (started_data a p.attempt) r ready.loaded s in
              let (r₂, f, e) = run_recorded a p (record w { records = records }) g in
              let (finished, n₂, l₂, k₂) =
                appended digest host.finished_now records a.task_id "command.finished"
                  (finished_data limits a p.attempt p.sandbox_enforced
                    (join_path p.artifact_dir "stdout.txt") (join_path p.artifact_dir "stderr.txt")
                    (outcome_of codec limits secrets (host.launch p.command)))
                  (with_event r r.state start) l₁ f in
              (r, p, start, finished, ready, n₁, n₂, l₂, e)
        ]
