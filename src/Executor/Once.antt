-- ===== src/Executor/Once.antt =====
-- An authorization is executed once.
use adaptive_harness.Prelude.{
  ◌≡◌, refl, ap, ◌∙◌, String, true, List, [], ◌∷◌, ◌++◌, ok, err, Error, Result-cases, inl, inr,
}
use adaptive_harness.Paths.{PosixPath}
use adaptive_harness.Store.{TaskRecord, Files, load}
use adaptive_harness.Store.History.{with_event}
use adaptive_harness.Store.Traces.{StoreCall, run_calls, history_append_only}
use adaptive_harness.Gateway.{AuthorizedCommand}
use adaptive_harness.Executor.Defs.{ExecutionLimits, CommandResult, Host, World}
use adaptive_harness.Executor.Validate.{was_started, validate_authorization}
use adaptive_harness.Executor.Output.{Codec}
use adaptive_harness.Executor.Execute.{prepare, execute}
use adaptive_harness.Executor.Recorded.{
  validate_started, was_started-append, started_snoc, prepare-Ready, execute_recorded,
}

module _ (digest : TaskRecord → String) (codec : Codec) (limits : ExecutionLimits)
    (secrets : List String) (artifact_root : PosixPath) where
  -- An execution that is prepared on a record where the authorization was started, raises.
  refused :
      (host : Host) (before : Files) (w : World) (a : AuthorizedCommand) (r : TaskRecord)
      → load digest w.records a.task_id ≡ ok r
      → was_started a.authorization_event_sequence r.events ≡ true
      → (e : Error) × (execute digest codec limits secrets artifact_root host before w a
          ≡ (w, err e))
  unfolding execute
  refused host before w a r l s =
      elim (Result-cases
        (prepare digest codec limits secrets artifact_root host before w.records a)) [
          | inr (e, q) ↦ (e, rw q refl)
          | inl (p, q) ↦
              let (r', ready) =
                prepare-Ready digest codec limits secrets artifact_root host before w.records a q in
              let same : r' ≡ r = cc (ready.loaded, l) in
              cc (
                ap (λ x. validate_authorization x a) same,
                ready.authorized,
                validate_started r a s,
              )
        ]

  -- An authorization whose execution returned cannot be executed again: whatever calls are made on
  -- the store since and whatever the host is like then, a second execution raises and changes
  -- nothing.
  pub execute_once :
      (host : Host) (before : Files) (w : World) (a : AuthorizedCommand) {w' : World}
      {result : CommandResult}
      → execute digest codec limits secrets artifact_root host before w a ≡ (w', ok result)
      → (calls : List (String × StoreCall)) (host' : Host) (before' : Files) (w'' : World)
      → w''.records ≡ run_calls digest w'.records calls
      → (e : Error) × (execute digest codec limits secrets artifact_root host' before' w'' a
          ≡ (w'', err e))
  execute_once host before w a {w'} h calls host' before' w'' later =
      let (r, p, start, finished, ready, n₁, n₂, l, e) =
        execute_recorded digest codec limits secrets artifact_root host before w a h in
      let r₂ = with_event (with_event r r.state start) r.state finished in
      let (r₃, l₃, after) = history_append_only digest w'.records calls a.task_id r₂ l in
      refused host' before' w'' a r₃ (ap (λ f. load digest f a.task_id) later ∙ l₃) (
        rw after.events (
          was_started-append a.authorization_event_sequence
            ((r.events ++ start ∷ []) ++ finished ∷ []) after.new_events
            (was_started-append a.authorization_event_sequence (r.events ++ start ∷ [])
              (finished ∷ []) (started_snoc r a p.attempt start n₁))))
