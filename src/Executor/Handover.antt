-- ===== src/Executor/Handover.antt =====
-- From the gateway to the executor: a granted authorization passes the executor's own checks.
use adaptive_harness.Prelude.{
  ℕ, suc, ◌-◌, String, ◌≡◌, refl, sym, true, false, List, [], ◌∷◌, ◌++◌, some, arith, any-append,
  get_elem?, get_elem?-append_length, length, length-append, ok, Option,
}
use mathlib.Core.Path.{subst}
use adaptive_harness.Paths.{PosixPath, join_path}
use adaptive_harness.Json.{Fields}
use adaptive_harness.Json.Equality.{
  value_eq-str, value_eq-num, value_eq-str_or_null, value_eq-strs, value_eq-nums,
}
use adaptive_harness.Paths.{show_path}
use adaptive_harness.Store.{TaskEvent, TaskRecord, Files, load, current_envelope}
use adaptive_harness.Envelope.{TaskEnvelope}
use adaptive_harness.Store.History.{with_event}
use adaptive_harness.Store.Commits.{Next}
use adaptive_harness.Gateway.{
  Capability, ProjectPolicy, WorkspaceSnapshot, ScopedApproval, AuthorizedCommand, authorize,
  authorization_data,
}
use adaptive_harness.Gateway.Rules.{command_of}
use adaptive_harness.Gateway.Sound.{authorize-Granted}
use adaptive_harness.Executor.Validate.{
  records_number, event_matches_authorization, was_started, validate_authorization,
}

-- The event of an authorization matches its command.
authorization_matches :
    (r : TaskRecord) (e : TaskEnvelope) (c : Capability) (cwd : PosixPath)
    (approval_id : Option String) (task_id : String) (n : ℕ) (ev : TaskEvent)
    → Next r "command.authorized" (authorization_data e c cwd approval_id) ev
    → event_matches_authorization ev (command_of task_id c cwd approval_id n) ≡ true
unfolding event_matches_authorization
authorization_matches r e c cwd approval_id task_id n ev next =
    rw (next.type_, next.payload_)
      (ground (
        arith,
        value_eq-str c.id,
        value_eq-strs c.argv,
        value_eq-str (show_path cwd),
        value_eq-num c.timeout_seconds,
        value_eq-str_or_null approval_id,
        value_eq-nums c.stop_on_exit_codes,
      ))

-- An authorization is no start.
not_started :
    (r : TaskRecord) (n : ℕ) (payload : Fields) (ev : TaskEvent)
    → Next r "command.authorized" payload ev
    → was_started n r.events ≡ false
    → was_started n (r.events ++ ev ∷ []) ≡ false
unfolding records_number
not_started r n payload ev next h =
    rw
      (any-append (records_number "command.started" "authorization_event_sequence" n) r.events
        (ev ∷ []))
      (rw h (rw next.type_ refl))

validate_fresh :
    (r : TaskRecord) (ev : TaskEvent) (cmd : AuthorizedCommand)
    → cmd.authorization_event_sequence ≡ suc (length r.events)
    → event_matches_authorization ev cmd ≡ true
    → was_started (suc (length r.events)) (r.events ++ ev ∷ []) ≡ false
    → validate_authorization (with_event r r.state ev) cmd ≡ ok tt
unfolding validate_authorization
validate_fresh r ev cmd n m s =
    let index : cmd.authorization_event_sequence - 1 ≡ length r.events = omega (arith, n) in
    let found : get_elem? (r.events ++ ev ∷ []) (cmd.authorization_event_sequence - 1) ≡ some ev =
      rw index (get_elem?-append_length r.events ev []) in
    let unused : was_started cmd.authorization_event_sequence (r.events ++ ev ∷ []) ≡ false =
      rw n s in
    rw found (rw m (rw unused (ground (arith, length-append r.events (ev ∷ [])))))

-- A command that the gateway has just authorized, under a number that no start event names yet,
-- passes the executor's validation against the record that the gateway wrote.
pub authorize_executable :
    (digest : TaskRecord → String) (resolve : PosixPath → PosixPath)
    (capabilities : List Capability) (policy : ProjectPolicy) (now : String) (time : ℕ)
    (snapshot : WorkspaceSnapshot) (files : Files) (task_id capability_id : String)
    (approvals : List ScopedApproval) (r : TaskRecord) {cmd : AuthorizedCommand} {files' : Files}
    → load digest files task_id ≡ ok r
    → was_started (suc (length r.events)) r.events ≡ false
    → authorize digest resolve capabilities policy now time snapshot files task_id capability_id
        approvals
      ≡ ok (cmd, files')
    → (r' : TaskRecord) × (load digest files' task_id ≡ ok r')
      × (validate_authorization r' cmd ≡ ok tt)
authorize_executable digest resolve capabilities policy now time snapshot files task_id
      capability_id approvals r {cmd} {files'} l s h =
    let (r₀, c, ev, id, l₀, granted, next, after, e) =
      authorize-Granted digest resolve capabilities policy now time snapshot files task_id
        capability_id approvals h in
    let same : r₀ ≡ r = cc (l₀, l) in
    let fresh : was_started (suc (length r₀.events)) r₀.events ≡ false =
      subst (λ (x : TaskRecord). was_started (suc (length x.events)) x.events ≡ false) (sym same)
        s in
    let cwd = resolve (join_path snapshot.worktree_path c.cwd) in
    (
      with_event r₀ r₀.state ev,
      after,
      subst (λ x. validate_authorization (with_event r₀ r₀.state ev) x ≡ ok tt) (sym e)
          (validate_fresh r₀ ev (command_of task_id c cwd id (suc (length r₀.events))) refl
            (authorization_matches r₀ (current_envelope r₀) c cwd id task_id
              (suc (length r₀.events)) ev next)
            (not_started r₀ (suc (length r₀.events))
              (authorization_data (current_envelope r₀) c cwd id) ev next fresh)),
    )
