-- ===== src/Service/Whole.antt =====
-- A run of a capability, from the authorization to the outcome.
use mathlib.Core.Path.{subst}
use adaptive_harness.Service.Granted.{files_at-with_files}
use adaptive_harness.Prelude.{
  ℕ, suc, String, Bool, true, ◌≡◌, ◌=ˢ◌, length, refl, sym, ap, ◌∙◌, List, Option, Result, ok, err,
  >>=-eq-ok, guard-eq-ok, capability_invariant, ok_path,
}
use adaptive_harness.Paths.{PosixPath, join_path}
use adaptive_harness.Store.{TaskEvent, TaskRecord, Files, current_envelope, load}
use adaptive_harness.Store.History.{with_event}
use adaptive_harness.Store.Commits.{Next}
use adaptive_harness.Gateway.{
  Capability, default_policy, ScopedApproval, AuthorizedCommand, unique_capabilities,
  authorization_data,
}
use adaptive_harness.Executor.{
  World, Artifacts, Codec, ExecutionLimits, Host, CommandResult, execute, Prepared, next_attempt,
  started_data, finished_data, outcome_of, result_of, command_for,
}
use adaptive_harness.Gateway.Rules.{Granted, command_of}
use adaptive_harness.Gateway.Sound.{authorize-Granted}
use adaptive_harness.Executor.Recorded.{execute_recorded}
use adaptive_harness.Service.{
  Clock, Place, Stores, ServiceFacts, files_at, with_files, store_for, authorize_capability,
  execute_authorized, run_at, run_capability, recorded_approvals,
}

module _ (digest : TaskRecord → String) (isalnum : ℕ → Bool) (clock : Clock) (facts : ServiceFacts)
    (resolve : PosixPath → PosixPath) (codec : Codec) (limits : ExecutionLimits)
    (secrets : List String) (artifact_root : Place → PosixPath) (host : Host) (stores : Stores)
    (artifacts : Artifacts) (task_id capability_id : String) where
  abbrev run_in : Result Place → (Stores × Artifacts) × Result CommandResult
  run_in place =
      run_at digest isalnum clock facts resolve codec limits secrets artifact_root host stores
        artifacts task_id capability_id place

  abbrev execute_in :
      Place → Result (AuthorizedCommand × Files) → (Stores × Artifacts) × Result CommandResult
  execute_in place a =
      execute_authorized digest isalnum clock facts resolve codec limits secrets artifact_root host
        place stores artifacts a

  abbrev authorize_in : Place → Result (AuthorizedCommand × Files)
  authorize_in place =
      authorize_capability digest isalnum clock facts resolve codec limits secrets artifact_root
        host (files_at place stores) task_id capability_id

  abbrev execution : Place → AuthorizedCommand → Files → World × Result CommandResult
  execution place a files =
      execute digest codec limits secrets (artifact_root place) host files
        (record { records = files; artifacts = artifacts }) a

  run_placed :
      (o : Result Place) {x : Stores × Artifacts} {result : CommandResult}
      → run_in o ≡ (x, ok result)
      → (place : Place) × (o ≡ ok place) × (execute_in place (authorize_in place) ≡ (x, ok result))
  run_placed (err e) h = cc (ap (λ y. y.1) h)
  run_placed (ok place) h = (place, refl, h)

  run_executed :
      (place : Place) (o : Result (AuthorizedCommand × Files)) {stores' : Stores}
      {artifacts' : Artifacts} {result : CommandResult}
      → execute_in place o ≡ ((stores', artifacts'), ok result)
      → (a : AuthorizedCommand) × (files : Files) × (o ≡ ok (a, files))
        × (let w = (execution place a files).0 in
            (execution place a files ≡ (w, ok result))
            × (with_files place w.records stores ≡ stores'))
  run_executed place (err e) h = cc (ap (λ y. y.1) h)
  run_executed place (ok (a, files)) h =
      (a, files, refl, (ap (λ y. ((execution place a files).0, y.1)) h, ap (λ y. y.0.0) h))

  -- A run in full: the capability is a declared one, the gateway has granted it with the approvals
  -- that the record holds, and the three events hold the declaration, the attempt and the outcome of
  -- the process that the authorized command launches.
  pub record RecordedRun (stores' : Stores) (result : CommandResult) : Type 0 where
    pub place : Place
    pub stands : store_for digest facts.snapshot stores task_id ≡ ok place
    pub capabilities : List Capability
    pub declared : facts.capabilities ≡ ok capabilities
    pub unique : unique_capabilities capabilities ≡ true
    pub approvals : List ScopedApproval
    pub recorded :
        recorded_approvals digest isalnum clock facts (files_at place stores) task_id capability_id
        ≡ ok approvals
    pub r : TaskRecord
    pub loaded : load digest (files_at place stores) task_id ≡ ok r
    pub c : Capability
    pub approval_id : Option String
    pub granted :
        Granted capabilities default_policy facts.time facts.snapshot capability_id approvals r c
          approval_id
    pub a : AuthorizedCommand
    pub command :
        a
        ≡ command_of task_id c
            (resolve (join_path facts.snapshot.worktree_path c.cwd))
            approval_id
            (suc (length r.events))
    pub authorized : TaskEvent
    pub authorizes :
        Next r "command.authorized"
          (authorization_data
            (current_envelope r)
            c
            (resolve (join_path facts.snapshot.worktree_path c.cwd))
            approval_id)
          authorized
    pub p : Prepared
    pub enforced : p.sandbox_enforced ≡ ((current_envelope r).integration_mode =ˢ "enforced")
    pub attempt : p.attempt ≡ next_attempt (with_event r r.state authorized) a
    pub launched : command_for host p.sandbox_enforced a ≡ ok p.command
    pub start : TaskEvent
    pub starts :
        Next (with_event r r.state authorized) "command.started" (started_data a p.attempt) start
    pub finished : TaskEvent
    pub finishes :
        Next
          (with_event (with_event r r.state authorized) r.state start)
          "command.finished"
          (finished_data limits a p.attempt p.sandbox_enforced
            (join_path p.artifact_dir "stdout.txt")
            (join_path p.artifact_dir "stderr.txt")
            (outcome_of codec limits secrets (host.launch p.command)))
          finished
    pub stored :
        load digest (files_at place stores') task_id
        ≡ ok (
            with_event
              (with_event (with_event r r.state authorized) r.state start)
              r.state
              finished)
    pub returned :
        result
        ≡ result_of a p.attempt
            (join_path p.artifact_dir "stdout.txt")
            (join_path p.artifact_dir "stderr.txt")
            (outcome_of codec limits secrets (host.launch p.command))

  -- What an execution that finds the record `r` settles, and the record and result that it leaves.
  abbrev Executed :
      AuthorizedCommand → Prepared → TaskEvent → TaskEvent → Files → TaskRecord → Type 0
  Executed a p start finished records r =
      (p.sandbox_enforced ≡ ((current_envelope r).integration_mode =ˢ "enforced"))
      × (p.attempt ≡ next_attempt r a)
      × Next r "command.started" (started_data a p.attempt) start
      × Next (with_event r r.state start) "command.finished"
          (finished_data limits a p.attempt p.sandbox_enforced
            (join_path p.artifact_dir "stdout.txt") (join_path p.artifact_dir "stderr.txt")
            (outcome_of codec limits secrets (host.launch p.command)))
          finished
      × (load digest records a.task_id
          ≡ ok (with_event (with_event r r.state start) r.state finished))

  -- When a run of a capability returns, its task was found in one store, and the gateway has granted
  -- the capability that the declared ones hold under the id, with the recorded approvals and under
  -- the default policy. The record that loads from that store has exactly three events more: the
  -- authorization with the capability's declaration, the start of the command that was authorized,
  -- and its finish with the outcome of the process that this command launches, in the sandbox where
  -- the envelope asks for it. The result is that outcome.
  pub run_recorded :
      {stores' : Stores} {artifacts' : Artifacts} {result : CommandResult}
      → run_capability digest isalnum clock facts resolve codec limits secrets artifact_root host
          stores artifacts task_id capability_id
        ≡ ((stores', artifacts'), ok result)
      → RecordedRun stores' result
  unfolding run_capability authorize_capability
  run_recorded {stores' = stores'} {result = result} h =
      let (place, stands, h₁) = run_placed (store_for digest facts.snapshot stores task_id) h in
      let (a, files, granted, (executes, after)) = run_executed place (authorize_in place) h₁ in
      let (capabilities, declared, g₁) = >>=-eq-ok facts.capabilities _ granted in
      let (unique, g₂) = guard-eq-ok (unique_capabilities capabilities) capability_invariant _ g₁ in
      let (approvals, recorded, g₃) =
        >>=-eq-ok
          (recorded_approvals digest isalnum clock facts (files_at place stores) task_id
            capability_id)
          _ g₂ in
      let (r, c, ev, approval_id, loads, grants, n, l, command) =
        authorize-Granted digest resolve capabilities default_policy facts.now facts.time
          facts.snapshot (files_at place stores) task_id capability_id approvals g₃ in
      let (r₁, p, start, finished, ready, n₁, n₂, l₂, same) =
        execute_recorded digest codec limits secrets (artifact_root place) host files
          (record { records = files; artifacts = artifacts }) a executes in
      let w = (execution place a files).0 in
      let id : a.task_id ≡ task_id = ap (λ x. x.task_id) command in
      let one : r₁ ≡ with_event r r.state ev =
        ok_path (sym ready.loaded ∙ ap (load digest files) id ∙ l) in
      let kept : w.records ≡ files_at place stores' =
        sym (files_at-with_files place w.records stores) ∙ ap (files_at place) after in
      let (enforced, attempt, starts, finishes, final) =
        subst (Executed a p start finished w.records) one
          (ready.enforced, ready.attempt, n₁, n₂, l₂) in
      record {
        place = place;
        stands = stands;
        capabilities = capabilities;
        declared = declared;
        unique = unique;
        approvals = approvals;
        recorded = recorded;
        r = r;
        loaded = loads;
        c = c;
        approval_id = approval_id;
        granted = grants;
        a = a;
        command = command;
        authorized = ev;
        authorizes = n;
        p = p;
        enforced = enforced;
        attempt = attempt;
        launched = ready.command;
        start = start;
        starts = starts;
        finished = finished;
        finishes = finishes;
        stored =
            ap (λ x. load digest x task_id) (sym kept)
            ∙ ap (load digest w.records) (sym id)
            ∙ final;
        returned = same;
      }
