-- ===== src/Service/Runs.antt =====
-- Approvals and runs: `plan_approval`, `grant_approval`, `_recorded_approvals`, `run_capability` and
-- `verify` of `TaskService`.
use adaptive_harness.Prelude.{
  ℕ, ◌+◌, ◌*◌, String, Bool, ◌&&◌, List, [], ◌∷◌, Option, none, some, ◌=ˢ◌, contains, same_list,
  if◌then◌else◌, ℤ, pos, negsuc, is_positive, Result, ok, err, value_error, capability_invariant,
  guard, ◌>>=◌, ◌>>◌,
}
use adaptive_harness.Paths.{PosixPath, same_path}
use adaptive_harness.Json.{same_bool}
use adaptive_harness.Store.{TaskEvent, TaskRecord, Files, current_envelope, load, append_event}
use adaptive_harness.Gateway.{
  network_value, environment_value, side_effect_values, Capability, default_policy,
  WorkspaceSnapshot, ScopedApproval, AuthorizedCommand, valid_approval, records_text,
  unique_capabilities, find_capability, authorize,
}
use adaptive_harness.Executor.{Artifacts, Codec, ExecutionLimits, Host, CommandResult, execute}
use adaptive_harness.Verifier.{Facts, VerificationReport, verify}
use adaptive_harness.Service.Approvals.{Clock, approval_payload, approval_from_payload}
use adaptive_harness.Service.Places.{Place, Stores, files_at, with_files, store_for, at_place}

-- What one call observes: the capabilities that are declared, the worktree, the clock as the store's
-- text and as an instant, and the id of a new approval.
pub record ServiceFacts : Type 0 where
  pub capabilities : Result (List Capability)
  pub snapshot : WorkspaceSnapshot
  pub now : String
  pub time : ℕ
  pub approval_id : String

abbrev pub or_unknown : Option Capability → Result Capability
or_unknown none = err value_error
or_unknown (some c) = ok c

-- `timedelta(minutes=n)`, in microseconds; only a positive number of minutes is asked for.
abbrev pub minutes : ℤ → ℕ
minutes (pos n) = 60000000 * n
minutes (negsuc n) = 0

-- `_capability`
abbrev pub declared_capability : ServiceFacts → String → Result Capability
declared_capability facts id = do
  capabilities ← facts.capabilities
  or_unknown (find_capability capabilities id)

-- The two approvals are for the same commit, worktree, paths, effects and environment.
abbrev pub same_approval_scope : ScopedApproval → ScopedApproval → Bool
same_approval_scope a b =
    a.base_sha =ˢ b.base_sha
    && same_path a.worktree_path b.worktree_path
    && same_list a.read_paths b.read_paths
    && same_list a.write_paths b.write_paths
    && same_list (side_effect_values a.side_effects) (side_effect_values b.side_effects)
    && network_value a.network =ˢ network_value b.network
    && same_bool a.listener b.listener
    && environment_value a.environment =ˢ environment_value b.environment

module _ (digest : TaskRecord → String) (isalnum : ℕ → Bool) (clock : Clock)
    (facts : ServiceFacts) where
  -- `plan_approval`
  unfoldable pub plan_approval : Stores → String → String → ℤ → ℤ → Result ScopedApproval
  unfolding store_for
  plan_approval stores task_id capability_id max_uses valid_for_minutes = do
    guard (is_positive max_uses) value_error
    guard (is_positive valid_for_minutes) value_error
    place ← store_for digest facts.snapshot stores task_id
    r ← load digest (files_at place stores) task_id
    c ← declared_capability facts capability_id
    guard (contains (current_envelope r).requested_capabilities capability_id) value_error
    let e = current_envelope r
    guard
        (facts.snapshot.repository_id =ˢ e.repository_id
          && facts.snapshot.base_sha =ˢ e.base_sha
          && same_path facts.snapshot.worktree_path e.worktree_path)
        value_error
    let approval : ScopedApproval = record {
      id = facts.approval_id;
      task_id = task_id;
      capability_id = capability_id;
      base_sha = facts.snapshot.base_sha;
      worktree_path = facts.snapshot.worktree_path;
      read_paths = c.read_paths;
      write_paths = c.write_paths;
      side_effects = c.side_effects;
      network = c.network;
      listener = c.listener;
      environment = c.environment;
      max_uses = max_uses;
      expires_at = facts.time + minutes valid_for_minutes;
    }
    guard (valid_approval isalnum approval) capability_invariant
    ok approval

  -- `grant_approval`
  unfoldable pub grant_approval : Stores → ScopedApproval → Result (TaskRecord × Stores)
  unfolding plan_approval store_for
  grant_approval stores approval = do
    current ←
        plan_approval stores approval.task_id approval.capability_id approval.max_uses (pos 15)
    guard (same_approval_scope current approval) value_error
    place ← store_for digest facts.snapshot stores approval.task_id
    at_place digest facts.snapshot
        (λ files.
          append_event digest facts.now files approval.task_id "approval.granted"
            (approval_payload clock approval))
        stores place

  -- The loop of `_recorded_approvals`.
  unfoldable pub approvals_in : String → List TaskEvent → Result (List ScopedApproval)
  unfolding approval_from_payload
  approvals_in capability_id [] = ok []
  approvals_in capability_id (ev ∷ events) =
      if records_text "approval.granted" "capability_id" capability_id ev
      then (do
        approval ← approval_from_payload clock isalnum ev.payload
        rest ← approvals_in capability_id events
        ok (approval ∷ rest))
      else approvals_in capability_id events

  -- `_recorded_approvals`
  unfoldable pub recorded_approvals : Files → String → String → Result (List ScopedApproval)
  unfolding approvals_in
  recorded_approvals files task_id capability_id = do
    r ← load digest files task_id
    approvals_in capability_id r.events

  module _ (resolve : PosixPath → PosixPath) (codec : Codec) (limits : ExecutionLimits)
      (secrets : List String) (artifact_root : Place → PosixPath) (host : Host) where
    -- The authorization that `run_capability` asks for, in the store that holds the task.
    unfoldable pub authorize_capability :
        Files → String → String → Result (AuthorizedCommand × Files)
    unfolding recorded_approvals
    authorize_capability files task_id capability_id = do
      capabilities ← facts.capabilities
      guard (unique_capabilities capabilities) capability_invariant
      approvals ← recorded_approvals files task_id capability_id
      authorize digest resolve capabilities default_policy facts.now facts.time facts.snapshot files
          task_id capability_id approvals

    abbrev pub execute_authorized :
        Place
        → Stores
        → Artifacts
        → Result (AuthorizedCommand × Files)
        → (Stores × Artifacts) × Result CommandResult
    execute_authorized place stores artifacts (err e) = ((stores, artifacts), err e)
    execute_authorized place stores artifacts (ok (a, files)) =
        let (w, result) =
          execute digest codec limits secrets (artifact_root place) host files
            (record { records = files; artifacts = artifacts }) a in
        ((with_files place w.records stores, w.artifacts), result)

    abbrev pub run_at :
        Stores
        → Artifacts
        → String
        → String
        → Result Place
        → (Stores × Artifacts) × Result CommandResult
    run_at stores artifacts task_id capability_id (err e) = ((stores, artifacts), err e)
    run_at stores artifacts task_id capability_id (ok place) =
        execute_authorized place stores artifacts
          (authorize_capability (files_at place stores) task_id capability_id)

    -- `run_capability`. The operation lock is held, so the executor finds the records as the gateway
    -- left them; what was written before an exception stays written.
    unfoldable pub run_capability :
        Stores → Artifacts → String → String → (Stores × Artifacts) × Result CommandResult
    unfolding store_for authorize_capability
    run_capability stores artifacts task_id capability_id =
        run_at stores artifacts task_id capability_id
          (store_for digest facts.snapshot stores task_id)

  -- `verify`
  unfoldable pub verify_task :
      Facts
      → (Place → PosixPath)
      → List String
      → Stores
      → String
      → Bool
      → Option String
      → Result (VerificationReport × Stores)
  unfolding store_for
  verify_task observed artifact_root secrets stores task_id accept_risk risk_reason = do
    place ← store_for digest facts.snapshot stores task_id
    at_place digest facts.snapshot
        (λ files.
          verify observed (artifact_root place) secrets digest files files task_id accept_risk
            risk_reason)
        stores place
