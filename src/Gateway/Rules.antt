-- ===== src/Gateway/Rules.antt =====
-- What each check of the gateway establishes when it raises nothing.
use mathlib.Core.Path.{subst}
use adaptive_harness.Prelude.{
  ℕ, String, ◌≡◌, true, false, ◌||◌, List, [], ◌∷◌, map, Option, none, some, arith, eq_iff, In, all,
  any-In, not, ◌&&◌, &&-true, contains, count_if, at_least, at_least_suc, ok, >>=-eq-ok, Bool-cases,
  inl, inr,
}
use adaptive_harness.Paths.{
  PosixPath, parse_path, same_path, same_path-eq, is_relative_to, is_relative_to_of_same,
}
use adaptive_harness.Envelope.{TaskEnvelope, max_commands}
use adaptive_harness.Store.{TaskRecord, current_envelope}
use adaptive_harness.Gateway.Defs.{
  Capability, ProjectPolicy, WorkspaceSnapshot, ScopedApproval, AuthorizedCommand, network_value,
  environment_value,
}
use adaptive_harness.Gateway.Authorize.{
  records_text, has_type, find_capability, validate_workspace, in_scope, validate_write_scope,
  evaluate_policy, check_limits, within_command_budget, is_deny, requires_approval,
  approval_matches, find_approval, approve,
}

-- The workspace is the one that the task is bound to.
pub record SameWorkspace (e : TaskEnvelope) (snapshot : WorkspaceSnapshot) : Type 0 where
  pub repository_id : snapshot.repository_id ≡ e.repository_id
  pub base_sha : snapshot.base_sha ≡ e.base_sha
  pub worktree_path : snapshot.worktree_path ≡ e.worktree_path

-- Each of the paths is an allowed path or lies below one.
abbrev pub EachInScope : List String → List String → Type 0
EachInScope allowed [] = Unit {0}
EachInScope allowed (path ∷ paths) =
    ((scope : String) × In scope allowed
      × (is_relative_to (parse_path path) (parse_path scope) ≡ true))
    × EachInScope allowed paths

-- The project's policy allows the capability.
pub record Allowed (policy : ProjectPolicy) (c : Capability) : Type 0 where
  pub id : contains policy.denied_capabilities c.id ≡ false
  pub declaration : is_deny c.approval_policy ≡ false
  pub network : contains (map network_value policy.allowed_network) (network_value c.network) ≡ true
  pub listener : (c.listener && not policy.allow_listener) ≡ false
  pub environment :
      contains (map environment_value policy.allowed_environments) (environment_value c.environment)
      ≡ true

-- The limits on executions, attempts and commands are not reached.
pub record BelowLimits (r : TaskRecord) (c : Capability) : Type 0 where
  pub executions :
      at_least
        (count_if (records_text "command.authorized" "capability_id" c.id) r.events)
        c.max_executions
      ≡ false
  pub attempts :
      at_least_suc
        (count_if (records_text "command.started" "capability_id" c.id) r.events)
        (current_envelope r).retry_budget
      ≡ false
  pub commands :
      within_command_budget
        (count_if (has_type "command.authorized") r.events)
        (max_commands (current_envelope r))
      ≡ true

-- What is required of an approval: one that matches, where the operation needs one.
abbrev pub ApprovedBy :
    ProjectPolicy
    → ℕ
    → TaskRecord
    → Capability
    → WorkspaceSnapshot
    → List ScopedApproval
    → Option String
    → Type 0
ApprovedBy policy time r c snapshot approvals none = requires_approval policy c ≡ false
ApprovedBy policy time r c snapshot approvals (some id) =
    (a : ScopedApproval) × In a approvals
    × (approval_matches time r c snapshot a ≡ true)
    × (a.id ≡ id)

pub validate_workspace-SameWorkspace :
    (e : TaskEnvelope) (snapshot : WorkspaceSnapshot)
    → validate_workspace e snapshot ≡ ok tt
    → SameWorkspace e snapshot
unfolding validate_workspace
validate_workspace-SameWorkspace e snapshot h = record {
  repository_id = ground (arith, eq_iff snapshot.repository_id e.repository_id);
  base_sha = ground (arith, eq_iff snapshot.base_sha e.base_sha);
  worktree_path = same_path-eq snapshot.worktree_path e.worktree_path (ground arith);
}

pub in_scope-below :
    (allowed : List String) (candidate : PosixPath)
    → in_scope allowed candidate ≡ true
    → (scope : String) × In scope allowed × (is_relative_to candidate (parse_path scope) ≡ true)
unfolding in_scope
in_scope-below allowed candidate h =
    let (scope, i, t) =
      any-In
        (λ scope.
          same_path candidate (parse_path scope) || is_relative_to candidate (parse_path scope))
        allowed h in
    (scope, i, is_relative_to_of_same candidate (parse_path scope) t)

all-EachInScope :
    (allowed paths : List String)
    → all (λ path. in_scope allowed (parse_path path)) paths ≡ true
    → EachInScope allowed paths
all-EachInScope allowed [] h = tt
all-EachInScope allowed (path ∷ paths) h =
    let (t, rest) = &&-true (in_scope allowed (parse_path path)) _ h in
    (in_scope-below allowed (parse_path path) t, all-EachInScope allowed paths rest)

pub validate_write_scope-EachInScope :
    (e : TaskEnvelope) (c : Capability)
    → validate_write_scope e c ≡ ok tt
    → EachInScope e.allowed_scope c.write_paths
unfolding validate_write_scope
validate_write_scope-EachInScope e c h =
    all-EachInScope e.allowed_scope c.write_paths (ground arith)

pub evaluate_policy-Allowed :
    (policy : ProjectPolicy) (c : Capability) → evaluate_policy policy c ≡ ok tt → Allowed policy c
unfolding evaluate_policy
evaluate_policy-Allowed policy c h = record {
  id = ground arith;
  declaration = ground arith;
  network = ground arith;
  listener = ground arith;
  environment = ground arith;
}

pub check_limits-BelowLimits :
    (r : TaskRecord) (c : Capability) → check_limits r c ≡ ok tt → BelowLimits r c
unfolding check_limits
check_limits-BelowLimits r c h = record {
  executions = ground arith;
  attempts = ground arith;
  commands = ground arith;
}

module _ (policy : ProjectPolicy) (time : ℕ) (r : TaskRecord) (c : Capability)
    (snapshot : WorkspaceSnapshot) where
  find_approval-In :
      (approvals : List ScopedApproval) {a : ScopedApproval}
      → find_approval time r c snapshot approvals ≡ ok a
      → In a approvals × (approval_matches time r c snapshot a ≡ true)
  unfolding find_approval
  find_approval-In [] h = cc
  find_approval-In (b ∷ approvals) {a} h =
      elim (Bool-cases (approval_matches time r c snapshot b)) [
        | inl t ↦
            let p : b ≡ a = ground arith in
            (inl p, subst (λ x. approval_matches time r c snapshot x ≡ true) p t)
        | inr f ↦ let (i, t) = find_approval-In approvals (ground arith) in (inr i, t)
      ]

  pub approve-ApprovedBy :
      (approvals : List ScopedApproval) (id : Option String)
      → approve policy time r c snapshot approvals ≡ ok id
      → ApprovedBy policy time r c snapshot approvals id
  unfolding approve
  approve-ApprovedBy approvals none h = ground arith
  approve-ApprovedBy approvals (some id) h = elim (Bool-cases (requires_approval policy c)) [
    | inl q ↦
        let (a, f, e) =
          >>=-eq-ok (find_approval time r c snapshot approvals) (λ a. ok (some a.id)) (rw q at h) in
        let (i, t) = find_approval-In approvals f in (a, i, t, ground arith)
    | inr q ↦ ground arith
  ]

-- All that a granted authorization has established.
pub record Granted (capabilities : List Capability) (policy : ProjectPolicy) (time : ℕ)
    (snapshot : WorkspaceSnapshot) (id : String) (approvals : List ScopedApproval) (r : TaskRecord)
    (c : Capability) (approval_id : Option String) : Type 0 where
  pub found : find_capability capabilities id ≡ some c
  pub requested : contains (current_envelope r).requested_capabilities id ≡ true
  pub workspace : SameWorkspace (current_envelope r) snapshot
  pub writes : EachInScope (current_envelope r).allowed_scope c.write_paths
  pub allowed : Allowed policy c
  pub limits : BelowLimits r c
  pub approved : ApprovedBy policy time r c snapshot approvals approval_id

-- The command that is authorized: the capability's, in its directory of the worktree.
abbrev pub command_of : String → Capability → PosixPath → Option String → ℕ → AuthorizedCommand
command_of task_id c cwd approval_id sequence = record {
  task_id = task_id;
  capability_id = c.id;
  argv = c.argv;
  cwd = cwd;
  timeout_seconds = c.timeout_seconds;
  approval_id = approval_id;
  authorization_event_sequence = sequence;
  stop_on_exit_codes = c.stop_on_exit_codes;
  read_paths = c.read_paths;
  write_paths = c.write_paths;
  network = c.network;
  listener = c.listener;
}
