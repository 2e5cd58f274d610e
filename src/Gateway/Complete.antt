-- ===== src/Gateway/Complete.antt =====
-- When the gateway authorizes: it refuses nothing beyond the conditions that a granted
-- authorization has.
use mathlib.Core.Path.{subst}
use adaptive_harness.Prelude.{
  ℕ, suc, String, ◌≡◌, refl, sym, ◌⊎◌, inl, inr, true, false, ◌||◌, ◌=ˢ◌, List, [], ◌∷◌, Option,
  none, some, arith, contains, length, In, In-any, all, eq_refl, ok, Bool-cases,
}
use adaptive_harness.Paths.{
  PosixPath, parse_path, same_path, same_path_refl, is_relative_to, join_path,
}
use adaptive_harness.Envelope.{TaskEnvelope}
use adaptive_harness.Store.{TaskRecord, Files, is_terminal, current_envelope, load, write}
use adaptive_harness.Store.History.{with_event}
use adaptive_harness.Store.Progress.{next_event, append_event_total}
use adaptive_harness.Gateway.Defs.{Capability, ProjectPolicy, WorkspaceSnapshot, ScopedApproval}
use adaptive_harness.Gateway.Authorize.{
  find_capability, validate_workspace, in_scope, validate_write_scope, evaluate_policy,
  check_limits, requires_approval, approval_matches, find_approval, approve, authorization_data,
  authorize,
}
use adaptive_harness.Gateway.Rules.{SameWorkspace, EachInScope, Allowed, BelowLimits, command_of}
use adaptive_harness.Gateway.Sound.{last_sequence-snoc}

SameWorkspace-validate :
    (e : TaskEnvelope) (snapshot : WorkspaceSnapshot)
    → SameWorkspace e snapshot
    → validate_workspace e snapshot ≡ ok tt
unfolding validate_workspace
SameWorkspace-validate e snapshot w =
    rw
      (
        w.repository_id,
        w.base_sha,
        w.worktree_path,
        eq_refl e.repository_id,
        eq_refl e.base_sha,
        same_path_refl e.worktree_path,
      )
      refl

EachInScope-all :
    (allowed paths : List String)
    → EachInScope allowed paths
    → all (λ path. in_scope allowed (parse_path path)) paths ≡ true
unfolding in_scope
EachInScope-all allowed [] each = refl
EachInScope-all allowed (path ∷ paths) ((scope, i, below), each) =
    rw
      (
        In-any
            (λ s.
              same_path (parse_path path) (parse_path s)
              || is_relative_to (parse_path path) (parse_path s))
            allowed scope i (ground arith),
        EachInScope-all allowed paths each,
      )
      refl

EachInScope-validate :
    (e : TaskEnvelope) (c : Capability)
    → EachInScope e.allowed_scope c.write_paths
    → validate_write_scope e c ≡ ok tt
unfolding validate_write_scope
EachInScope-validate e c each = rw (EachInScope-all e.allowed_scope c.write_paths each) refl

Allowed-evaluate :
    (policy : ProjectPolicy) (c : Capability) → Allowed policy c → evaluate_policy policy c ≡ ok tt
unfolding evaluate_policy
Allowed-evaluate policy c a = rw (a.id, a.declaration, a.network, a.listener, a.environment) refl

BelowLimits-check : (r : TaskRecord) (c : Capability) → BelowLimits r c → check_limits r c ≡ ok tt
unfolding check_limits
BelowLimits-check r c b = rw (b.executions, b.attempts, b.commands) refl

module _ (policy : ProjectPolicy) (time : ℕ) (r : TaskRecord) (c : Capability)
    (snapshot : WorkspaceSnapshot) where
  -- An approval is not needed, or one of those that are given matches.
  abbrev pub Approvable : List ScopedApproval → Type 0
  Approvable approvals =
      (requires_approval policy c ≡ false)
      ⊎ ((a : ScopedApproval) × In a approvals × (approval_matches time r c snapshot a ≡ true))

  find_approval_total :
      (approvals : List ScopedApproval) (a : ScopedApproval)
      → In a approvals
      → approval_matches time r c snapshot a ≡ true
      → (b : ScopedApproval) × (find_approval time r c snapshot approvals ≡ ok b)
  unfolding find_approval
  find_approval_total [] a i m = elim i [ ]
  find_approval_total (x ∷ approvals) a (inl e) m =
      (x, rw (subst (λ y. approval_matches time r c snapshot y ≡ true) (sym e) m) refl)
  find_approval_total (x ∷ approvals) a (inr i) m =
      elim (Bool-cases (approval_matches time r c snapshot x)) [
        | inl y ↦ (x, rw y refl)
        | inr n ↦ let (b, f) = find_approval_total approvals a i m in (b, rw n f)
      ]

  approve_total :
      (approvals : List ScopedApproval)
      → Approvable approvals
      → (id : Option String) × (approve policy time r c snapshot approvals ≡ ok id)
  unfolding approve
  approve_total approvals q = elim (Bool-cases (requires_approval policy c)) [
    | inr n ↦ (none, rw n refl)
    | inl y ↦ elim q [
      | inl n ↦ cc
      | inr (a, i, m) ↦
          let (b, f) = find_approval_total approvals a i m in (some b.id, rw (y, f) refl)
    ]
  ]

module _ (digest : TaskRecord → String) (resolve : PosixPath → PosixPath) where
  -- The gateway authorizes a declared capability that the loaded, not terminal record requests, in the
  -- workspace that the task is bound to, with its write paths in the allowed scope, allowed by the
  -- policy, below the limits, and with a matching approval among those given where one is required.
  -- The command is the capability's own, and the record is written with the event of the
  -- authorization.
  pub authorize_total :
      (capabilities : List Capability) (policy : ProjectPolicy) (now : String) (time : ℕ)
      (snapshot : WorkspaceSnapshot) (files : Files) (task_id capability_id : String)
      (approvals : List ScopedApproval) (r : TaskRecord) (c : Capability)
      → load digest files task_id ≡ ok r
      → is_terminal r.state ≡ false
      → (now =ˢ "") ≡ false
      → find_capability capabilities capability_id ≡ some c
      → contains (current_envelope r).requested_capabilities capability_id ≡ true
      → SameWorkspace (current_envelope r) snapshot
      → EachInScope (current_envelope r).allowed_scope c.write_paths
      → Allowed policy c
      → BelowLimits r c
      → Approvable policy time r c snapshot approvals
      → (approval_id : Option String) × (let cwd =
            resolve (join_path snapshot.worktree_path c.cwd) in
          let ev =
            next_event now r "command.authorized"
              (authorization_data (current_envelope r) c cwd approval_id) in
          let r' = with_event r r.state ev in
          authorize digest resolve capabilities policy now time snapshot files task_id capability_id
            approvals
          ≡ ok (
            command_of task_id c cwd approval_id (suc (length r.events)),
            write digest files task_id r',
          ))
  unfolding authorize
  authorize_total capabilities policy now time snapshot files task_id capability_id approvals r c
        loaded active clock found requested workspace writes allowed limits approvable =
      let (id, approved) = approve_total policy time r c snapshot approvals approvable in
      let cwd = resolve (join_path snapshot.worktree_path c.cwd) in
      let payload = authorization_data (current_envelope r) c cwd id in
      (
        id,
        rw
            (
              loaded,
              found,
              requested,
              SameWorkspace-validate (current_envelope r) snapshot workspace,
              EachInScope-validate (current_envelope r) c writes,
              Allowed-evaluate policy c allowed,
              BelowLimits-check r c limits,
              approved,
              append_event_total digest now files task_id r loaded clock "command.authorized"
                  payload active refl,
              last_sequence-snoc r.events (next_event now r "command.authorized" payload),
            )
            refl,
      )
