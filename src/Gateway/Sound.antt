-- ===== src/Gateway/Sound.antt =====
-- What an authorization that is granted has established, and what it leaves in the record.
use mathlib.Core.Path.{subst}
use adaptive_harness.Prelude.{
  ℕ, suc, String, ◌≡◌, refl, sym, ap, ◌∙◌, List, [], ◌∷◌, ◌++◌, Option, some, arith, contains,
  length, last_or-append, Result, ok, >>=-eq-ok, guard-eq-ok, capability_denied, Denial,
}
use adaptive_harness.Paths.{PosixPath, join_path}
use adaptive_harness.Json.{Fields}
use adaptive_harness.Store.{TaskEvent, TaskRecord, Files, current_envelope, load, append_event}
use adaptive_harness.Store.History.{with_event}
use adaptive_harness.Store.Commits.{Next, append_event-Commit, load-Commit}
use adaptive_harness.Gateway.Defs.{
  Capability, ProjectPolicy, WorkspaceSnapshot, ScopedApproval, AuthorizedCommand,
}
use adaptive_harness.Gateway.Authorize.{
  find_capability, validate_workspace, validate_write_scope, evaluate_policy, check_limits, approve,
  authorization_data, last_sequence, find_or_deny, authorize,
}
use adaptive_harness.Gateway.Rules.{
  Granted, command_of, validate_workspace-SameWorkspace, validate_write_scope-EachInScope,
  evaluate_policy-Allowed, check_limits-BelowLimits, approve-ApprovedBy,
}

pub last_sequence-snoc :
    (events : List TaskEvent) (ev : TaskEvent) → last_sequence (events ++ ev ∷ []) ≡ ev.sequence
last_sequence-snoc [] ev = refl
last_sequence-snoc (x ∷ events) ev = ap (λ e. e.sequence) (last_or-append x events ev)

found_some : {o : Option Capability} {c : Capability} → find_or_deny o ≡ ok c → o ≡ some c
found_some {o} h = ground arith

ok_pair :
    {A B : Type 0} {a a' : A} {b b' : B}
    → ◌≡◌ {A = Result (A × B)} (ok (a, b)) (ok (a', b'))
    → (a ≡ a') × (b ≡ b')
ok_pair h = (cc, cc)

module _ (digest : TaskRecord → String) where
  -- An event that is appended to a loaded record: the record that loads afterwards.
  pub appended :
      (now : String) (files : Files) (id type : String) (payload : Fields) (r : TaskRecord)
      {r' : TaskRecord} {files' : Files}
      → load digest files id ≡ ok r
      → append_event digest now files id type payload ≡ ok (r', files')
      → (ev : TaskEvent) × Next r type payload ev
        × (load digest files' id ≡ ok (with_event r r.state ev))
        × (last_sequence r'.events ≡ suc (length r.events))
  appended now files id type payload r {r'} {files'} l h =
      let (r₀, ev, n, c, q) = append_event-Commit digest now files id type payload h in
      let same : r₀ ≡ r = cc (c.loaded, l) in
      let n' : Next r type payload ev = subst (λ x. Next x type payload ev) same n in
      let q' : r' ≡ with_event r r.state ev = subst (λ x. r' ≡ with_event x x.state ev) same q in
      (
        ev,
        n',
        (load-Commit digest files id c).0 ∙ ap ok q',
        ap (λ x. last_sequence x.events) q' ∙ last_sequence-snoc r.events ev ∙ n'.sequence,
      )

module _ (digest : TaskRecord → String) (resolve : PosixPath → PosixPath) where
  -- A granted authorization has found the capability among those requested, in the workspace that
  -- the task is bound to, with its write paths in the allowed scope, allowed by the policy, below
  -- the execution, retry and command limits, and with a matching approval where one is required.
  -- The command is the capability's own. The task's record has one more event, which loads again,
  -- holds the capability's declaration and the approval, and whose number the command carries.
  pub authorize-Granted :
      (capabilities : List Capability) (policy : ProjectPolicy) (now : String) (time : ℕ)
      (snapshot : WorkspaceSnapshot) (files : Files) (task_id capability_id : String)
      (approvals : List ScopedApproval) {cmd : AuthorizedCommand} {files' : Files}
      → authorize digest resolve capabilities policy now time snapshot files task_id capability_id
          approvals
        ≡ ok (cmd, files')
      → (r : TaskRecord) × (c : Capability) × (ev : TaskEvent) × (approval_id : Option String)
        × (load digest files task_id ≡ ok r)
        × Granted capabilities policy time snapshot capability_id approvals r c approval_id
        × Next r "command.authorized"
            (authorization_data
              (current_envelope r)
              c
              (resolve (join_path snapshot.worktree_path c.cwd))
              approval_id)
            ev
        × (load digest files' task_id ≡ ok (with_event r r.state ev))
        × (cmd
            ≡ command_of task_id c
                (resolve (join_path snapshot.worktree_path c.cwd))
                approval_id
                (suc (length r.events)))
  unfolding authorize
  authorize-Granted capabilities policy now time snapshot files task_id capability_id approvals h =
      let (r, l, h₁) = >>=-eq-ok (load digest files task_id) _ h in
      let (c, f, h₂) = >>=-eq-ok (find_or_deny (find_capability capabilities capability_id)) _ h₁ in
      let (q, h₃) =
        guard-eq-ok (contains (current_envelope r).requested_capabilities capability_id)
          (capability_denied Denial.not_requested) _ h₂ in
      let (u₁, w, h₄) = >>=-eq-ok (validate_workspace (current_envelope r) snapshot) _ h₃ in
      let (u₂, s, h₅) = >>=-eq-ok (validate_write_scope (current_envelope r) c) _ h₄ in
      let (u₃, p, h₆) = >>=-eq-ok (evaluate_policy policy c) _ h₅ in
      let (u₄, m, h₇) = >>=-eq-ok (check_limits r c) _ h₆ in
      let (a, v, h₈) = >>=-eq-ok (approve policy time r c snapshot approvals) _ h₇ in
      let cwd = resolve (join_path snapshot.worktree_path c.cwd) in
      let payload = authorization_data (current_envelope r) c cwd a in
      let (x, e, g) =
        >>=-eq-ok (append_event digest now files task_id "command.authorized" payload) _ h₈ in
      let (ev, n, after, number) =
        appended digest now files task_id "command.authorized" payload r l e in
      let (cmd_eq, files_eq) = ok_pair g in
      (
        r,
        c,
        ev,
        a,
        l,
        record {
          found = found_some f;
          requested = q;
          workspace = validate_workspace-SameWorkspace (current_envelope r) snapshot w;
          writes = validate_write_scope-EachInScope (current_envelope r) c s;
          allowed = evaluate_policy-Allowed policy c p;
          limits = check_limits-BelowLimits r c m;
          approved = approve-ApprovedBy policy time r c snapshot approvals a v;
        },
        n,
        subst (λ fs. load digest fs task_id ≡ ok (with_event r r.state ev)) files_eq after,
        sym cmd_eq ∙ ap (command_of task_id c cwd a) number,
      )
