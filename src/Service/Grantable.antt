-- ===== src/Service/Grantable.antt =====
-- A planned approval can be granted.
use mathlib.Core.Path.{subst}
use adaptive_harness.Prelude.{
  ℕ, ◌+◌, String, ◌≡◌, refl, Bool, true, false, ◌&&◌, arith, ◌=ˢ◌, eq_refl, contains,
  same_list_refl, ℤ, pos, is_positive, ok, value_error, capability_invariant, >>=-eq-ok,
  guard-eq-ok, ok_path,
}
use adaptive_harness.Paths.{same_path, same_path_refl}
use adaptive_harness.Json.{same_bool}
use adaptive_harness.Store.{TaskRecord, is_terminal, current_envelope, load, write}
use adaptive_harness.Store.History.{with_event}
use adaptive_harness.Store.Progress.{next_event, append_event_total}
use adaptive_harness.Gateway.{
  Capability, ScopedApproval, valid_approval, is_identifier, side_effect_values, network_value,
  environment_value,
}
use adaptive_harness.Service.{
  Clock, approval_payload, Place, Stores, files_at, with_files, store_for, ServiceFacts, minutes,
  declared_capability, same_approval_scope, plan_approval, grant_approval,
}

-- The facts of a later call: the same worktree and capabilities, at another time.
abbrev pub later : ServiceFacts → String → ℕ → String → ServiceFacts
later facts now time approval_id = record facts {
  now = now;
  time = time;
  approval_id = approval_id;
}

-- The approval as a later call plans it again.
abbrev renewed : ScopedApproval → String → ℕ → ScopedApproval
renewed a id expires_at = record a { id = id; expires_at = expires_at }

same_bool_refl : (b : Bool) → same_bool b b ≡ true
same_bool_refl true = refl
same_bool_refl false = refl

renewed-same_scope :
    (a : ScopedApproval) (id : String) (expires_at : ℕ)
    → same_approval_scope (renewed a id expires_at) a ≡ true
renewed-same_scope a id expires_at =
    rw
      (
        eq_refl a.base_sha,
        same_path_refl a.worktree_path,
        same_list_refl a.read_paths,
        same_list_refl a.write_paths,
        same_list_refl (side_effect_values a.side_effects),
        eq_refl (network_value a.network),
        same_bool_refl a.listener,
        eq_refl (environment_value a.environment),
      )
      refl

renewed-valid :
    (isalnum : ℕ → Bool) (a : ScopedApproval) (id : String) (expires_at : ℕ)
    → valid_approval isalnum a ≡ true
    → is_identifier isalnum id ≡ true
    → valid_approval isalnum (renewed a id expires_at) ≡ true
unfolding valid_approval
renewed-valid isalnum a id expires_at v h = ground arith

module _ (digest : TaskRecord → String) (isalnum : ℕ → Bool) (clock : Clock) (facts : ServiceFacts)
    (now : String) (time : ℕ) (approval_id : String) where
  -- The approval that is planned for a declared capability.
  abbrev planned : String → String → ℤ → ℤ → Capability → ScopedApproval
  planned task_id capability_id max_uses valid_for_minutes c = record {
    id = facts.approval_id;
    task_id = task_id;
    capability_id = capability_id;
    base_sha = facts.snapshot.base_sha;
    worktree_path = facts.snapshot.worktree_path;
    read_paths = c.read_paths;
    write_paths = c.write_paths;
    side_effects = c.side_effects;
    network = c.network;
    listener = c.listener;
    environment = c.environment;
    max_uses = max_uses;
    expires_at = facts.time + minutes valid_for_minutes;
  }

  replanned :
      (stores : Stores) (task_id capability_id : String) (max_uses valid_for_minutes : ℤ)
      (place : Place) (r : TaskRecord) (c : Capability)
      → is_positive max_uses ≡ true
      → store_for digest facts.snapshot stores task_id ≡ ok place
      → load digest (files_at place stores) task_id ≡ ok r
      → declared_capability facts capability_id ≡ ok c
      → contains (current_envelope r).requested_capabilities capability_id ≡ true
      → (facts.snapshot.repository_id =ˢ (current_envelope r).repository_id
          && facts.snapshot.base_sha =ˢ (current_envelope r).base_sha
          && same_path facts.snapshot.worktree_path (current_envelope r).worktree_path)
        ≡ true
      → let a =
          renewed
            (planned task_id capability_id max_uses valid_for_minutes c)
            approval_id
            (time + minutes (pos 15)) in
        valid_approval isalnum a ≡ true
        → plan_approval digest isalnum clock
            (later facts now time approval_id)
            stores
            task_id
            capability_id
            max_uses
            (pos 15)
          ≡ ok a
  unfolding plan_approval
  replanned stores task_id capability_id max_uses valid_for_minutes place r c uses stands loads
        declared requested workspace valid =
      rw (uses, stands, loads, declared, requested, workspace, valid) refl

  -- What was planned is planned again, for fifteen minutes and under another id.
  plan_again :
      (stores : Stores) (task_id capability_id : String) (max_uses valid_for_minutes : ℤ)
      {a : ScopedApproval}
      → is_identifier isalnum approval_id ≡ true
      → plan_approval digest isalnum clock facts stores task_id capability_id max_uses
          valid_for_minutes
        ≡ ok a
      → plan_approval digest isalnum clock
          (later facts now time approval_id)
          stores
          a.task_id
          a.capability_id
          a.max_uses
          (pos 15)
        ≡ ok (renewed a approval_id (time + minutes (pos 15)))
  unfolding plan_approval
  plan_again stores task_id capability_id max_uses valid_for_minutes {a = a} id h =
      let (uses, h₁) = guard-eq-ok (is_positive max_uses) value_error _ h in
      let (valid_for, h₂) = guard-eq-ok (is_positive valid_for_minutes) value_error _ h₁ in
      let (place, stands, h₃) = >>=-eq-ok (store_for digest facts.snapshot stores task_id) _ h₂ in
      let (r, loads, h₄) = >>=-eq-ok (load digest (files_at place stores) task_id) _ h₃ in
      let (c, declared, h₅) = >>=-eq-ok (declared_capability facts capability_id) _ h₄ in
      let (requested, h₆) = guard-eq-ok _ value_error _ h₅ in
      let (workspace, h₇) = guard-eq-ok _ value_error _ h₆ in
      let (valid, h₈) = guard-eq-ok _ capability_invariant _ h₇ in
      let again =
        renewed-valid isalnum (planned task_id capability_id max_uses valid_for_minutes c)
          approval_id (time + minutes (pos 15)) valid id in
      let same : planned task_id capability_id max_uses valid_for_minutes c ≡ a = ok_path h₈ in
      subst
        (λ x.
          plan_approval digest isalnum clock (later facts now time approval_id) stores x.task_id
            x.capability_id x.max_uses (pos 15)
          ≡ ok (renewed x approval_id (time + minutes (pos 15))))
        same
        (replanned stores task_id capability_id max_uses valid_for_minutes place r c uses stands
          loads declared requested workspace again)

  -- An approval that was planned is granted by a later call that observes the same worktree, the same
  -- declared capabilities and the same stores, where the task's record is not terminal: the record is
  -- written with one event more, which holds the approval.
  pub planned_grantable :
      (stores : Stores) (task_id capability_id : String) (max_uses valid_for_minutes : ℤ)
      (approval : ScopedApproval) (place : Place) (r : TaskRecord)
      → plan_approval digest isalnum clock facts stores task_id capability_id max_uses
          valid_for_minutes
        ≡ ok approval
      → store_for digest facts.snapshot stores approval.task_id ≡ ok place
      → load digest (files_at place stores) approval.task_id ≡ ok r
      → is_terminal r.state ≡ false
      → is_identifier isalnum approval_id ≡ true
      → (now =ˢ "") ≡ false
      → let ev = next_event now r "approval.granted" (approval_payload clock approval) in
        let r' = with_event r r.state ev in
        grant_approval digest isalnum clock (later facts now time approval_id) stores approval
        ≡ ok
            (r', with_files place (write digest (files_at place stores) approval.task_id r') stores)
  unfolding grant_approval
  planned_grantable stores task_id capability_id max_uses valid_for_minutes approval place r plans
        stands loads active id clocked =
      let again = plan_again stores task_id capability_id max_uses valid_for_minutes id plans in
      let appends =
        append_event_total digest now (files_at place stores) approval.task_id r loads clocked
          "approval.granted" (approval_payload clock approval) active refl in
      rw (again, renewed-same_scope approval approval_id (time + minutes (pos 15)), stands, appends)
        refl
