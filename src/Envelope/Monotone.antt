-- ===== src/Envelope/Monotone.antt =====
-- What an amendment may change: it keeps the identity of the task and only widens its boundaries.
use adaptive_harness.Prelude.{
  suc, ◌≡◌, refl, sym, ap, ◌∙◌, Bool, ◌=ˢ◌, same_list, err, true, Option, none, some, arith, eq_iff,
  subset, subset_refl, subset_trans, same_list-eq, ok, envelope_invariant, if◌then◌else◌, ◌&&◌,
  Bool-cases, inl, inr,
}
use mathlib.Core.Path.{subst}
use adaptive_harness.Paths.{same_path, same_path-eq}
use adaptive_harness.Envelope.Defs.{TaskEnvelope, Changes}
use adaptive_harness.Envelope.Checks.{valid_envelope, is_full_sha}
use adaptive_harness.Envelope.Amend.{
  required_ids, apply_changes, amendable, keeps_bounds, amend, absent_or, changed,
}

-- `later` is a possible later revision of `e`.
pub record Extends (e later : TaskEnvelope) : Type 0 where
  pub schema_version : later.schema_version ≡ e.schema_version
  pub task_id : later.task_id ≡ e.task_id
  pub repository_id : later.repository_id ≡ e.repository_id
  pub base_sha : later.base_sha ≡ e.base_sha
  pub worktree_path : later.worktree_path ≡ e.worktree_path
  pub initial_dirty_state : later.initial_dirty_state ≡ e.initial_dirty_state
  pub harness_version : later.harness_version ≡ e.harness_version
  pub config_version : later.config_version ≡ e.config_version
  pub required : subset (required_ids e.acceptances) (required_ids later.acceptances) ≡ true
  pub capabilities : subset e.requested_capabilities later.requested_capabilities ≡ true
  pub scope : subset e.allowed_scope later.allowed_scope ≡ true

-- What a successful amendment has passed.
pub amend-inversion :
    (e : TaskEnvelope) (ch : Changes) {e' : TaskEnvelope}
    → amend e ch ≡ ok e'
    → (amendable e ch ≡ true) × (valid_envelope e' ≡ true) × (apply_changes e ch ≡ e')
unfolding amend
amend-inversion e ch h = ground arith

-- A field that is replaced only by values that pass the test keeps what both have.
changed-keeps {ℓ} :
    {A : Type ℓ} (P : A → Type 0) (test : A → Bool) (c : Option A) (current : A)
    → absent_or test c ≡ true
    → P current
    → ((v : A) → test v ≡ true → P v)
    → P (changed c current)
changed-keeps P test none current h p k = p
changed-keeps P test (some v) current h p k = k v h

amendable-Extends :
    (e : TaskEnvelope) (ch : Changes) → amendable e ch ≡ true → Extends e (apply_changes e ch)
unfolding amendable
amendable-Extends e ch h = record {
  schema_version = refl;
  task_id = refl;
  repository_id = refl;
  base_sha =
      changed-keeps (λ s. s ≡ e.base_sha) (λ s. is_full_sha s && s =ˢ e.base_sha) ch.base_sha
        e.base_sha (ground arith) refl (λ s t. (eq_iff s e.base_sha).0 (ground arith));
  worktree_path =
      changed-keeps (λ p. p ≡ e.worktree_path) (λ p. same_path p e.worktree_path) ch.worktree_path
        e.worktree_path (ground arith) refl (λ p t. same_path-eq p e.worktree_path t);
  initial_dirty_state =
      changed-keeps (λ l. l ≡ e.initial_dirty_state) (λ l. same_list l e.initial_dirty_state)
        ch.initial_dirty_state e.initial_dirty_state (ground arith) refl
        (λ l t. same_list-eq l e.initial_dirty_state t);
  harness_version =
      changed-keeps (λ s. s ≡ e.harness_version) (λ s. s =ˢ e.harness_version) ch.harness_version
        e.harness_version (ground arith) refl (λ s t. (eq_iff s e.harness_version).0 t);
  config_version =
      changed-keeps (λ s. s ≡ e.config_version) (λ s. s =ˢ e.config_version) ch.config_version
        e.config_version (ground arith) refl (λ s t. (eq_iff s e.config_version).0 t);
  required =
      changed-keeps (λ l. subset (required_ids e.acceptances) (required_ids l) ≡ true)
        (λ l. subset (required_ids e.acceptances) (required_ids l)) ch.acceptances e.acceptances
        (ground arith) (subset_refl (required_ids e.acceptances)) (λ l t. t);
  capabilities =
      changed-keeps (λ l. subset e.requested_capabilities l ≡ true)
        (λ l. subset e.requested_capabilities l) ch.requested_capabilities e.requested_capabilities
        (ground arith) (subset_refl e.requested_capabilities) (λ l t. t);
  scope =
      changed-keeps (λ l. subset e.allowed_scope l ≡ true) (λ l. subset e.allowed_scope l)
        ch.allowed_scope e.allowed_scope (ground arith) (subset_refl e.allowed_scope) (λ l t. t);
}

-- A successful amendment gives a valid envelope, one revision later, of the same task at the same
-- base, with every required acceptance, requested capability and allowed path that the task had.
pub amend-Extends :
    (e : TaskEnvelope) (ch : Changes) {e' : TaskEnvelope}
    → amend e ch ≡ ok e'
    → Extends e e' × (valid_envelope e' ≡ true) × (e'.revision ≡ suc e.revision)
amend-Extends e ch h =
    let (t, v, p) = amend-inversion e ch h in
    (subst (Extends e) p (amendable-Extends e ch t), v, sym (ap (λ x. x.revision) p))

pub Extends-refl : (e : TaskEnvelope) → Extends e e
Extends-refl e = record {
  schema_version = refl;
  task_id = refl;
  repository_id = refl;
  base_sha = refl;
  worktree_path = refl;
  initial_dirty_state = refl;
  harness_version = refl;
  config_version = refl;
  required = subset_refl (required_ids e.acceptances);
  capabilities = subset_refl e.requested_capabilities;
  scope = subset_refl e.allowed_scope;
}

keeps_bounds-Extends : (e later : TaskEnvelope) → Extends e later → keeps_bounds e later ≡ true
unfolding keeps_bounds
keeps_bounds-Extends e later x = ground arith

-- An amendment succeeds exactly when the changes are amendable and the changed envelope is valid:
-- then it gives the changed envelope, and else it raises `EnvelopeInvariantError`. So the checks that
-- are repeated after `replace` never refuse what passed the ones before it.
pub amend_exact :
    (e : TaskEnvelope) (ch : Changes)
    → amend e ch ≡ (
        if amendable e ch && valid_envelope (apply_changes e ch)
        then ok (apply_changes e ch)
        else err envelope_invariant)
unfolding amend
amend_exact e ch = elim (Bool-cases (amendable e ch)) [
  | inl h ↦ ground (arith, keeps_bounds-Extends e (apply_changes e ch) (amendable-Extends e ch h))
  | inr h ↦ ground arith
]

pub Extends-trans : (a b c : TaskEnvelope) → Extends a b → Extends b c → Extends a c
Extends-trans a b c x y = record {
  schema_version = y.schema_version ∙ x.schema_version;
  task_id = y.task_id ∙ x.task_id;
  repository_id = y.repository_id ∙ x.repository_id;
  base_sha = y.base_sha ∙ x.base_sha;
  worktree_path = y.worktree_path ∙ x.worktree_path;
  initial_dirty_state = y.initial_dirty_state ∙ x.initial_dirty_state;
  harness_version = y.harness_version ∙ x.harness_version;
  config_version = y.config_version ∙ x.config_version;
  required = subset_trans _ (required_ids b.acceptances) _ x.required y.required;
  capabilities = subset_trans _ b.requested_capabilities _ x.capabilities y.capabilities;
  scope = subset_trans _ b.allowed_scope _ x.scope y.scope;
}
