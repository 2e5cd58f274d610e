-- ===== src/Envelope/Amend.antt =====
-- `TaskEnvelope.amend`.
use adaptive_harness.Prelude.{
  suc, String, Bool, true, ◌&&◌, List, map, Option, none, some, ◌=ˢ◌, select, subset, same_list,
  Result, ok, envelope_invariant, guard, ◌>>=◌, ◌>>◌,
}
use adaptive_harness.Paths.{same_path}
use adaptive_harness.Envelope.Defs.{Acceptance, TaskEnvelope, Changes}
use adaptive_harness.Envelope.Checks.{is_full_sha, is_nil, make_envelope}

-- `changes.get(name, current)`
abbrev pub changed {ℓ} : {A : Type ℓ} → Option A → A → A
changed none current = current
changed (some value) current = value

-- The change is absent, or passes the test.
abbrev pub absent_or {ℓ} : {A : Type ℓ} → (A → Bool) → Option A → Bool
absent_or test none = true
absent_or test (some value) = test value

-- `{item.id for item in acceptances if item.required}`
abbrev pub required_ids : List Acceptance → List String
required_ids acceptances = map (λ a. a.id) (select (λ a. a.required) acceptances)

-- `replace(self, **normalized, revision=self.revision + 1)`, before it is checked
abbrev pub apply_changes : TaskEnvelope → Changes → TaskEnvelope
apply_changes e ch = record {
  schema_version = e.schema_version;
  task_id = e.task_id;
  repository_id = e.repository_id;
  base_sha = changed ch.base_sha e.base_sha;
  worktree_path = changed ch.worktree_path e.worktree_path;
  initial_dirty_state = changed ch.initial_dirty_state e.initial_dirty_state;
  harness_version = changed ch.harness_version e.harness_version;
  config_version = changed ch.config_version e.config_version;
  goal = changed ch.goal e.goal;
  non_goals = changed ch.non_goals e.non_goals;
  requirements = changed ch.requirements e.requirements;
  allowed_scope = changed ch.allowed_scope e.allowed_scope;
  acceptances = changed ch.acceptances e.acceptances;
  requested_capabilities = changed ch.requested_capabilities e.requested_capabilities;
  timeout_seconds = changed ch.timeout_seconds e.timeout_seconds;
  retry_budget = changed ch.retry_budget e.retry_budget;
  budget = changed ch.budget e.budget;
  integration_mode = changed ch.integration_mode e.integration_mode;
  revision = suc e.revision;
}

-- The checks before `replace`: known fields, the base SHA, the other immutable values, and the sets
-- that may only grow.
unfoldable pub amendable : TaskEnvelope → Changes → Bool
amendable e ch =
    is_nil ch.other_fields
    && absent_or (λ s. is_full_sha s && s =ˢ e.base_sha) ch.base_sha
    && absent_or (λ p. same_path p e.worktree_path) ch.worktree_path
    && absent_or (λ l. same_list l e.initial_dirty_state) ch.initial_dirty_state
    && absent_or (λ s. s =ˢ e.harness_version) ch.harness_version
    && absent_or (λ s. s =ˢ e.config_version) ch.config_version
    && absent_or (λ l. subset (required_ids e.acceptances) (required_ids l)) ch.acceptances
    && absent_or (λ l. subset e.requested_capabilities l) ch.requested_capabilities
    && absent_or (λ l. subset e.allowed_scope l) ch.allowed_scope

-- The checks after `replace`.
unfoldable pub keeps_bounds : TaskEnvelope → TaskEnvelope → Bool
keeps_bounds e candidate =
    subset (required_ids e.acceptances) (required_ids candidate.acceptances)
    && subset e.requested_capabilities candidate.requested_capabilities

unfoldable pub amend : TaskEnvelope → Changes → Result TaskEnvelope
amend e ch = do
  guard (amendable e ch) envelope_invariant
  candidate ← make_envelope (apply_changes e ch)
  guard (keeps_bounds e candidate) envelope_invariant
  ok candidate
