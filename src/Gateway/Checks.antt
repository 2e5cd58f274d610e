-- ===== src/Gateway/Checks.antt =====
-- What the constructors of core/gateway.py check. `str.isalnum` reads the Unicode tables: its test
-- of one code point is the parameter `isalnum`.
use adaptive_harness.Prelude.{
  ℕ, String, Bool, true, false, not, ◌&&◌, ◌||◌, List, [], ◌∷◌, map, leb, ◌==◌, ◌=ˢ◌, all, length,
  codes, contains, is_nodup, is_positive,
}
use adaptive_harness.Paths.{parse_path, is_absolute, has_parent_part}
use adaptive_harness.Envelope.{is_nil}
use adaptive_harness.Gateway.Defs.{
  NetworkAccess, SideEffect, ExecutionEnvironment, side_effect_value, Capability, ProjectPolicy,
  ScopedApproval,
}

-- `_validate_relative_path` raises nothing.
unfoldable pub valid_relative_path : String → Bool
valid_relative_path s =
    not (s =ˢ "") && not (is_absolute (parse_path s)) && not (has_parent_part (parse_path s))

-- `_validate_paths` raises nothing.
unfoldable pub valid_paths : List String → Bool
unfolding valid_relative_path
valid_paths paths = all valid_relative_path paths && is_nodup paths

abbrev pub side_effect_values : List SideEffect → List String
side_effect_values effects = map side_effect_value effects

-- The access modes that a declaration uses are among its side effects.
abbrev declares_access : Capability → Bool
declares_access c =
    elim c.network [
      | NetworkAccess.none ↦ true
      | NetworkAccess.outbound ↦ contains (side_effect_values c.side_effects) "network"
    ]
    && (not c.listener || contains (side_effect_values c.side_effects) "listener")
    && (is_nil c.write_paths || contains (side_effect_values c.side_effects) "filesystem_write")

module _ (isalnum : ℕ → Bool) where
  abbrev matches_identifier : List ℕ → Bool
  matches_identifier [] = false
  matches_identifier (c ∷ cs) =
      isalnum c
      && all (λ d. isalnum d || d == b'.' || d == b'_' || d == b'-') (c ∷ cs)
      && leb (length (c ∷ cs)) 128

  -- `_is_identifier`
  unfoldable pub is_identifier : String → Bool
  is_identifier s = matches_identifier (codes s)

  -- `Capability.__post_init__` raises nothing.
  unfoldable pub valid_capability : Capability → Bool
  valid_capability c =
      is_identifier c.id
      && not (is_nil c.argv)
      && all (λ s. not (s =ˢ "")) c.argv
      && valid_relative_path c.cwd
      && is_positive c.timeout_seconds
      && valid_paths c.read_paths
      && valid_paths c.write_paths
      && is_nodup (side_effect_values c.side_effects)
      && is_positive c.max_executions
      && declares_access c

  -- `ProjectPolicy.__post_init__` raises nothing.
  unfoldable pub valid_policy : ProjectPolicy → Bool
  valid_policy p =
      all is_identifier p.denied_capabilities
      && not (is_nil p.allowed_network)
      && not (is_nil p.allowed_environments)

  -- `ScopedApproval.__post_init__` raises nothing; `expires_at` always has a time zone.
  unfoldable pub valid_approval : ScopedApproval → Bool
  valid_approval a =
      is_identifier a.id
      && is_identifier a.task_id
      && is_identifier a.capability_id
      && is_absolute a.worktree_path
      && valid_paths a.read_paths
      && valid_paths a.write_paths
      && is_positive a.max_uses

-- The defaults of `ProjectPolicy`.
abbrev pub default_policy : ProjectPolicy
default_policy = record {
  denied_capabilities = [];
  allowed_network = NetworkAccess.none ∷ [];
  allow_listener = false;
  allowed_environments = ExecutionEnvironment.local ∷ ExecutionEnvironment.test ∷ [];
  auto_approved_side_effects = SideEffect.filesystem_read ∷ [];
}
