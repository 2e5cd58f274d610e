-- ===== src/Gateway/Defs.antt =====
-- The enumerations and records of core/gateway.py. The members of a `StrEnum` are texts: they are
-- compared, hashed and stored as their values.
use adaptive_harness.Prelude.{ℕ, String, Bool, List, Option, ℤ}
use adaptive_harness.Paths.{PosixPath}

pub data NetworkAccess : Type 0 where
  none outbound : NetworkAccess

pub data SideEffect : Type 0 where
  filesystem_read filesystem_write network listener dependency_change : SideEffect
  migration credentials production irreversible : SideEffect

pub data Reversibility : Type 0 where
  reversible conditional irreversible : Reversibility

pub data ExecutionEnvironment : Type 0 where
  local test staging production : ExecutionEnvironment

pub data ApprovalPolicy : Type 0 where
  auto ask deny : ApprovalPolicy

abbrev pub network_value : NetworkAccess → String
network_value NetworkAccess.none = "none"
network_value NetworkAccess.outbound = "outbound"

abbrev pub side_effect_value : SideEffect → String
side_effect_value SideEffect.filesystem_read = "filesystem_read"
side_effect_value SideEffect.filesystem_write = "filesystem_write"
side_effect_value SideEffect.network = "network"
side_effect_value SideEffect.listener = "listener"
side_effect_value SideEffect.dependency_change = "dependency_change"
side_effect_value SideEffect.migration = "migration"
side_effect_value SideEffect.credentials = "credentials"
side_effect_value SideEffect.production = "production"
side_effect_value SideEffect.irreversible = "irreversible"

abbrev pub environment_value : ExecutionEnvironment → String
environment_value ExecutionEnvironment.local = "local"
environment_value ExecutionEnvironment.test = "test"
environment_value ExecutionEnvironment.staging = "staging"
environment_value ExecutionEnvironment.production = "production"

pub record Capability : Type 0 where
  pub id : String
  pub argv : List String
  pub cwd : String
  pub timeout_seconds : ℤ
  pub read_paths : List String
  pub write_paths : List String
  pub network : NetworkAccess
  pub listener : Bool
  pub side_effects : List SideEffect
  pub reversibility : Reversibility
  pub environment : ExecutionEnvironment
  pub approval_policy : ApprovalPolicy
  pub max_executions : ℤ
  pub stop_on_exit_codes : List ℤ

pub record ProjectPolicy : Type 0 where
  pub denied_capabilities : List String
  pub allowed_network : List NetworkAccess
  pub allow_listener : Bool
  pub allowed_environments : List ExecutionEnvironment
  pub auto_approved_side_effects : List SideEffect

pub record WorkspaceSnapshot : Type 0 where
  pub repository_id : String
  pub base_sha : String
  pub worktree_path : PosixPath

-- `expires_at` is an instant, counted in microseconds.
pub record ScopedApproval : Type 0 where
  pub id : String
  pub task_id : String
  pub capability_id : String
  pub base_sha : String
  pub worktree_path : PosixPath
  pub read_paths : List String
  pub write_paths : List String
  pub side_effects : List SideEffect
  pub network : NetworkAccess
  pub listener : Bool
  pub environment : ExecutionEnvironment
  pub max_uses : ℤ
  pub expires_at : ℕ

pub record AuthorizedCommand : Type 0 where
  pub task_id : String
  pub capability_id : String
  pub argv : List String
  pub cwd : PosixPath
  pub timeout_seconds : ℤ
  pub approval_id : Option String
  pub authorization_event_sequence : ℕ
  pub stop_on_exit_codes : List ℤ
  pub read_paths : List String
  pub write_paths : List String
  pub network : NetworkAccess
  pub listener : Bool
