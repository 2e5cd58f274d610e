-- ===== src/Modules/Defs.antt =====
-- The records and enumerations of modules/model.py and modules/manager.py, and the objects of the
-- module lock, whose shape its schema gives.
use adaptive_harness.Prelude.{ℕ, String, Bool, List, Option}

pub data ModuleType : Type 0 where
  declarative executable : ModuleType

pub data ActivationPolicy : Type 0 where
  auto suggest manual disabled : ActivationPolicy

pub data ActivationState : Type 0 where
  installed enabled suggested activated blocked : ActivationState

-- `runtime_seconds` is a float, of which `int(runtime_seconds * 1000 * n)` is all that is read: it
-- stands as that function.
pub record ModuleCost : Type 0 where
  pub context_tokens : ℕ
  pub runtime_ms : ℕ → ℕ

pub record ModuleManifest : Type 0 where
  pub id : String
  pub version : String
  pub category : String
  pub module_type : ModuleType
  pub applies_when : List String
  pub excludes_when : List String
  pub required_capabilities : List String
  pub cost : ModuleCost
  pub activation_policy : ActivationPolicy
  pub success_metrics : List String
  pub runtime_major : ℕ
  pub protocol : String
  pub rollback : String
  pub content : Option String
  pub entrypoint : List String

pub record ActivationDecision : Type 0 where
  pub module_id : String
  pub state : ActivationState
  pub reason : String
  pub context : Option String

pub data Source : Type 0 where
  builtin local : Source

pub record ModuleStatus : Type 0 where
  pub manifest : ModuleManifest
  pub source : Source
  pub enabled : Bool
  pub activation_policy : ActivationPolicy

-- An item of the lock's modules. A key that may be missing is an option.
pub record LockedModule : Type 0 where
  pub id : String
  pub version : String
  pub source : Source
  pub sha256 : String
  pub enabled : Option Bool
  pub activation_policy : Option ActivationPolicy
  pub location : Option String

pub data TrialState : Type 0 where
  proposed approved trial promoted rejected rolled_back : TrialState

pub record TrialResult : Type 0 where
  pub task_id : String
  pub evidence_ref : String
  pub beneficial : Bool
  pub overhead_ms : ℕ

pub record CostBudget : Type 0 where
  pub context_tokens : ℕ
  pub runtime_ms : ℕ

pub record Control : Type 0 where
  pub enabled : Bool
  pub activation_policy : ActivationPolicy

-- The rate is a numerator and a denominator.
pub record StopConditions : Type 0 where
  pub maximum_tasks : ℕ
  pub minimum_beneficial_rate : ℕ × ℕ

-- A trial of the lock. A missing history is an empty one; what stands as `previous` is an item of
-- the lock's modules or null, as `plan_trial` writes it.
pub record Trial : Type 0 where
  pub id : String
  pub module_id : String
  pub state : TrialState
  pub remaining_tasks : ℕ
  pub matching_tasks : ℕ
  pub results : List TrialResult
  pub previous : Option LockedModule
  pub success_metrics : List String
  pub cost_budget : CostBudget
  pub control : Control
  pub stop_conditions : StopConditions
  pub rollback : String
  pub history : List TrialState

-- The lock: missing trials are none, as `_load` sets them.
pub record Document : Type 0 where
  pub modules : List LockedModule
  pub templates : List LockedModule
  pub trials : List Trial

-- What the modules take from outside: the runtime's major version, the SHA-256 of a manifest, the
-- path of a manifest below the repository's root, and the manifest that a file's JSON gives
-- (`ModuleManifest.from_dict`).
pub record ModuleHost : Type 0 where
  pub runtime_major : ℕ
  pub sha256 : ModuleManifest → String
  pub relative_to_root : String → Option String
  pub read_manifest : String → Option ModuleManifest
