-- ===== src/Modules/Registry.antt =====
-- The builtin modules (modules/registry.py).
use adaptive_harness.Prelude.{◌*◌, List, [], ◌∷◌, none, some}
use adaptive_harness.Modules.Defs.{ModuleType, ActivationPolicy, ModuleManifest}

abbrev pub tdd_guidance : ModuleManifest
tdd_guidance = record {
  id = "tdd-guidance";
  version = "1.0.0";
  category = "workflow";
  module_type = ModuleType.declarative;
  applies_when = "code-change" ∷ [];
  excludes_when = "documentation-only" ∷ [];
  required_capabilities = [];
  cost = record { context_tokens = 180; runtime_ms = λ n. 0 };
  activation_policy = ActivationPolicy.suggest;
  success_metrics = "required-checks-pass" ∷ [];
  runtime_major = 0;
  protocol = "1.0";
  rollback = "disable the module and remove its task context";
  content = some "Write a failing test, implement the smallest fix, then verify it.";
  entrypoint = [];
}

abbrev pub task_summary : ModuleManifest
task_summary = record {
  id = "task-summary";
  version = "1.0.0";
  category = "reporting";
  module_type = ModuleType.executable;
  applies_when = "task-complete" ∷ [];
  excludes_when = [];
  required_capabilities = "module-execution" ∷ [];
  cost = record { context_tokens = 0; runtime_ms = λ n. 2000 * n };
  activation_policy = ActivationPolicy.manual;
  success_metrics = "valid-protocol-response" ∷ [];
  runtime_major = 0;
  protocol = "1.0";
  rollback = "disable the module and discard its generated summary";
  content = none;
  entrypoint = "builtin:task_summary" ∷ [];
}

-- `_BUILTIN_DOCUMENTS`, as the manifests that the registry makes of them
unfoldable pub builtin_modules : List ModuleManifest
builtin_modules = tdd_guidance ∷ task_summary ∷ []
