-- ===== src/Service/Requests.antt =====
-- What `start` is asked for and observes, the envelope that it makes of this, and the data of the
-- events on modules.
use adaptive_harness.Prelude.{
  ℕ, suc, ◌+◌, ◌*◌, String, true, List, [], ◌∷◌, map, Option, none, some, ◌=ˢ◌, length,
  if◌then◌else◌, ℤ, pos, negsuc, Result,
}
use Prim.Native.Nat.{max}
use Prim.Native.String.{◌++◌ as ◌<>◌}
use adaptive_harness.Json.{Fields, end, field, str, strs, str_or_null}
use adaptive_harness.Envelope.{Requirement, Acceptance, TaskEnvelope, int}
use adaptive_harness.Gateway.{Capability}
use adaptive_harness.Executor.{decimal}
use adaptive_harness.Init.{Disk}
use adaptive_harness.Modules.{
  ActivationState, ActivationDecision, ModuleHost, LockFormat, sorted_set, is_empty,
}
use adaptive_harness.Service.Runs.{ServiceFacts}

-- What `start` reads of the project's configuration, whose schema is checked outside.
pub record ProjectConfig : Type 0 where
  pub schema_version : String
  pub mode : String

-- What `start` observes beside the other operations.
pub record StartFacts : Type 0 where
  pub observed : ServiceFacts
  pub dirty_state : List String
  pub config : Result ProjectConfig
  pub harness_version : String
  pub new_task_id : String
  pub modules : ModuleHost
  pub lock : LockFormat
  pub disk : Disk

-- The arguments of `start`.
pub record StartRequest : Type 0 where
  pub goal : String
  pub allowed_scope : List String
  pub requirements : List String
  pub capability_ids : List String
  pub task_traits : List String
  pub manually_requested_modules : List String
  pub task_id : Option String
  pub timeout_seconds : ℤ
  pub retry_budget : ℤ

abbrev pub capability_ids_of : List Capability → List String
capability_ids_of capabilities = map (λ c. c.id) capabilities

-- `capability_ids or tuple(sorted(available))`
abbrev pub selected_capabilities : StartRequest → List Capability → List String
selected_capabilities q capabilities =
    if is_empty q.capability_ids
    then sorted_set (capability_ids_of capabilities)
    else q.capability_ids

abbrev pub requirement_texts : StartRequest → List String
requirement_texts q = if is_empty q.requirements then q.goal ∷ [] else q.requirements

-- The requirements, numbered from the given number.
unfoldable pub requirements_from : ℕ → List String → List Requirement
requirements_from n [] = []
requirements_from n (text ∷ texts) =
    record { id = "requirement-" <> decimal n; text = text } ∷ requirements_from (suc n) texts

abbrev pub acceptance_of : ℕ → List String → String → ℤ → ℤ → Acceptance
acceptance_of n covered capability_id timeout_seconds retry_budget = record {
  id = "acceptance-" <> decimal n;
  required = true;
  covers = covered;
  command_id = capability_id;
  expected_exit_code = pos 0;
  timeout_seconds = timeout_seconds;
  retry_budget = retry_budget;
  evidence_type = "command_event";
}

-- An acceptance for each capability, numbered from the given number.
unfoldable pub acceptances_from : ℕ → List String → ℤ → ℤ → List String → List Acceptance
acceptances_from n covered timeout_seconds retry_budget [] = []
acceptances_from n covered timeout_seconds retry_budget (c ∷ cs) =
    acceptance_of n covered c timeout_seconds retry_budget
    ∷ acceptances_from (suc n) covered timeout_seconds retry_budget cs

-- `max(1, n * (retry_budget + 1))`; with a negative budget the product is not positive
abbrev pub command_budget : ℕ → ℤ → ℤ
command_budget n (pos retry_budget) = pos (max 1 (n * (retry_budget + 1)))
command_budget n (negsuc retry_budget) = pos 1

abbrev pub requirement_ids_of : List Requirement → List String
requirement_ids_of requirements = map (λ r. r.id) requirements

abbrev pub or_new : String → Option String → String
or_new new none = new
or_new new (some id) = if id =ˢ "" then new else id

abbrev pub envelope_of : StartFacts → StartRequest → ProjectConfig → List String → TaskEnvelope
envelope_of sf q config selected =
    let requirements = requirements_from 1 (requirement_texts q) in
    record {
      schema_version = "1.0";
      task_id = or_new sf.new_task_id q.task_id;
      repository_id = sf.observed.snapshot.repository_id;
      base_sha = sf.observed.snapshot.base_sha;
      worktree_path = sf.observed.snapshot.worktree_path;
      initial_dirty_state = sf.dirty_state;
      harness_version = sf.harness_version;
      config_version = config.schema_version;
      goal = q.goal;
      non_goals = [];
      requirements = requirements;
      allowed_scope = q.allowed_scope;
      acceptances =
          acceptances_from 1 (requirement_ids_of requirements) q.timeout_seconds q.retry_budget
            selected;
      requested_capabilities = selected;
      timeout_seconds = q.timeout_seconds;
      retry_budget = q.retry_budget;
      budget = ("max_commands", int (command_budget (length selected) q.retry_budget)) ∷ [];
      integration_mode = config.mode;
      revision = 1;
    }

abbrev pub activation_state_value : ActivationState → String
activation_state_value ActivationState.installed = "installed"
activation_state_value ActivationState.enabled = "enabled"
activation_state_value ActivationState.suggested = "suggested"
activation_state_value ActivationState.activated = "activated"
activation_state_value ActivationState.blocked = "blocked"

abbrev pub activation_data : List String → ActivationDecision → Fields
activation_data task_traits d = field "module_id" (str d.module_id) (
    field "state" (str (activation_state_value d.state)) (
      field "reason" (str d.reason) (
        field "task_traits" (strs (sorted_set task_traits))
          (field "context" (str_or_null d.context) end))))
