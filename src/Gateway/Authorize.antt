-- ===== src/Gateway/Authorize.antt =====
-- `CapabilityGateway`: the checks of one authorization, in their order, and the event that records
-- it. Each raise of `CapabilityDeniedError` keeps its reason.
use adaptive_harness.Prelude.{
  ℕ, ◌*◌, ◌^◌, String, Bool, true, false, not, ◌&&◌, ◌||◌, List, [], ◌∷◌, map, Option, none, some,
  ltb, ◌=ˢ◌, all, any, count_if, last_or, contains, subset, same_set, is_nodup, if◌then◌else◌, pos,
  at_least, at_least_suc, Result, ok, err, capability_denied, Denial, guard, ◌>>=◌, ◌>>◌,
}
use adaptive_harness.Paths.{PosixPath, parse_path, same_path, is_relative_to, join_path, show_path}
use adaptive_harness.Json.{
  Fields, end, field, str, num, bool, strs, nums, str_or_null, get, value_eq, same_bool,
}
use adaptive_harness.Envelope.{TaskEnvelope, Number, int, dyadic, max_commands}
use adaptive_harness.Store.{TaskEvent, TaskRecord, Files, current_envelope, load, append_event}
use adaptive_harness.Gateway.Defs.{
  Reversibility, ExecutionEnvironment, ApprovalPolicy, network_value, environment_value, Capability,
  ProjectPolicy, WorkspaceSnapshot, ScopedApproval, AuthorizedCommand,
}
use adaptive_harness.Gateway.Checks.{side_effect_values}

abbrev pub denied_unless : Bool → Denial → Result (Unit {0})
denied_unless test reason = guard test (capability_denied reason)

-- `event.type == type and event.data.get(key) == value`
unfoldable pub records_text : String → String → String → TaskEvent → Bool
unfolding value_eq
records_text type key value ev = ev.type =ˢ type && value_eq (get ev.payload key) (str value)

-- `event.type == type`
abbrev pub has_type : String → TaskEvent → Bool
has_type type ev = ev.type =ˢ type

-- `self._capabilities[capability_id]`, where the ids are unique
abbrev pub find_capability : List Capability → String → Option Capability
find_capability [] id = none
find_capability (c ∷ cs) id = if c.id =ˢ id then some c else find_capability cs id

-- `CapabilityGateway(...)` accepts the capabilities.
abbrev pub unique_capabilities : List Capability → Bool
unique_capabilities cs = is_nodup (map (λ c. c.id) cs)

-- `_validate_workspace`
unfoldable pub validate_workspace : TaskEnvelope → WorkspaceSnapshot → Result (Unit {0})
validate_workspace e snapshot = do
  denied_unless (snapshot.repository_id =ˢ e.repository_id) Denial.repository_changed
  denied_unless (snapshot.base_sha =ˢ e.base_sha) Denial.base_sha_changed
  denied_unless (same_path snapshot.worktree_path e.worktree_path) Denial.worktree_changed

-- The path is one of the allowed paths or lies below one.
unfoldable pub in_scope : List String → PosixPath → Bool
in_scope allowed candidate =
    any
      (λ scope.
        same_path candidate (parse_path scope) || is_relative_to candidate (parse_path scope))
      allowed

-- `_validate_write_scope`
unfoldable pub validate_write_scope : TaskEnvelope → Capability → Result (Unit {0})
validate_write_scope e c =
    denied_unless (all (λ path. in_scope e.allowed_scope (parse_path path)) c.write_paths)
      Denial.write_out_of_scope

abbrev pub is_deny : ApprovalPolicy → Bool
is_deny ApprovalPolicy.deny = true
is_deny _ = false

abbrev is_ask : ApprovalPolicy → Bool
is_ask ApprovalPolicy.ask = true
is_ask _ = false

-- `_evaluate_policy`
unfoldable pub evaluate_policy : ProjectPolicy → Capability → Result (Unit {0})
evaluate_policy policy c = do
  denied_unless (not (contains policy.denied_capabilities c.id)) Denial.denied_by_policy
  denied_unless (not (is_deny c.approval_policy)) Denial.denied_by_declaration
  denied_unless (contains (map network_value policy.allowed_network) (network_value c.network))
      Denial.network_denied
  denied_unless (not (c.listener && not policy.allow_listener)) Denial.listener_denied
  denied_unless
      (contains (map environment_value policy.allowed_environments)
        (environment_value c.environment))
      Denial.environment_denied

-- `n >= limit` for a number that may be a float
abbrev pub reaches : ℕ → Number → Bool
reaches n (int z) = at_least n z
reaches n (dyadic z k) = at_least (n * 2 ^ k) z

abbrev pub within_command_budget : ℕ → Option Number → Bool
within_command_budget n none = true
within_command_budget n (some limit) = not (reaches n limit)

-- The three limits on what was authorized and attempted before.
unfoldable pub check_limits : TaskRecord → Capability → Result (Unit {0})
check_limits r c = do
  denied_unless
      (not (
        at_least (count_if (records_text "command.authorized" "capability_id" c.id) r.events)
          c.max_executions))
      Denial.execution_limit
  denied_unless
      (not (
        at_least_suc (count_if (records_text "command.started" "capability_id" c.id) r.events)
          (current_envelope r).retry_budget))
      Denial.retry_budget_reached
  denied_unless
      (within_command_budget (count_if (has_type "command.authorized") r.events)
        (max_commands (current_envelope r)))
      Denial.command_budget

abbrev pub is_irreversible : Reversibility → Bool
is_irreversible Reversibility.irreversible = true
is_irreversible _ = false

abbrev pub is_production : ExecutionEnvironment → Bool
is_production ExecutionEnvironment.production = true
is_production _ = false

-- `kernel_high_risk`
unfoldable pub kernel_high_risk : Capability → Bool
kernel_high_risk c =
    is_irreversible c.reversibility
    || is_production c.environment
    || contains (side_effect_values c.side_effects) "production"
    || contains (side_effect_values c.side_effects) "credentials"
    || contains (side_effect_values c.side_effects) "irreversible"

-- `_requires_approval`
unfoldable pub requires_approval : ProjectPolicy → Capability → Bool
requires_approval policy c =
    kernel_high_risk c
    || not (
        subset (side_effect_values c.side_effects)
          (side_effect_values policy.auto_approved_side_effects))
    || is_ask c.approval_policy

-- The approval is for this operation, has not expired at `time`, and has uses left.
unfoldable pub approval_matches :
    ℕ → TaskRecord → Capability → WorkspaceSnapshot → ScopedApproval → Bool
approval_matches time r c snapshot a =
    a.task_id =ˢ (current_envelope r).task_id
    && a.capability_id =ˢ c.id
    && a.base_sha =ˢ (current_envelope r).base_sha
    && (current_envelope r).base_sha =ˢ snapshot.base_sha
    && same_path a.worktree_path snapshot.worktree_path
    && same_set a.read_paths c.read_paths
    && same_set a.write_paths c.write_paths
    && same_set (side_effect_values a.side_effects) (side_effect_values c.side_effects)
    && network_value a.network =ˢ network_value c.network
    && same_bool a.listener c.listener
    && environment_value a.environment =ˢ environment_value c.environment
    && ltb time a.expires_at
    && not (
        at_least (count_if (records_text "command.authorized" "approval_id" a.id) r.events)
          a.max_uses)

-- `_find_approval`: the first approval that matches
unfoldable pub find_approval :
    ℕ → TaskRecord → Capability → WorkspaceSnapshot → List ScopedApproval → Result ScopedApproval
find_approval time r c snapshot [] = err (capability_denied Denial.approval_required)
find_approval time r c snapshot (a ∷ approvals) =
    if approval_matches time r c snapshot a then ok a else find_approval time r c snapshot approvals

-- `approval_id`: of the approval found, or `None` where none is required
unfoldable pub approve :
    ProjectPolicy
    → ℕ
    → TaskRecord
    → Capability
    → WorkspaceSnapshot
    → List ScopedApproval
    → Result (Option String)
approve policy time r c snapshot approvals =
    if requires_approval policy c
    then (do a ← find_approval time r c snapshot approvals; ok (some a.id))
    else ok none

-- The data of the `command.authorized` event.
abbrev pub authorization_data : TaskEnvelope → Capability → PosixPath → Option String → Fields
authorization_data e c cwd approval_id = field "capability_id" (str c.id) (
    field "argv" (strs c.argv) (
      field "cwd" (str (show_path cwd)) (
        field "read_paths" (strs c.read_paths) (
          field "write_paths" (strs c.write_paths) (
            field "network" (str (network_value c.network)) (
              field "listener" (bool c.listener) (
                field "side_effects" (strs (side_effect_values c.side_effects)) (
                  field "environment" (str (environment_value c.environment)) (
                    field "approval_id" (str_or_null approval_id) (
                      field "timeout_seconds" (num c.timeout_seconds) (
                        field "stop_on_exit_codes" (nums c.stop_on_exit_codes)
                          (field "envelope_revision" (num (pos e.revision)) end))))))))))))

-- `events[-1].sequence`; a record that an event was appended to has events
abbrev pub last_sequence : List TaskEvent → ℕ
last_sequence [] = 0
last_sequence (ev ∷ events) = (last_or ev events).sequence

abbrev pub find_or_deny : Option Capability → Result Capability
find_or_deny none = err (capability_denied Denial.unknown_capability)
find_or_deny (some c) = ok c

-- `now` is the clock's text for the event and `time` the instant that approvals are compared with;
-- `resolve` is `Path.resolve`, which follows symbolic links.
module _ (digest : TaskRecord → String) (resolve : PosixPath → PosixPath) where
  unfoldable pub authorize :
      List Capability
      → ProjectPolicy
      → String
      → ℕ
      → WorkspaceSnapshot
      → Files
      → String
      → String
      → List ScopedApproval
      → Result (AuthorizedCommand × Files)
  authorize capabilities policy now time snapshot files task_id capability_id approvals = do
    r ← load digest files task_id
    c ← find_or_deny (find_capability capabilities capability_id)
    denied_unless (contains (current_envelope r).requested_capabilities capability_id)
        Denial.not_requested
    validate_workspace (current_envelope r) snapshot
    validate_write_scope (current_envelope r) c
    evaluate_policy policy c
    check_limits r c
    approval_id ← approve policy time r c snapshot approvals
    let command_cwd = resolve (join_path snapshot.worktree_path c.cwd)
    (updated, files') ←
        append_event digest now files task_id "command.authorized"
          (authorization_data (current_envelope r) c command_cwd approval_id)
    ok (
      record {
        task_id = task_id;
        capability_id = c.id;
        argv = c.argv;
        cwd = command_cwd;
        timeout_seconds = c.timeout_seconds;
        approval_id = approval_id;
        authorization_event_sequence = last_sequence updated.events;
        stop_on_exit_codes = c.stop_on_exit_codes;
        read_paths = c.read_paths;
        write_paths = c.write_paths;
        network = c.network;
        listener = c.listener;
      },
      files',
    )
