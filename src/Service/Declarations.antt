-- ===== src/Service/Declarations.antt =====
-- Declared capabilities as JSON: `Capability.to_dict` and `from_dict` (core/gateway.py), and
-- `load_capabilities` (schemas/__init__.py), with the schema's validator as a parameter.
use adaptive_harness.Prelude.{
  String, Bool, not, ◌&&◌, List, [], ◌∷◌, map, any, all, ◌=ˢ◌, same_set, if◌then◌else◌, ℤ, Result,
  ok, err, value_error, type_error, capability_invariant, schema_validation, guard, ◌>>=◌, ◌>>◌, ℕ,
}
use adaptive_harness.Json.{
  Fields, end, field, Value, str, num, bool, obj, arr, Items, nil, cons, strs, nums, get, hashable,
  value_eq,
}
use adaptive_harness.Verifier.{item_values}
use adaptive_harness.Gateway.{
  Reversibility, ApprovalPolicy, Capability, network_value, side_effect_values, environment_value,
  valid_capability, unique_capabilities,
}
use adaptive_harness.Service.Approvals.{
  text_of, number_of, flag_of, value_at, iterate, texts_of, network_of, environment_of,
  side_effects_of,
}

abbrev pub reversibility_value : Reversibility → String
reversibility_value Reversibility.reversible = "reversible"
reversibility_value Reversibility.conditional = "conditional"
reversibility_value Reversibility.irreversible = "irreversible"

abbrev pub approval_policy_value : ApprovalPolicy → String
approval_policy_value ApprovalPolicy.auto = "auto"
approval_policy_value ApprovalPolicy.ask = "ask"
approval_policy_value ApprovalPolicy.deny = "deny"

-- `Reversibility(value)`
abbrev pub reversibility_of : String → Result Reversibility
reversibility_of s =
    if s =ˢ "reversible"
    then ok Reversibility.reversible
    else if s =ˢ "conditional"
    then ok Reversibility.conditional
    else if s =ˢ "irreversible"
    then ok Reversibility.irreversible
    else err value_error

-- `ApprovalPolicy(value)`
abbrev pub approval_policy_of : String → Result ApprovalPolicy
approval_policy_of s =
    if s =ˢ "auto"
    then ok ApprovalPolicy.auto
    else if s =ˢ "ask"
    then ok ApprovalPolicy.ask
    else if s =ˢ "deny"
    then ok ApprovalPolicy.deny
    else err value_error

abbrev pub keys : Fields → List String
keys end = []
keys (field k v d) = k ∷ keys d

-- `_require_exact_fields` raises nothing.
abbrev pub has_exactly : List String → Fields → Bool
has_exactly expected d = same_set (keys d) expected

abbrev pub object_of : Value → Result Fields
object_of (obj d) = ok d
object_of _ = err capability_invariant

unfoldable pub numbers_in : List Value → Result (List ℤ)
numbers_in [] = ok []
numbers_in (v ∷ vs) = do n ← number_of v; rest ← numbers_in vs; ok (n ∷ rest)

abbrev pub numbers_of : Value → Result (List ℤ)
numbers_of v = do vs ← iterate v; numbers_in vs

-- Every exception becomes `CapabilityInvariantError`.
abbrev pub or_invalid : {A : Type 0} → Result A → Result A
or_invalid (ok a) = ok a
or_invalid (err e) = err capability_invariant

abbrev pub capability_keys : List String
capability_keys =
    "id" ∷ "argv" ∷ "cwd" ∷ "timeout_seconds" ∷ "read_paths" ∷ "write_paths" ∷ "network"
    ∷ "listener" ∷ "side_effects" ∷ "reversibility" ∷ "environment" ∷ "approval_policy"
    ∷ "max_executions" ∷ "stop_condition" ∷ []

-- `set(value)` of an array is the set of the keys that are expected.
abbrev pub is_capability_keys : List Value → Bool
is_capability_keys vs =
    all (λ v. any (value_eq v) (map str capability_keys)) vs
    && all (λ k. any (value_eq (str k)) vs) capability_keys

-- `to_dict`
unfoldable pub capability_to_dict : Capability → Fields
capability_to_dict c = field "id" (str c.id) (
    field "argv" (strs c.argv) (
      field "cwd" (str c.cwd) (
        field "timeout_seconds" (num c.timeout_seconds) (
          field "read_paths" (strs c.read_paths) (
            field "write_paths" (strs c.write_paths) (
              field "network" (str (network_value c.network)) (
                field "listener" (bool c.listener) (
                  field "side_effects" (strs (side_effect_values c.side_effects)) (
                    field "reversibility" (str (reversibility_value c.reversibility)) (
                      field "environment" (str (environment_value c.environment)) (
                        field "approval_policy" (str (approval_policy_value c.approval_policy)) (
                          field "max_executions" (num c.max_executions) (
                            field "stop_condition"
                              (obj (field "exit_codes" (nums c.stop_on_exit_codes) end))
                              end)))))))))))))

module _ (isalnum : ℕ → Bool) where
  -- What `from_dict` builds under its `try`.
  unfoldable pub build_capability : Fields → Fields → Result Capability
  unfolding side_effects_of numbers_in
  build_capability d stop = do
    id ← text_of (get d "id")
    argv ← texts_of text_of (get d "argv")
    cwd ← text_of (get d "cwd")
    timeout_seconds ← number_of (get d "timeout_seconds")
    read_paths ← texts_of text_of (get d "read_paths")
    write_paths ← texts_of text_of (get d "write_paths")
    network ← text_of (get d "network") >>= network_of
    listener ← flag_of (get d "listener")
    side_effects ← texts_of text_of (get d "side_effects") >>= side_effects_of
    reversibility ← text_of (get d "reversibility") >>= reversibility_of
    environment ← text_of (get d "environment") >>= environment_of
    approval_policy ← text_of (get d "approval_policy") >>= approval_policy_of
    max_executions ← number_of (get d "max_executions")
    stop_on_exit_codes ← numbers_of (get stop "exit_codes")
    let c : Capability = record {
      id = id;
      argv = argv;
      cwd = cwd;
      timeout_seconds = timeout_seconds;
      read_paths = read_paths;
      write_paths = write_paths;
      network = network;
      listener = listener;
      side_effects = side_effects;
      reversibility = reversibility;
      environment = environment;
      approval_policy = approval_policy;
      max_executions = max_executions;
      stop_on_exit_codes = stop_on_exit_codes;
    }
    guard (valid_capability isalnum c) capability_invariant
    ok c

  -- `from_dict`
  unfoldable pub capability_from_dict : Fields → Result Capability
  unfolding build_capability
  capability_from_dict d = do
    guard (has_exactly capability_keys d) capability_invariant
    stop ← object_of (get d "stop_condition")
    guard (has_exactly ("exit_codes" ∷ []) stop) capability_invariant
    or_invalid (build_capability d stop)

  -- An array is refused either way: its `set` is not the expected one, or the subscript fails.
  abbrev pub capability_from_value : Value → Result Capability
  capability_from_value (obj d) = capability_from_dict d
  capability_from_value (arr xs) =
      if all hashable (item_values xs) && not (is_capability_keys (item_values xs))
      then err capability_invariant
      else err type_error
  capability_from_value (str s) = err capability_invariant
  capability_from_value _ = err type_error

  unfoldable pub capabilities_from : List Value → Result (List Capability)
  unfolding capability_from_dict
  capabilities_from [] = ok []
  capabilities_from (v ∷ vs) = do
    c ← capability_from_value v
    cs ← capabilities_from vs
    ok (c ∷ cs)

  -- `load_capabilities`; `conforms` is jsonschema's validator of the packaged capabilities schema.
  unfoldable pub load_capabilities : (Fields → Bool) → Fields → Result (List Capability)
  unfolding capabilities_from
  load_capabilities conforms document = do
    guard (conforms document) schema_validation
    raw ← value_at document "capabilities"
    vs ← iterate raw
    cs ← capabilities_from vs
    guard (unique_capabilities cs) value_error
    ok cs

abbrev pub capability_items : List Capability → Items
capability_items [] = nil
capability_items (c ∷ cs) = cons (obj (capability_to_dict c)) (capability_items cs)

-- The document that `_capabilities_document` (init/initializer.py) makes of its capabilities.
abbrev pub capabilities_document : List Capability → Fields
capabilities_document cs =
    field "schema_version" (str "1.0") (field "capabilities" (arr (capability_items cs)) end)
