-- ===== src/Service/Approvals.antt =====
-- An approval as the payload of its event: `_approval_payload` and `_approval_from_payload`. Of several
-- wrong values, the first decides which error is raised. A value of a wrong type is refused as the
-- constructor refuses it; a `base_sha` that is no text, which the code keeps, is refused too.
use adaptive_harness.Prelude.{
  ℕ, String, Bool, List, [], ◌∷◌, Option, none, some, ◌=ˢ◌, if◌then◌else◌, ℤ, Result, ok, err,
  value_error, type_error, key_error, capability_invariant, guard, ◌>>=◌, ◌>>◌,
}
use adaptive_harness.Paths.{parse_path, show_path}
use adaptive_harness.Json.{Fields, end, field, Value, str, num, bool, arr, obj, strs, get, has_key}
use adaptive_harness.Verifier.{item_values, key_values, char_values}
use adaptive_harness.Gateway.{
  NetworkAccess, SideEffect, ExecutionEnvironment, network_value, side_effect_value,
  side_effect_values, environment_value, ScopedApproval, valid_approval,
}

-- `isoformat` and `fromisoformat`
pub record Clock : Type 0 where
  pub show_time : ℕ → String
  pub read_time : String → Option ℕ

-- `value[key]`
abbrev pub value_at : Fields → String → Result Value
value_at payload key = if has_key payload key then ok (get payload key) else err key_error

abbrev pub text_of : Value → Result String
text_of (str s) = ok s
text_of _ = err capability_invariant

abbrev pub number_of : Value → Result ℤ
number_of (num z) = ok z
number_of _ = err capability_invariant

abbrev pub flag_of : Value → Result Bool
flag_of (bool b) = ok b
flag_of _ = err capability_invariant

-- `Path(value)`, `fromisoformat(value)`: anything but a text raises `TypeError`.
abbrev pub text_argument : Value → Result String
text_argument (str s) = ok s
text_argument _ = err type_error

-- The value of an enumeration's member, if it is a text.
abbrev pub member_text : Value → Result String
member_text (str s) = ok s
member_text _ = err value_error

-- `tuple(value)`
abbrev pub iterate : Value → Result (List Value)
iterate (arr xs) = ok (item_values xs)
iterate (obj d) = ok (key_values d)
iterate (str s) = ok (char_values s)
iterate _ = err type_error

unfoldable pub texts_in : (Value → Result String) → List Value → Result (List String)
texts_in read [] = ok []
texts_in read (v ∷ vs) = do s ← read v; rest ← texts_in read vs; ok (s ∷ rest)

abbrev pub texts_of : (Value → Result String) → Value → Result (List String)
texts_of read v = do vs ← iterate v; texts_in read vs

-- `NetworkAccess(value)`
abbrev pub network_of : String → Result NetworkAccess
network_of s =
    if s =ˢ "none"
    then ok NetworkAccess.none
    else if s =ˢ "outbound"
    then ok NetworkAccess.outbound
    else err value_error

-- `ExecutionEnvironment(value)`
abbrev pub environment_of : String → Result ExecutionEnvironment
environment_of s =
    if s =ˢ "local"
    then ok ExecutionEnvironment.local
    else if s =ˢ "test"
    then ok ExecutionEnvironment.test
    else if s =ˢ "staging"
    then ok ExecutionEnvironment.staging
    else if s =ˢ "production"
    then ok ExecutionEnvironment.production
    else err value_error

abbrev pub all_side_effects : List SideEffect
all_side_effects =
    SideEffect.filesystem_read ∷ SideEffect.filesystem_write ∷ SideEffect.network
    ∷ SideEffect.listener ∷ SideEffect.dependency_change ∷ SideEffect.migration
    ∷ SideEffect.credentials ∷ SideEffect.production ∷ SideEffect.irreversible ∷ []

abbrev pub named_effect : String → List SideEffect → Result SideEffect
named_effect s [] = err value_error
named_effect s (e ∷ es) = if side_effect_value e =ˢ s then ok e else named_effect s es

-- `tuple(SideEffect(item) for item in values)`
unfoldable pub side_effects_of : List String → Result (List SideEffect)
side_effects_of [] = ok []
side_effects_of (s ∷ ss) = do
  e ← named_effect s all_side_effects
  es ← side_effects_of ss
  ok (e ∷ es)

abbrev pub instant_of : Option ℕ → Result ℕ
instant_of none = err value_error
instant_of (some t) = ok t

module _ (clock : Clock) where
  -- `_approval_payload`
  unfoldable pub approval_payload : ScopedApproval → Fields
  approval_payload a = field "approval_id" (str a.id) (
      field "task_id" (str a.task_id) (
        field "capability_id" (str a.capability_id) (
          field "base_sha" (str a.base_sha) (
            field "worktree_path" (str (show_path a.worktree_path)) (
              field "read_paths" (strs a.read_paths) (
                field "write_paths" (strs a.write_paths) (
                  field "side_effects" (strs (side_effect_values a.side_effects)) (
                    field "network" (str (network_value a.network)) (
                      field "listener" (bool a.listener) (
                        field "environment" (str (environment_value a.environment)) (
                          field "max_uses" (num a.max_uses)
                            (field "expires_at" (str (clock.show_time a.expires_at)) end))))))))))))

  -- `_approval_from_payload`; `isalnum` is the Unicode test of the identifiers' check.
  unfoldable pub approval_from_payload : (ℕ → Bool) → Fields → Result ScopedApproval
  unfolding texts_in side_effects_of
  approval_from_payload isalnum payload = do
    id ← value_at payload "approval_id" >>= text_of
    task_id ← value_at payload "task_id" >>= text_of
    capability_id ← value_at payload "capability_id" >>= text_of
    base_sha ← value_at payload "base_sha" >>= text_of
    worktree_path ← value_at payload "worktree_path" >>= text_argument
    read_paths ← value_at payload "read_paths" >>= texts_of text_of
    write_paths ← value_at payload "write_paths" >>= texts_of text_of
    effects ← value_at payload "side_effects" >>= texts_of member_text
    side_effects ← side_effects_of effects
    network_text ← value_at payload "network" >>= member_text
    network ← network_of network_text
    listener ← value_at payload "listener" >>= flag_of
    environment_text ← value_at payload "environment" >>= member_text
    environment ← environment_of environment_text
    max_uses ← value_at payload "max_uses" >>= number_of
    expires_text ← value_at payload "expires_at" >>= text_argument
    expires_at ← instant_of (clock.read_time expires_text)
    let approval : ScopedApproval = record {
      id = id;
      task_id = task_id;
      capability_id = capability_id;
      base_sha = base_sha;
      worktree_path = parse_path worktree_path;
      read_paths = read_paths;
      write_paths = write_paths;
      side_effects = side_effects;
      network = network;
      listener = listener;
      environment = environment;
      max_uses = max_uses;
      expires_at = expires_at;
    }
    guard (valid_approval isalnum approval) capability_invariant
    ok approval
