-- ===== src/Service/Payloads.antt =====
-- An approval is read from its event as it was granted.
use adaptive_harness.Prelude.{ℕ, String, ◌≡◌, refl, Bool, true, List, [], ◌∷◌, some, Result, ok}
use adaptive_harness.Paths.{parse_path, show_path}
use adaptive_harness.Json.{Value, str, str_items}
use adaptive_harness.Verifier.{item_values}
use adaptive_harness.Gateway.{
  NetworkAccess, SideEffect, ExecutionEnvironment, network_value, side_effect_value,
  side_effect_values, environment_value, ScopedApproval, valid_approval,
}
use adaptive_harness.Service.{
  text_of, member_text, Clock, texts_in, network_of, environment_of, named_effect, all_side_effects,
  side_effects_of, approval_payload, approval_from_payload,
}

pub texts_in-str_items :
    (read : Value → Result String) (reads : (s : String) → read (str s) ≡ ok s) (ss : List String)
    → texts_in read (item_values (str_items ss)) ≡ ok ss
unfolding texts_in
texts_in-str_items read reads [] = refl
texts_in-str_items read reads (s ∷ ss) = rw (reads s, texts_in-str_items read reads ss) refl

pub network_of-value : (n : NetworkAccess) → network_of (network_value n) ≡ ok n
network_of-value NetworkAccess.none = refl
network_of-value NetworkAccess.outbound = refl

pub environment_of-value : (e : ExecutionEnvironment) → environment_of (environment_value e) ≡ ok e
environment_of-value ExecutionEnvironment.local = refl
environment_of-value ExecutionEnvironment.test = refl
environment_of-value ExecutionEnvironment.staging = refl
environment_of-value ExecutionEnvironment.production = refl

named_effect-value : (e : SideEffect) → named_effect (side_effect_value e) all_side_effects ≡ ok e
named_effect-value SideEffect.filesystem_read = refl
named_effect-value SideEffect.filesystem_write = refl
named_effect-value SideEffect.network = refl
named_effect-value SideEffect.listener = refl
named_effect-value SideEffect.dependency_change = refl
named_effect-value SideEffect.migration = refl
named_effect-value SideEffect.credentials = refl
named_effect-value SideEffect.production = refl
named_effect-value SideEffect.irreversible = refl

pub side_effects_of-values :
    (es : List SideEffect) → side_effects_of (side_effect_values es) ≡ ok es
unfolding side_effects_of
side_effects_of-values [] = refl
side_effects_of-values (e ∷ es) = rw (named_effect-value e, side_effects_of-values es) refl

-- The approval that `_approval_from_payload` reads from the payload that `_approval_payload` makes of a
-- valid approval is that approval, where `fromisoformat` reads the instant that `isoformat` wrote and
-- the path's text parses to the path.
pub from_payload-payload :
    (clock : Clock) (isalnum : ℕ → Bool) (a : ScopedApproval)
    → clock.read_time (clock.show_time a.expires_at) ≡ some a.expires_at
    → parse_path (show_path a.worktree_path) ≡ a.worktree_path
    → valid_approval isalnum a ≡ true
    → approval_from_payload clock isalnum (approval_payload clock a) ≡ ok a
unfolding approval_from_payload approval_payload
from_payload-payload clock isalnum a time path valid =
    rw
      (
        texts_in-str_items text_of (λ s. refl) a.read_paths,
        texts_in-str_items text_of (λ s. refl) a.write_paths,
        texts_in-str_items member_text (λ s. refl) (side_effect_values a.side_effects),
        side_effects_of-values a.side_effects,
        network_of-value a.network,
        environment_of-value a.environment,
        time,
        path,
        valid,
      )
      refl
