-- ===== src/Modules/Activation.antt =====
-- `decide_activation` (modules/model.py), and the decisions over all modules
-- (modules/manager.py).
use adaptive_harness.Prelude.{
  ℕ, ◌-◌, String, Bool, true, false, not, ◌&&◌, List, [], ◌∷◌, none, ltb, any, all, select,
  contains, subset, if◌then◌else◌, ◌=ˢ◌, ℤ, pos, negsuc, Result, ok, err, value_error, guard, ◌>>◌,
}
use Prim.Native.String.{◌++◌ as ◌<>◌, compare}
use Prim.Native.Nat.{Ordering}
use adaptive_harness.Modules.Defs.{
  ActivationPolicy, ActivationState, ModuleManifest, ActivationDecision, ModuleStatus,
}

abbrev pub is_policy : ActivationPolicy → ActivationPolicy → Bool
is_policy ActivationPolicy.auto ActivationPolicy.auto = true
is_policy ActivationPolicy.suggest ActivationPolicy.suggest = true
is_policy ActivationPolicy.manual ActivationPolicy.manual = true
is_policy ActivationPolicy.disabled ActivationPolicy.disabled = true
is_policy _ _ = false

-- `x < y` on texts
abbrev pub text_before : String → String → Bool
text_before x y = elim (compare x y) [ Ordering.lt ↦ true | _ ↦ false ]

-- `sorted(set(xs))`
abbrev pub insert_text : String → List String → List String
insert_text x [] = x ∷ []
insert_text x (y ∷ ys) = elim (compare x y) [
  | Ordering.lt ↦ x ∷ y ∷ ys
  | Ordering.eq ↦ y ∷ ys
  | Ordering.gt ↦ y ∷ insert_text x ys
]

abbrev pub sorted_set : List String → List String
sorted_set [] = []
sorted_set (x ∷ xs) = insert_text x (sorted_set xs)

-- `", ".join(xs)`
abbrev pub join_comma : List String → String
join_comma [] = ""
join_comma (x ∷ []) = x
join_comma (x ∷ y ∷ ys) = x <> ", " <> join_comma (y ∷ ys)

abbrev pub is_empty : List String → Bool
is_empty [] = true
is_empty (x ∷ xs) = false

abbrev pub missing_capabilities : ModuleManifest → List String → List String
missing_capabilities m available =
    sorted_set (select (λ c. not (contains available c)) m.required_capabilities)

abbrev pub decision : ModuleManifest → ActivationState → String → ActivationDecision
decision m state reason = record {
  module_id = m.id;
  state = state;
  reason = reason;
  context = none;
}

-- `decide_activation`
unfoldable pub decide_activation :
    ModuleManifest → Bool → List String → List String → Bool → ℕ → ActivationDecision
decide_activation m enabled task_traits available_capabilities manually_requested budget =
    if not enabled
    then decision m ActivationState.installed "not enabled"
    else if is_policy m.activation_policy ActivationPolicy.disabled
    then decision m ActivationState.enabled "policy disabled"
    else if any (contains task_traits) m.excludes_when
    then decision m ActivationState.enabled "task matches an exclusion"
    else if not (subset m.applies_when task_traits)
    then decision m ActivationState.enabled "task conditions do not match"
    else if not (is_empty (missing_capabilities m available_capabilities))
    then decision m ActivationState.blocked
        ("missing capabilities: " <> join_comma (missing_capabilities m available_capabilities))
    else if ltb budget m.cost.context_tokens
    then decision m ActivationState.blocked "context budget exceeded"
    else if is_policy m.activation_policy ActivationPolicy.suggest
    then decision m ActivationState.suggested "matching module requires approval"
    else if is_policy m.activation_policy ActivationPolicy.manual && not manually_requested
    then decision m ActivationState.enabled "manual activation not requested"
    else record {
      module_id = m.id;
      state = ActivationState.activated;
      reason = "activation conditions satisfied";
      context = m.content;
    }

abbrev pub is_activated : ActivationState → Bool
is_activated ActivationState.activated = true
is_activated _ = false

-- The manifest with the policy that the lock gives.
abbrev pub with_policy : ModuleStatus → ModuleManifest
with_policy s = record s.manifest { activation_policy = s.activation_policy }

module _ (task_traits available_capabilities manually_requested : List String) where
  abbrev pub decide_status : ModuleStatus → ℕ → ActivationDecision
  decide_status s remaining =
      decide_activation (with_policy s) s.enabled task_traits available_capabilities
        (contains manually_requested s.manifest.id) remaining

  -- What is left of the budget. No activated module costs more than what was left.
  abbrev pub budget_after : ModuleStatus → ℕ → ℕ
  budget_after s remaining =
      if is_activated (decide_status s remaining).state
      then remaining - s.manifest.cost.context_tokens
      else remaining

  -- The loop of `activation_decisions`.
  unfoldable pub decide_all : List ModuleStatus → ℕ → List ActivationDecision
  unfolding decide_activation
  decide_all [] remaining = []
  decide_all (s ∷ statuses) remaining =
      decide_status s remaining ∷ decide_all statuses (budget_after s remaining)

  abbrev pub decide_within : List ModuleStatus → ℤ → Result (List ActivationDecision)
  decide_within statuses (negsuc n) = err value_error
  decide_within statuses (pos budget) = do
    guard (all (λ id. any (λ s. s.manifest.id =ˢ id) statuses) manually_requested) value_error
    ok (decide_all statuses budget)
