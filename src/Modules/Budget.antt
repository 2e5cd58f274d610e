-- ===== src/Modules/Budget.antt =====
-- Activation decisions: when a module is activated, and the budget that the activated modules share.
use adaptive_harness.Prelude.{
  ℕ, ◌+◌, ◌-◌, ◌≤◌, String, ◌≡◌, refl, ◌⊎◌, inl, inr, ◌↔◌, Bool, true, false, not, List, [], ◌∷◌,
  none, arith, any, select, contains, subset, if◌then◌else◌, Bool-cases,
}
use adaptive_harness.Modules.{
  ActivationPolicy, ActivationState, ModuleManifest, ActivationDecision, ModuleStatus, insert_text,
  sorted_set, is_empty, decide_activation, is_activated, with_policy,
}

insert_text-is_empty : (x : String) (ys : List String) → is_empty (insert_text x ys) ≡ false
insert_text-is_empty x [] = refl
insert_text-is_empty x (y ∷ ys) = ground arith

-- No capability is missing when all that are required are available.
none_missing :
    (available required : List String)
    → is_empty (sorted_set (select (λ c. not (contains available c)) required))
      ≡ subset required available
none_missing available [] = refl
none_missing available (c ∷ required) = elim (Bool-cases (contains available c)) [
  | inl e ↦ rw e (none_missing available required)
  | inr n ↦ rw n (insert_text-is_empty c _)
]

-- What `decide_activation` asks of a module that it activates.
abbrev pub Activable : ModuleManifest → Bool → List String → List String → Bool → ℕ → Type 0
Activable m enabled task_traits available manually_requested budget =
    (enabled ≡ true)
    × ((m.activation_policy ≡ ActivationPolicy.auto)
        ⊎ ((m.activation_policy ≡ ActivationPolicy.manual) × (manually_requested ≡ true)))
    × (any (contains task_traits) m.excludes_when ≡ false)
    × (subset m.applies_when task_traits ≡ true)
    × (subset m.required_capabilities available ≡ true)
    × (m.cost.context_tokens ≤ budget)

module _ (m : ModuleManifest) (enabled : Bool) (task_traits available : List String)
    (manually_requested : Bool) (budget : ℕ) where
  abbrev decided : ActivationDecision
  unfolding decide_activation
  decided = decide_activation m enabled task_traits available manually_requested budget

  conditions :
      decided.state ≡ ActivationState.activated
      → Activable m enabled task_traits available manually_requested budget
  unfolding decide_activation
  conditions h = ground (arith, none_missing available m.required_capabilities)

  suffices :
      Activable m enabled task_traits available manually_requested budget
      → decided.state ≡ ActivationState.activated
  unfolding decide_activation
  suffices (e, p, x, a, c, b) = ground (arith, none_missing available m.required_capabilities)

  content_lem : decided.context ≡ (if is_activated decided.state then m.content else none)
  unfolding decide_activation
  content_lem = ground arith

  -- A module is activated when it is enabled, its policy is automatic, or manual with a request for it,
  -- no exclusion and all conditions are among the task's traits, the capabilities that it requires
  -- are available, and its context fits in the budget; and in no other case. Its content is in the
  -- decision when it is activated, and in no other case.
  pub decide_activation_iff :
      let d = decide_activation m enabled task_traits available manually_requested budget in
      ((d.state ≡ ActivationState.activated)
        ↔ Activable m enabled task_traits available manually_requested budget)
      × (d.context ≡ (if is_activated d.state then m.content else none))
  unfolding decide_activation
  decide_activation_iff = ((conditions, suffices), content_lem)

-- The context tokens of the modules that the decisions activate, one decision for each module.
abbrev pub activated_tokens : List ModuleStatus → List ActivationDecision → ℕ
activated_tokens (s ∷ statuses) (d ∷ decisions) =
    (if is_activated d.state then s.manifest.cost.context_tokens else 0)
    + activated_tokens statuses decisions
activated_tokens _ _ = 0

module _ (task_traits available manually_requested : List String) where
  -- One decision on each module, in the modules' order. Each activates its module exactly under the
  -- conditions for that, with the policy that the lock gives and the budget that the activated
  -- modules before it leave, and holds the module's content exactly then.
  abbrev pub Decided : List ModuleStatus → ℕ → List ActivationDecision → Type 0
  Decided [] remaining [] = Unit
  Decided [] remaining (d ∷ decisions) = ⊥
  Decided (s ∷ statuses) remaining [] = ⊥
  Decided (s ∷ statuses) remaining (d ∷ decisions) =
      (d.module_id ≡ s.manifest.id)
      × ((d.state ≡ ActivationState.activated)
          ↔ Activable (with_policy s) s.enabled task_traits available
              (contains manually_requested s.manifest.id) remaining)
      × (d.context ≡ (if is_activated d.state then s.manifest.content else none))
      × Decided statuses
          (if is_activated d.state then remaining - s.manifest.cost.context_tokens else remaining)
          decisions
