-- ===== src/Service/Declared.antt =====
-- Capabilities that are written as JSON load as they were.
use adaptive_harness.Prelude.{
  ℕ, ◌≡◌, refl, inl, inr, Bool, true, List, [], ◌∷◌, all, arith, Bool-cases, if◌then◌else◌, ℤ, ok,
  err, schema_validation,
}
use adaptive_harness.Json.{Fields, num_items}
use adaptive_harness.Verifier.{item_values}
use adaptive_harness.Gateway.{
  Reversibility, ApprovalPolicy, Capability, side_effect_values, valid_capability,
  unique_capabilities,
}
use adaptive_harness.Service.{
  text_of, numbers_in, reversibility_value, reversibility_of, approval_policy_value,
  approval_policy_of, capability_to_dict, build_capability, capability_from_dict, capabilities_from,
  load_capabilities, capability_items, capabilities_document,
}
use adaptive_harness.Service.Payloads.{
  texts_in-str_items, network_of-value, environment_of-value, side_effects_of-values,
}

numbers_in-num_items : (ns : List ℤ) → numbers_in (item_values (num_items ns)) ≡ ok ns
unfolding numbers_in
numbers_in-num_items [] = refl
numbers_in-num_items (n ∷ ns) = rw (numbers_in-num_items ns) refl

reversibility_of-value : (r : Reversibility) → reversibility_of (reversibility_value r) ≡ ok r
reversibility_of-value Reversibility.reversible = refl
reversibility_of-value Reversibility.conditional = refl
reversibility_of-value Reversibility.irreversible = refl

approval_policy_of-value :
    (p : ApprovalPolicy) → approval_policy_of (approval_policy_value p) ≡ ok p
approval_policy_of-value ApprovalPolicy.auto = refl
approval_policy_of-value ApprovalPolicy.ask = refl
approval_policy_of-value ApprovalPolicy.deny = refl

from_dict-to_dict :
    (isalnum : ℕ → Bool) (c : Capability)
    → valid_capability isalnum c ≡ true
    → capability_from_dict isalnum (capability_to_dict c) ≡ ok c
unfolding capability_from_dict build_capability capability_to_dict
from_dict-to_dict isalnum c valid =
    rw
      (
        texts_in-str_items text_of (λ s. refl) c.argv,
        texts_in-str_items text_of (λ s. refl) c.read_paths,
        texts_in-str_items text_of (λ s. refl) c.write_paths,
        texts_in-str_items text_of (λ s. refl) (side_effect_values c.side_effects),
        side_effects_of-values c.side_effects,
        network_of-value c.network,
        environment_of-value c.environment,
        reversibility_of-value c.reversibility,
        approval_policy_of-value c.approval_policy,
        numbers_in-num_items c.stop_on_exit_codes,
        valid,
      )
      refl

capabilities_from-dicts :
    (isalnum : ℕ → Bool) (cs : List Capability)
    → all (valid_capability isalnum) cs ≡ true
    → capabilities_from isalnum (item_values (capability_items cs)) ≡ ok cs
unfolding capabilities_from
capabilities_from-dicts isalnum [] valid = refl
capabilities_from-dicts isalnum (c ∷ cs) valid =
    rw
      (
        from_dict-to_dict isalnum c (ground arith),
        capabilities_from-dicts isalnum cs (ground arith),
      )
      refl

-- Valid capabilities with different ids load, in their order and as they were, from the document that
-- is made of them, where the capabilities schema's validator accepts that document; where it does
-- not, loading raises jsonschema's `ValidationError`.
pub load_capabilities-document :
    (isalnum : ℕ → Bool) (conforms : Fields → Bool) (cs : List Capability)
    → all (valid_capability isalnum) cs ≡ true
    → unique_capabilities cs ≡ true
    → load_capabilities isalnum conforms (capabilities_document cs)
      ≡ (if conforms (capabilities_document cs) then ok cs else err schema_validation)
unfolding load_capabilities
load_capabilities-document isalnum conforms cs valid unique =
    elim (Bool-cases (conforms (capabilities_document cs))) [
      | inl e ↦ rw (e, capabilities_from-dicts isalnum cs valid, unique) refl
      | inr n ↦ rw n refl
    ]
