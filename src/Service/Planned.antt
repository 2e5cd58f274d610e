-- ===== src/Service/Planned.antt =====
-- A planned task: what the envelope that `start` makes demands.
use mathlib.Core.Path.{subst}
use adaptive_harness.Prelude.{
  ℕ, suc, String, ◌≡◌, refl, ap, ◌∙◌, Bool, true, not, ◌&&◌, List, [], ◌∷◌, map, arith, all, subset,
  same_list, same_list_refl, ℤ, pos, ok, value_error, task_already_exists, envelope_invariant,
  >>=-eq-ok, guard-eq-ok, ok_path,
}
use adaptive_harness.Envelope.{
  TaskEnvelope, valid_envelope, valid_requirement, valid_acceptance, make_envelope,
}
use adaptive_harness.Store.{TaskRecord}
use adaptive_harness.Gateway.{Capability}
use adaptive_harness.Modules.{ActivationDecision, is_empty, activation_decisions}
use adaptive_harness.Service.{
  Stores, ServiceFacts, StartFacts, StartRequest, capability_ids_of, selected_capabilities,
  requirement_ids_of, acceptances_from, envelope_of, legacy_matches, planned_task,
}

-- Each acceptance is required and covers all requirements.
abbrev pub covers_all : TaskEnvelope → Bool
covers_all e =
    all (λ a. a.required && same_list a.covers (requirement_ids_of e.requirements)) e.acceptances

acceptances_from-covers :
    (n : ℕ) (covered : List String) (timeout_seconds retry_budget : ℤ) (cs : List String)
    → (all
          (λ a. a.required && same_list a.covers covered)
          (acceptances_from n covered timeout_seconds retry_budget cs)
        ≡ true)
      × (map (λ a. a.command_id) (acceptances_from n covered timeout_seconds retry_budget cs) ≡ cs)
unfolding acceptances_from
acceptances_from-covers n covered timeout_seconds retry_budget [] = (refl, refl)
acceptances_from-covers n covered timeout_seconds retry_budget (c ∷ cs) =
    let (covers, commands) =
      acceptances_from-covers (suc n) covered timeout_seconds retry_budget cs in
    (rw (same_list_refl covered) covers, ap (λ xs. c ∷ xs) commands)

-- What a planned task demands.
pub record Planned (facts : ServiceFacts) (e : TaskEnvelope) : Type 0 where
  pub valid : valid_envelope e ≡ true
  pub covered : covers_all e ≡ true
  pub commands : map (λ a. a.command_id) e.acceptances ≡ e.requested_capabilities
  pub capabilities : List Capability
  pub declared : facts.capabilities ≡ ok capabilities
  pub within : subset e.requested_capabilities (capability_ids_of capabilities) ≡ true

make_envelope-eq-ok :
    (e : TaskEnvelope) {e' : TaskEnvelope}
    → make_envelope e ≡ ok e'
    → (valid_envelope e ≡ true) × (e ≡ e')
make_envelope-eq-ok e h = ground arith

module _ (digest : TaskRecord → String) where
  pub planned_task-Planned :
      (sf : StartFacts) (q : StartRequest) (stores : Stores) {e : TaskEnvelope}
      {decisions : List ActivationDecision}
      → planned_task digest sf q stores ≡ ok (e, decisions)
      → Planned sf.observed e
  unfolding planned_task
  planned_task-Planned sf q stores h =
      let (config, configured, h₁) = >>=-eq-ok sf.config _ h in
      let (capabilities, declared, h₂) = >>=-eq-ok sf.observed.capabilities _ h₁ in
      let selected = selected_capabilities q capabilities in
      let (some_selected, h₃) = guard-eq-ok (not (is_empty selected)) value_error _ h₂ in
      let (within, h₄) =
        guard-eq-ok (subset selected (capability_ids_of capabilities)) value_error _ h₃ in
      let (decided, decides, h₅) =
        >>=-eq-ok
          (activation_decisions sf.modules sf.lock sf.disk q.task_traits selected
            q.manually_requested_modules (pos 2000))
          _ h₄ in
      let e₀ = envelope_of sf q config selected in
      let (requirements, h₆) =
        guard-eq-ok (all valid_requirement e₀.requirements) envelope_invariant _ h₅ in
      let (acceptances, h₇) =
        guard-eq-ok (all valid_acceptance e₀.acceptances) envelope_invariant _ h₆ in
      let (matches, finds, h₈) =
        >>=-eq-ok (legacy_matches digest sf.observed.snapshot stores e₀.task_id) _ h₇ in
      let (fresh, h₉) = guard-eq-ok (not matches) task_already_exists _ h₈ in
      let (e₁, makes, h₁₀) = >>=-eq-ok (make_envelope e₀) _ h₉ in
      let (valid, same) = make_envelope-eq-ok e₀ makes in
      let (covers, commands) =
        acceptances_from-covers 1 (requirement_ids_of e₀.requirements) q.timeout_seconds
          q.retry_budget selected in
      subst (Planned sf.observed) (same ∙ ap (λ x. x.0) (ok_path h₁₀)) (record {
        valid = valid;
        covered = covers;
        commands = commands;
        capabilities = capabilities;
        declared = declared;
        within = within;
      })
