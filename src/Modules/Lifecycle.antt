-- ===== src/Modules/Lifecycle.antt =====
-- Every sequence of operations on a lock keeps its trials sound.
use mathlib.Core.Path.{subst}
use adaptive_harness.Prelude.{
  ℕ, suc, String, ◌≡◌, refl, sym, ap, true, not, [], ◌∷◌, ◌++◌, Option, none, some, arith, ◌==◌,
  length, any, all, ok, value_error, ◌&&◌, >>=-eq-ok, guard-eq-ok, ok_path, all-append,
}
use adaptive_harness.Executor.{decimal}
use adaptive_harness.Modules.{
  ActivationPolicy, TrialState, TrialResult, Document, ModuleHost, find, find_last, has_id,
  or_value_error, is_of, is_open, is_active_of, enter, new_trial, with_result, has_result,
  trial_manifest, record_result, promote, rollback, disable, enable, start_trial, resolve_manifest,
  active_trial, locked_item, shows_benefit,
}
use adaptive_harness.Modules.Updates.{find_last-some}
use adaptive_harness.Modules.Trials.{
  is_sound, sound_trials, one_open-append, one_open, with_result-is_sound, with_result-closed,
  with_result-module_id, update_trials,
}

pub or_value_error-eq-ok :
    {A : Type 0} (o : Option A) {a : A} → or_value_error o ≡ ok a → o ≡ some a
or_value_error-eq-ok none h = cc
or_value_error-eq-ok (some a) h = ap some (ok_path h)

pub trials_path : {a b : Document} → a ≡ b → a.trials ≡ b.trials
trials_path e = ap (λ x. x.trials) e

module _ (d d' : Document) where
  record_result_sound :
      (id : String) (r : TrialResult)
      → record_result id r d ≡ ok d'
      → sound_trials d ≡ true
      → sound_trials d' ≡ true
  unfolding record_result
  record_result_sound id r h s =
      let (t, found, h₁) = >>=-eq-ok (active_trial d id) _ h in
      let (more, h₂) = guard-eq-ok (not (t.remaining_tasks == 0)) value_error _ h₁ in
      let (fresh, h₃) = guard-eq-ok (not (any (has_result r.task_id) t.results)) value_error _ h₂ in
      let at = or_value_error-eq-ok (find_last (is_active_of id) d.trials) found in
      let active = (find_last-some (is_active_of id) d.trials t at).1 in
      update_trials (is_active_of id) (with_result r) d d' at (sym (trials_path (ok_path h₃)))
        (with_result-is_sound r t (ground arith) (ground arith) (ground arith))
        (with_result-module_id r) (λ x e. with_result-closed r x) s

  promote_sound :
      (id : String) → promote id d ≡ ok d' → sound_trials d ≡ true → sound_trials d' ≡ true
  unfolding promote
  promote_sound id h s =
      let (t, found, h₁) = >>=-eq-ok (active_trial d id) _ h in
      let (done, h₂) = guard-eq-ok (t.remaining_tasks == 0) value_error _ h₁ in
      let (benefit, h₃) = guard-eq-ok (shows_benefit t.results) value_error _ h₂ in
      let (item, locked, h₄) = >>=-eq-ok (locked_item d id) _ h₃ in
      let at = or_value_error-eq-ok (find_last (is_active_of id) d.trials) found in
      let active = (find_last-some (is_active_of id) d.trials t at).1 in
      update_trials (is_active_of id) (enter TrialState.promoted) d d' at
        (sym (trials_path (ok_path h₄))) (λ g. ground arith) (λ x. refl) (λ x e n. ground arith) s

  rollback_sound :
      (id : String) → rollback id d ≡ ok d' → sound_trials d ≡ true → sound_trials d' ≡ true
  unfolding rollback
  rollback_sound id h s =
      let (t, found, h₁) = >>=-eq-ok (or_value_error (find_last (is_of id) d.trials)) _ h in
      let (still, h₂) = guard-eq-ok (is_open t.state) value_error _ h₁ in
      update_trials (is_of id) (enter TrialState.rolled_back) d d'
        (or_value_error-eq-ok (find_last (is_of id) d.trials) found)
        (sym (trials_path (ok_path h₂))) (λ g. ground arith) (λ x. refl) (λ x e n. refl) s

  start_trial_sound :
      (host : ModuleHost) (id : String) (n : ℕ)
      → start_trial host id n d ≡ ok d'
      → sound_trials d ≡ true
      → sound_trials d' ≡ true
  unfolding start_trial
  start_trial_sound host id n h s =
      let (none_open, h₁) =
        guard-eq-ok (not (any (λ t. is_of id t && is_open t.state) d.trials)) value_error _ h in
      let ((m, source, location), found, h₂) =
        >>=-eq-ok (trial_manifest host id (find (has_id id) d.modules)) _ h₁ in
      let t = new_trial id (decimal (suc (length d.trials))) n m (find (has_id id) d.modules) in
      let ends : d'.trials ≡ d.trials ++ t ∷ [] = sym (trials_path (ok_path h₂)) in
      let one = one_open-append d.trials t (ground arith) (ground arith) in
      rw (ends, all-append is_sound d.trials (t ∷ []), one) (ground arith)

  enable_sound :
      (host : ModuleHost) (id : String) (policy : Option ActivationPolicy)
      (local_manifest : Option String)
      → enable host id policy local_manifest d ≡ ok d'
      → sound_trials d ≡ true
      → sound_trials d' ≡ true
  unfolding enable
  enable_sound host id policy local_manifest h s =
      let ((m, source, location), found, h₁) =
        >>=-eq-ok (resolve_manifest host id local_manifest) _ h in
      subst (λ ts. all is_sound ts && one_open ts ≡ true) (trials_path (ok_path h₁)) s

  disable_sound :
      (id : String) → disable id d ≡ ok d' → sound_trials d ≡ true → sound_trials d' ≡ true
  unfolding disable
  disable_sound id h s =
      let (item, found, h₁) = >>=-eq-ok (locked_item d id) _ h in
      subst (λ ts. all is_sound ts && one_open ts ≡ true) (trials_path (ok_path h₁)) s

-- One operation on a lock.
pub data Step (host : ModuleHost) (d d' : Document) : Type 0 where
  enabled :
      (id : String) (policy : Option ActivationPolicy) (local_manifest : Option String)
      → enable host id policy local_manifest d ≡ ok d'
      → Step host d d'
  disabled : (id : String) → disable id d ≡ ok d' → Step host d d'
  started : (id : String) (n : ℕ) → start_trial host id n d ≡ ok d' → Step host d d'
  recorded : (id : String) (r : TrialResult) → record_result id r d ≡ ok d' → Step host d d'
  promoted : (id : String) → promote id d ≡ ok d' → Step host d d'
  rolled_back : (id : String) → rollback id d ≡ ok d' → Step host d d'

pub data Steps (host : ModuleHost) (d : Document) : Document → Type 0 where
  nothing : Steps host d d
  next : {d' d'' : Document} → Steps host d d' → Step host d' d'' → Steps host d d''

Step_sound :
    (host : ModuleHost) (d d' : Document)
    → Step host d d'
    → sound_trials d ≡ true
    → sound_trials d' ≡ true
Step_sound host d d' (Step.enabled id policy local_manifest h) =
    enable_sound d d' host id policy local_manifest h
Step_sound host d d' (Step.disabled id h) = disable_sound d d' id h
Step_sound host d d' (Step.started id n h) = start_trial_sound d d' host id n h
Step_sound host d d' (Step.recorded id r h) = record_result_sound d d' id r h
Step_sound host d d' (Step.promoted id h) = promote_sound d d' id h
Step_sound host d d' (Step.rolled_back id h) = rollback_sound d d' id h

-- Whatever operations on a lock follow each other, its trials stay sound if they were: the results of
-- each and its remaining tasks add up to its tasks, no task counts twice, an open trial is within
-- its runtime budget, a promoted one has all results with a beneficial majority, and a module has
-- one open trial at most.
pub Steps_sound :
    (host : ModuleHost) (d : Document) {d' : Document}
    → Steps host d d'
    → sound_trials d ≡ true
    → sound_trials d' ≡ true
Steps_sound host d nothing s = s
Steps_sound host d (next {d' = d'} {d'' = d''} steps step) s =
    Step_sound host d' d'' step (Steps_sound host d steps s)
