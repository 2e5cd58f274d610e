-- ===== src/Modules/Rollback.antt =====
-- Rolling a trial back restores what was locked before it.
use mathlib.Core.Path.{subst}
use adaptive_harness.Prelude.{
  ℕ, suc, String, ◌≡◌, refl, sym, ap, ◌∙◌, inl, inr, Bool, true, false, not, ◌&&◌, List, [], ◌∷◌,
  Option, none, some, arith, ◌==◌, ◌=ˢ◌, any, length, Bool-cases, eq_iff, eq_refl, ok, value_error,
  >>=-eq-ok, guard-eq-ok, ok_path,
}
use adaptive_harness.Executor.{decimal}
use adaptive_harness.Modules.{
  ActivationPolicy, ModuleManifest, Source, TrialState, TrialResult, Trial, Document, ModuleHost,
  find, find_last, update_last, is_of, is_open, is_active_of, enter, with_result, has_result,
  new_trial, trial_manifest, get_builtin, record_result, promote, rollback, disable, enable,
  start_trial, resolve_manifest, active_trial, locked_item, latest_trial, load_local,
  builtin_modules, or_value_error, shows_benefit, set_enabled, policy_or, locked_of,
}
use adaptive_harness.Modules.Updates.{find_last-keeps, find_last-append, some_path}
use adaptive_harness.Modules.Lifecycle.{or_value_error-eq-ok, trials_path}
use adaptive_harness.Modules.Trials.{with_result-module_id}
use adaptive_harness.Modules.Lookups.{
  lookup, lookup-upsert, lookup-update_first, lookup-put_previous, found-id,
}

find-some : {A : Type 0} (p : A → Bool) (xs : List A) (x : A) → find p xs ≡ some x → p x ≡ true
find-some p [] x h = cc
find-some p (y ∷ xs) x h = ground (arith, find-some p xs x)

-- The manifest that is resolved has the id that was asked for.
resolve_manifest-named :
    (host : ModuleHost) (id : String) (local_manifest : Option String)
    {r : ModuleManifest × Source × Option String}
    → resolve_manifest host id local_manifest ≡ ok r
    → (r.0.id =ˢ id) ≡ true
unfolding resolve_manifest
resolve_manifest-named host id none h =
    let (m, found, h₁) = >>=-eq-ok (get_builtin host id) _ h in
    let named =
      find-some (λ m. m.id =ˢ id) builtin_modules m
        (or_value_error-eq-ok (find (λ m. m.id =ˢ id) builtin_modules) found) in
    let (compatible, h₂) = guard-eq-ok _ value_error _ h₁ in
    subst (λ r. (r.0.id =ˢ id) ≡ true) (ok_path h₂) named
resolve_manifest-named host id (some path) h =
    let (location, below, h₁) = >>=-eq-ok (or_value_error (host.relative_to_root path)) _ h in
    let (m, loads, h₂) = >>=-eq-ok (load_local host location) _ h₁ in
    let (named, h₃) = guard-eq-ok (m.id =ˢ id) value_error _ h₂ in
    subst (λ r. (r.0.id =ˢ id) ≡ true) (ok_path h₃) named

-- One operation on the module, other than a trial's start or rollback.
pub data Use (host : ModuleHost) (id : String) (d d' : Document) : Type 0 where
  enabled :
      (policy : Option ActivationPolicy) (local_manifest : Option String)
      → enable host id policy local_manifest d ≡ ok d'
      → Use host id d d'
  disabled : disable id d ≡ ok d' → Use host id d d'
  recorded : (r : TrialResult) → record_result id r d ≡ ok d' → Use host id d d'
  promoted : promote id d ≡ ok d' → Use host id d d'

pub data Uses (host : ModuleHost) (id : String) (d : Document) : Document → Type 0 where
  nothing : Uses host id d d
  next : {d' d'' : Document} → Uses host id d d' → Use host id d' d'' → Uses host id d d''

module _ (host : ModuleHost) (id : String) where
  -- The other modules are as in `d₀`, and the latest trial of this one keeps what was locked there.
  abbrev Kept : Document → Document → Type 0
  Kept d₀ d =
      ((k : String) → (id =ˢ k) ≡ false → lookup k d.modules ≡ lookup k d₀.modules)
      × ((t : Trial) × (find_last (is_of id) d.trials ≡ some t)
          × (t.previous ≡ lookup id d₀.modules))

  modules_path : {a b : Document} → a ≡ b → a.modules ≡ b.modules
  modules_path e = ap (λ x. x.modules) e

  Kept-updated :
      (q : Trial → Bool) (f : Trial → Trial) (d₀ d d' : Document)
      → ((x : Trial) → (f x).module_id ≡ x.module_id)
      → ((x : Trial) → (f x).previous ≡ x.previous)
      → d'.trials ≡ update_last q f d.trials
      → ((k : String) → (id =ˢ k) ≡ false → lookup k d'.modules ≡ lookup k d.modules)
      → Kept d₀ d
      → Kept d₀ d'
  Kept-updated q f d₀ d d' same keeps e others (was, (t, latest, p)) =
      let (t', latest', p') =
        find_last-keeps (is_of id) q f (λ x. ap (λ i. i =ˢ id) (same x)) (λ x. x.previous) d.trials
          t keeps latest in
      (λ k n. others k n ∙ was k n, (t', ap (find_last (is_of id)) e ∙ latest', p' ∙ p))

  Use-Kept : (d₀ d d' : Document) → Use host id d d' → Kept d₀ d → Kept d₀ d'
  unfolding enable disable record_result promote
  Use-Kept d₀ d d' (Use.enabled policy local_manifest h) (was, trial) =
      let ((m, source, location), found, h₁) =
        >>=-eq-ok (resolve_manifest host id local_manifest) _ h in
      let named = (eq_iff m.id id).0 (resolve_manifest-named host id local_manifest found) in
      let item = locked_of host.sha256 m source (policy_or m.activation_policy policy) location in
      let other : (k : String) → (id =ˢ k) ≡ false → lookup k d'.modules ≡ lookup k d.modules =
        λ k n.
          ap (lookup k) (sym (modules_path (ok_path h₁)))
          ∙ lookup-upsert k d.modules item (subst (λ i. (i =ˢ k) ≡ false) (sym named) n) in
      (
        λ k n. other k n ∙ was k n,
        subst
            (λ ts.
              (t : Trial) × (find_last (is_of id) ts ≡ some t)
              × (t.previous ≡ lookup id d₀.modules))
            (trials_path (ok_path h₁)) trial,
      )
  Use-Kept d₀ d d' (Use.disabled h) (was, trial) =
      let (item, found, h₁) = >>=-eq-ok (locked_item d id) _ h in
      (
        λ k n.
            ap (lookup k) (sym (modules_path (ok_path h₁)))
            ∙ lookup-update_first id k (set_enabled false) d.modules (λ x. refl) n
            ∙ was k n,
        subst
            (λ ts.
              (t : Trial) × (find_last (is_of id) ts ≡ some t)
              × (t.previous ≡ lookup id d₀.modules))
            (trials_path (ok_path h₁)) trial,
      )
  Use-Kept d₀ d d' (Use.recorded r h) kept =
      let (t, found, h₁) = >>=-eq-ok (active_trial d id) _ h in
      let (more, h₂) = guard-eq-ok (not (t.remaining_tasks == 0)) value_error _ h₁ in
      let (fresh, h₃) = guard-eq-ok (not (any (has_result r.task_id) t.results)) value_error _ h₂ in
      Kept-updated (is_active_of id) (with_result r) d₀ d d' (with_result-module_id r)
        (λ x. ground arith) (sym (trials_path (ok_path h₃)))
        (λ k n. ap (lookup k) (sym (modules_path (ok_path h₃)))) kept
  Use-Kept d₀ d d' (Use.promoted h) kept =
      let (t, found, h₁) = >>=-eq-ok (active_trial d id) _ h in
      let (done, h₂) = guard-eq-ok (t.remaining_tasks == 0) value_error _ h₁ in
      let (benefit, h₃) = guard-eq-ok (shows_benefit t.results) value_error _ h₂ in
      let (item, locked, h₄) = >>=-eq-ok (locked_item d id) _ h₃ in
      Kept-updated (is_active_of id) (enter TrialState.promoted) d₀ d d' (λ x. refl) (λ x. refl)
        (sym (trials_path (ok_path h₄)))
        (λ k n.
          ap (lookup k) (sym (modules_path (ok_path h₄)))
          ∙ lookup-update_first id k (set_enabled true) d.modules (λ x. refl) n)
        kept

  Uses-Kept : (d₀ d d' : Document) → Uses host id d d' → Kept d₀ d → Kept d₀ d'
  Uses-Kept d₀ d d' nothing kept = kept
  Uses-Kept d₀ d d' (next {d' = d₁} uses use_) kept =
      Use-Kept d₀ d₁ d' use_ (Uses-Kept d₀ d d₁ uses kept)

  rollback-restores :
      (d₀ d d' : Document)
      → Kept d₀ d
      → rollback id d ≡ ok d'
      → (k : String) → lookup k d'.modules ≡ lookup k d₀.modules
  unfolding rollback
  rollback-restores d₀ d d' (was, (t, latest, p)) h k =
      let (t', found, h₁) = >>=-eq-ok (latest_trial d id) _ h in
      let (still, h₂) = guard-eq-ok (is_open t'.state) value_error _ h₁ in
      let same : some t' ≡ some t =
        sym (or_value_error-eq-ok (find_last (is_of id) d.trials) found) ∙ latest in
      let previous : t'.previous ≡ lookup id d₀.modules =
        ap (λ x. x.previous) (some_path same) ∙ p in
      ap (lookup k) (sym (modules_path (ok_path h₂)))
      ∙ lookup-put_previous id k t'.previous d.modules
          (λ x e. found-id id d₀.modules (sym previous ∙ e))
      ∙ elim (Bool-cases (id =ˢ k)) [
        | inl e ↦ rw e (previous ∙ ap (λ i. lookup i d₀.modules) ((eq_iff id k).0 e))
        | inr n ↦ rw n (was k n)
      ]

  start_trial-Kept :
      (n : ℕ) (d d' : Document)
      → ((r : ModuleManifest × Source × Option String)
          → trial_manifest host id (lookup id d.modules) ≡ ok r
          → (r.0.id =ˢ id) ≡ true)
      → start_trial host id n d ≡ ok d'
      → Kept d d'
  unfolding start_trial
  start_trial-Kept n d d' named h =
      let (none_open, h₁) =
        guard-eq-ok (not (any (λ t. is_of id t && is_open t.state) d.trials)) value_error _ h in
      let ((m, source, location), found, h₂) =
        >>=-eq-ok (trial_manifest host id (lookup id d.modules)) _ h₁ in
      let m_id = (eq_iff m.id id).0 (named _ found) in
      let item = locked_of host.sha256 m source m.activation_policy location in
      let t = new_trial id (decimal (suc (length d.trials))) n m (lookup id d.modules) in
      (
        λ k other.
            ap (lookup k) (sym (modules_path (ok_path h₂)))
            ∙ lookup-upsert k d.modules item (subst (λ i. (i =ˢ k) ≡ false) (sym m_id) other),
        (
          t,
          ap (find_last (is_of id)) (sym (trials_path (ok_path h₂)))
              ∙ find_last-append (is_of id) d.trials t (eq_refl id),
          refl,
        ),
      )

-- A trial of a module is started, the module is then enabled and disabled, results are recorded and
-- the trial is promoted in any order and number, and the trial is rolled back: each module, this one
-- and every other, is then locked as it was before the trial. The manifest that the trial is of is
-- assumed to bear the module's id.
pub trial_rollback :
    (host : ModuleHost) (id : String) (n : ℕ) (d : Document) {d₁ d₂ d₃ : Document}
    → ((r : ModuleManifest × Source × Option String)
        → trial_manifest host id (lookup id d.modules) ≡ ok r
        → (r.0.id =ˢ id) ≡ true)
    → start_trial host id n d ≡ ok d₁
    → Uses host id d₁ d₂
    → rollback id d₂ ≡ ok d₃
    → (k : String) → lookup k d₃.modules ≡ lookup k d.modules
trial_rollback host id n d {d₁ = d₁} {d₂ = d₂} {d₃ = d₃} named starts uses rolls =
    rollback-restores host id d d₂ d₃
      (Uses-Kept host id d d₁ d₂ uses (start_trial-Kept host id n d d₁ named starts)) rolls
