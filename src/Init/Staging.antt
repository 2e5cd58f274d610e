-- ===== src/Init/Staging.antt =====
-- The first part of `apply` under `try`: the changes are written below the staging directory.
use mathlib.Core.Path.{subst}
use adaptive_harness.Prelude.{
  ℕ, String, ◌≡◌, refl, sym, ◌∙◌, Bool, true, false, not, ◌&&◌, List, [], ◌∷◌, ◌++◌, Option, some,
  arith, same_list, same_list-eq, same_list_refl, eq_refl, Bool-cases, inl, inr,
}
use adaptive_harness.Init.Io.{Bytes, Parts, Disk, put, remove, Fate}
use adaptive_harness.Init.Journal.{PlannedChange, Format}
use adaptive_harness.Init.Transaction.{staging_dir, parts_of, staged_path, stage}
use adaptive_harness.Init.Hoare.{Pred, Triple, bind, both, effect_lem}
use adaptive_harness.Init.Visible.{is_reserved, is_changed}

-- No two changes are of the same file.
abbrev pub distinct_targets : List PlannedChange → Bool
distinct_targets [] = true
distinct_targets (c ∷ changes) =
    not (is_changed changes (parts_of c.path)) && distinct_targets changes

same_list-append : (a p q : Parts) → same_list (a ++ p) (a ++ q) ≡ same_list p q
same_list-append [] p q = refl
same_list-append (x ∷ a) p q = rw (eq_refl x) (same_list-append a p q)

pub same_list_sym : (p q : Parts) → same_list p q ≡ false → same_list q p ≡ false
same_list_sym p q h = elim (Bool-cases (same_list q p)) [
  | inl e ↦ cc (same_list_refl q, subst (λ x. same_list x q ≡ false) (sym (same_list-eq q p e)) h)
  | inr n ↦ n
]

pub staged_reserved :
    (transaction_id path : String) → is_reserved (staged_path transaction_id path) ≡ true
staged_reserved transaction_id path = refl

-- The content of each change stands in the staging directory.
abbrev pub Staged : String → List PlannedChange → Pred
Staged transaction_id [] d = Unit {0}
Staged transaction_id (c ∷ changes) d =
    (d (staged_path transaction_id c.path) ≡ some c.after) × Staged transaction_id changes d

-- What is staged stays when files outside the staging directory change.
pub Staged-put :
    (transaction_id : String) (changes : List PlannedChange) (t : Parts) (content : Bytes)
    (d : Disk)
    → is_reserved t ≡ false
    → Staged transaction_id changes d
    → Staged transaction_id changes (put t content d)
Staged-put transaction_id [] t content d r h = tt
Staged-put transaction_id (c ∷ changes) t content d r (h, hs) =
    elim (Bool-cases (same_list t (staged_path transaction_id c.path))) [
      | inl e ↦
          let clash : is_reserved t ≡ true =
            subst (λ x. is_reserved x ≡ true)
              (sym (same_list-eq t (staged_path transaction_id c.path) e))
              (staged_reserved transaction_id c.path) in
          cc
      | inr n ↦ (rw n h, Staged-put transaction_id changes t content d r hs)
    ]

pub Staged-remove :
    (transaction_id : String) (changes : List PlannedChange) (q : Parts) (d : Disk)
    → is_changed changes q ≡ false
    → Staged transaction_id changes d
    → Staged transaction_id changes (remove (staging_dir transaction_id ++ q) d)
Staged-remove transaction_id [] q d n h = tt
Staged-remove transaction_id (c ∷ changes) q d n (h, hs) =
    let other : same_list (staging_dir transaction_id ++ q) (staged_path transaction_id c.path)
        ≡ false =
      same_list-append (staging_dir transaction_id) q (parts_of c.path)
      ∙ same_list_sym (parts_of c.path) q (ground arith) in
    (rw other h, Staged-remove transaction_id changes q d (ground arith) hs)

module _ (format : Format) (is_symlink : Parts → Bool) (fate : ℕ → Fate) where
  abbrev always : Pred
  always d = Unit {0}

  -- Staging leaves what no change is staged at.
  stage-frame :
      (transaction_id : String) (changes : List PlannedChange) (q : Parts) (x : Option Bytes)
      → is_changed changes q ≡ false
      → Triple
          (λ d. d (staging_dir transaction_id ++ q) ≡ x)
          (stage format is_symlink fate transaction_id changes)
          (λ u d. d (staging_dir transaction_id ++ q) ≡ x)
          (λ d. Unit {0})
  unfolding stage
  stage-frame transaction_id [] q x n = λ s p. p
  stage-frame transaction_id (c ∷ changes) q x n =
      let P : Pred = λ d. d (staging_dir transaction_id ++ q) ≡ x in
      let E : Pred = λ d. Unit {0} in
      bind P _ (λ u. P) _ (λ u. P) E
        (effect_lem fate P (λ d. d) (λ u. P) E (inr (λ d p. tt)) (λ d p. p))
        (λ u.
          bind P _ (λ u. P) _ (λ u. P) E
            (effect_lem fate P (put (staged_path transaction_id c.path) c.after) (λ u. P) E
              (inr (λ d p. tt))
              (λ d p.
                let other : same_list (staged_path transaction_id c.path)
                      (staging_dir transaction_id ++ q)
                    ≡ false =
                  same_list-append (staging_dir transaction_id) (parts_of c.path) q
                  ∙ ground arith in
                rw other p))
            (λ u. stage-frame transaction_id changes q x (ground arith)))

  pub stage-Staged :
      (transaction_id : String) (changes : List PlannedChange)
      → distinct_targets changes ≡ true
      → Triple
          (λ d. Unit {0})
          (stage format is_symlink fate transaction_id changes)
          (λ u. Staged transaction_id changes)
          (λ d. Unit {0})
  unfolding stage
  stage-Staged transaction_id [] n = λ s p. tt
  stage-Staged transaction_id (c ∷ changes) n =
      let T : Pred = λ d. Unit {0} in
      let here : Pred = λ d. d (staged_path transaction_id c.path) ≡ some c.after in
      bind T _ (λ u. T) _ (λ u. Staged transaction_id (c ∷ changes)) T
        (effect_lem fate T (λ d. d) (λ u. T) T (inr (λ d p. tt)) (λ d p. tt))
        (λ u.
          bind T _ (λ u. here) _ (λ u. Staged transaction_id (c ∷ changes)) T
            (effect_lem fate T (put (staged_path transaction_id c.path) c.after) (λ u. here) T
              (inr (λ d p. tt))
              (λ d p. rw (same_list_refl (staged_path transaction_id c.path)) refl))
            (λ u s p.
              both here T _ (λ u. here) (λ u. Staged transaction_id changes) T T
                (stage-frame transaction_id changes (parts_of c.path) (some c.after) (ground arith))
                (stage-Staged transaction_id changes (ground arith)) s (p, tt)))
