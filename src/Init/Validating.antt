-- ===== src/Init/Validating.antt =====
-- `_validate_reviewed_state`: the review has seen what the files hold.
use mathlib.Core.Path.{ap₂}
use adaptive_harness.Prelude.{
  ℕ, String, ◌≡◌, refl, sym, ap, ◌∙◌, inr, Bool, true, not, List, [], ◌∷◌, Option, none, some,
  arith, same_list_refl, all, ◌==◌, ==_iff, &&-true, contains, initialization, plan_drift,
  value_error,
}
use adaptive_harness.Init.Io.{Bytes, Parts, Disk, Fate, require}
use adaptive_harness.Init.Journal.{PlannedChange, same_bytes, same_content, valid_target, Format}
use adaptive_harness.Init.Transaction.{parts_of, through_symlink, target, validate_from}
use adaptive_harness.Init.Hoare.{Pred, Triple, bind, Post-map, require_lem, read_file_lem}
use adaptive_harness.Init.Visible.{is_reserved, is_changed}
use adaptive_harness.Init.Restoring.{Reviewed, AllReviewed}

same_bytes-eq : (x y : Bytes) → same_bytes x y ≡ true → x ≡ y
same_bytes-eq [] [] h = refl
same_bytes-eq [] (b ∷ y) h = cc
same_bytes-eq (a ∷ x) [] h = cc
same_bytes-eq (a ∷ x) (b ∷ y) h =
    let (p, q) = &&-true (a == b) (same_bytes x y) h in
    ap₂ ◌∷◌ ((==_iff a b).0 p) (same_bytes-eq x y q)

same_content-eq : (x y : Option Bytes) → same_content x y ≡ true → x ≡ y
same_content-eq none none h = refl
same_content-eq none (some y) h = cc
same_content-eq (some x) none h = cc
same_content-eq (some x) (some y) h = ap some (same_bytes-eq x y h)

-- No change is of a file of the transaction itself.
abbrev pub all_free : List PlannedChange → Bool
all_free changes = all (λ c. not (is_reserved (parts_of c.path))) changes

abbrev pub all_listed : List PlannedChange → List PlannedChange → Bool
all_listed changes rest = all (λ c. is_changed changes (parts_of c.path)) rest

all_listed-cons :
    (c : PlannedChange) (changes rest : List PlannedChange)
    → all_listed changes rest ≡ true
    → all_listed (c ∷ changes) rest ≡ true
all_listed-cons c changes [] h = refl
all_listed-cons c changes (x ∷ rest) h = ground (arith, all_listed-cons c changes rest)

pub all_listed_refl : (changes : List PlannedChange) → all_listed changes changes ≡ true
all_listed_refl [] = refl
all_listed_refl (c ∷ changes) =
    rw (same_list_refl (parts_of c.path))
      (all_listed-cons c changes changes (all_listed_refl changes))

module _ (format : Format) (is_symlink : Parts → Bool) (d₀ : Disk) where
  -- What `_target` has checked of the path.
  abbrev Found : String → Parts → Type 0
  Found path t =
      (valid_target path ≡ true)
      × (not (through_symlink is_symlink [] (parts_of path)) ≡ true)
      × (t ≡ parts_of path)

  target-Found :
      (fate : ℕ → Fate) (P : Pred) (path : String)
      → Triple P (target format is_symlink fate path) (λ t d. P d × Found path t) P
  unfolding target
  target-Found fate P path =
      let valid = valid_target path in
      let plain = not (through_symlink is_symlink [] (parts_of path)) in
      let Q : Parts → Pred = λ t d. P d × Found path t in
      let P₁ : Pred = λ d. P d × (valid ≡ true) in
      bind P _ (λ u. P₁) _ Q P (require_lem P valid value_error P (λ d p. p))
        (λ u.
          bind P₁ _ (λ u d. P₁ d × (plain ≡ true)) _ Q P
            (require_lem P₁ plain initialization P (λ d p. p.0))
            (λ u s ((p, v), l). (p, (v, l, refl))))

  pub validate_from-AllReviewed :
      (fate : ℕ → Fate) (changes : List PlannedChange) (seen : List String)
      (rest : List PlannedChange)
      → all_free rest ≡ true
      → all_listed changes rest ≡ true
      → Triple
          (λ d. d ≡ d₀)
          (validate_from format is_symlink fate seen rest)
          (λ u d. (d ≡ d₀) × AllReviewed is_symlink changes d₀ rest)
          (λ d. d ≡ d₀)
  unfolding validate_from
  validate_from-AllReviewed fate changes seen [] f l = λ s p. (p, tt)
  validate_from-AllReviewed fate changes seen (c ∷ rest) f l =
      let P : Pred = λ d. d ≡ d₀ in
      let Q : Unit {0} → Pred = λ u d. (d ≡ d₀) × AllReviewed is_symlink changes d₀ (c ∷ rest) in
      let fresh = not (contains seen c.path) in
      bind P _ (λ u. P) _ Q P
        (λ s p.
          Post-map (require fresh initialization s) (λ u d. P d × (fresh ≡ true)) (λ u. P) P
            (λ u d h. h.0) (require_lem P fresh initialization P (λ d p. p) s p))
        (λ u.
          bind P _ (λ t d. P d × Found c.path t) _ Q P (target-Found fate P c.path)
            (λ t.
              let P₁ : Pred = λ d. P d × Found c.path t in
              bind P₁ _ (λ u d. P₁ d × (not (is_symlink t) ≡ true)) _ Q P
                (require_lem P₁ (not (is_symlink t)) initialization P (λ d p. p.0))
                (λ u.
                  let P₂ : Pred = λ d. P₁ d × (not (is_symlink t) ≡ true) in
                  let R : Option Bytes → Pred = λ o d. P₁ d × (o ≡ d₀ t) in
                  bind P₂ _ R _ Q P
                    (read_file_lem fate P₂ t R P (inr (λ d p. p.0.0))
                      (λ d p. (p.0, ap (λ f. f t) p.0.0)))
                    (λ o.
                      bind (R o) _ (λ u d. R o d × (same_content o c.before ≡ true)) _ Q P
                        (require_lem (R o) (same_content o c.before) plan_drift P (λ d p. p.0.0))
                        (λ u s (((p, (v, w, e)), r), m).
                          let before : d₀ (parts_of c.path) ≡ c.before =
                            ap d₀ (sym e) ∙ sym r ∙ same_content-eq o c.before m in
                          let reviewed : Reviewed is_symlink changes d₀ c = record {
                            valid = v;
                            plain = ground arith;
                            before = before;
                            free = ground arith;
                            listed =
                                (&&-true (is_changed changes (parts_of c.path))
                                  (all_listed changes rest) l).0;
                          } in
                          Post-map (validate_from format is_symlink fate (c.path ∷ seen) rest s)
                            (λ u d. (d ≡ d₀) × AllReviewed is_symlink changes d₀ rest) Q P
                            (λ u d (q, hs). (q, (reviewed, hs)))
                            (validate_from-AllReviewed fate changes (c.path ∷ seen) rest
                              (ground arith)
                              (&&-true (is_changed changes (parts_of c.path))
                                (all_listed changes rest) l).1
                              s p))))))
