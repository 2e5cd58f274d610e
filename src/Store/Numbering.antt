-- ===== src/Store/Numbering.antt =====
-- Lists that are numbered in a row, and tests on neighbours, at one more element.
use mathlib.Core.List.{map-append}
use adaptive_harness.Prelude.{
  ℕ, suc, ◌+◌, ◌≡◌, refl, ap, Bool, true, ◌&&◌, List, [], ◌∷◌, ◌++◌, map, arith, ◌==◌, all, length,
  last_or, &&-true,
}
use adaptive_harness.Store.Checks.{numbered_from, all_pairs}

numbered_from-append :
    (n : ℕ) (xs : List ℕ) (y : ℕ)
    → numbered_from n (xs ++ y ∷ []) ≡ (numbered_from n xs && y == n + length xs)
numbered_from-append n [] y = ground arith
numbered_from-append n (x ∷ xs) y = ground (arith, numbered_from-append (suc n) xs y)

length-map : {A : Type 0} (f : A → ℕ) (xs : List A) → length (map f xs) ≡ length xs
length-map f [] = refl
length-map f (x ∷ xs) = ap suc (length-map f xs)

module _ {A : Type 0} (number : A → ℕ) where
  -- One more element continues the row when it has the next number.
  pub numbered-snoc :
      (n : ℕ) (xs : List A) (y : A)
      → numbered_from n (map number xs) ≡ true
      → number y ≡ n + length xs
      → numbered_from n (map number (xs ++ y ∷ [])) ≡ true
  numbered-snoc n xs y h e =
      rw map-append
        (ground (arith, numbered_from-append n (map number xs) (number y), length-map number xs))

  -- The last element's number counts the elements.
  pub numbered-last :
      (n : ℕ) (x : A) (xs : List A)
      → numbered_from n (map number (x ∷ xs)) ≡ true
      → number (last_or x xs) ≡ n + length xs
  numbered-last n x [] h = ground arith
  numbered-last n x (y ∷ ys) h = ground (arith, numbered-last (suc n) y ys)

module _ {A : Type 0} where
  pub all_pairs-snoc :
      (test : A → A → Bool) (x : A) (xs : List A) (y : A)
      → all_pairs test x (xs ++ y ∷ []) ≡ (all_pairs test x xs && test (last_or x xs) y)
  all_pairs-snoc test x [] y = ground arith
  all_pairs-snoc test x (z ∷ xs) y = ground (arith, all_pairs-snoc test z xs y)

  pub all-last :
      (p : A → Bool) (x : A) (xs : List A) → p x ≡ true → all p xs ≡ true → p (last_or x xs) ≡ true
  all-last p x [] h k = h
  all-last p x (y ∷ xs) h k = let (a, b) = &&-true (p y) (all p xs) k in all-last p y xs a b
