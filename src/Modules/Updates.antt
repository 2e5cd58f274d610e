-- ===== src/Modules/Updates.antt =====
-- Finding and updating the last element that passes a test, as the operations on trials do it.
use adaptive_harness.Prelude.{
  ◌≡◌, refl, inl, inr, Bool, true, false, List, [], ◌∷◌, ◌++◌, Option, some, arith, any, any-append,
  all, Bool-cases,
}
use adaptive_harness.Modules.{find_last, update_last}

module _ {A : Type 0} (q : A → Bool) where
  pub find_last-some :
      (xs : List A) (a : A) → find_last q xs ≡ some a → (any q xs ≡ true) × (q a ≡ true)
  find_last-some [] a h = cc
  find_last-some (x ∷ xs) a h = ground (arith, find_last-some xs a)

  -- The update keeps what holds of all elements and of the updated one.
  pub update_last-all :
      (p : A → Bool) (f : A → A) (xs : List A) {a : A}
      → find_last q xs ≡ some a
      → (p a ≡ true → p (f a) ≡ true)
      → all p xs ≡ true
      → all p (update_last q f xs) ≡ true
  update_last-all p f [] h k g = refl
  update_last-all p f (x ∷ xs) {a = a} h k g = ground (arith, update_last-all p f xs {a = a})

  -- A test that the update makes true for no element.
  pub update_last-any :
      (p : A → Bool) (f : A → A) (xs : List A)
      → ((x : A) → q x ≡ true → p x ≡ false → p (f x) ≡ false)
      → any p xs ≡ false
      → any p (update_last q f xs) ≡ false
  update_last-any p f [] k g = refl
  update_last-any p f (x ∷ xs) k g = ground (arith, update_last-any p f xs, k x)

module _ {A : Type 0} (p q : A → Bool) (f : A → A) (same : (x : A) → p (f x) ≡ p x) where
  pub any-update_last : (xs : List A) → any p (update_last q f xs) ≡ any p xs
  any-update_last [] = refl
  any-update_last (x ∷ xs) = ground (arith, same x, any-update_last xs)

  -- What the update keeps of an element, it keeps of the last one that passes.
  pub find_last-keeps :
      {B : Type 0} (g : A → B) (xs : List A) (t : A)
      → ((x : A) → g (f x) ≡ g x)
      → find_last p xs ≡ some t
      → (t' : A) × (find_last p (update_last q f xs) ≡ some t') × (g t' ≡ g t)
  find_last-keeps g [] t keeps h = cc
  find_last-keeps g (x ∷ xs) t keeps h = elim (Bool-cases (any q xs)) [
    | inl e ↦
        rw (e, any-update_last xs)
          (elim (Bool-cases (any p xs)) [
            | inl i ↦ rw i (find_last-keeps g xs t keeps (ground arith))
            | inr n ↦ rw n (t, ground arith, refl)
          ])
    | inr m ↦ rw m (elim (Bool-cases (any p xs)) [
      | inl i ↦ rw i (t, ground arith, refl)
      | inr n ↦ elim (Bool-cases (q x)) [
        | inl j ↦ rw (j, n, same x) (f t, ground arith, keeps t)
        | inr k ↦ rw (k, n) (t, ground arith, refl)
      ]
    ])
  ]

pub find_last-append :
    {A : Type 0} (p : A → Bool) (xs : List A) (t : A)
    → p t ≡ true
    → find_last p (xs ++ t ∷ []) ≡ some t
find_last-append p [] t h = ground arith
find_last-append p (x ∷ xs) t h =
    ground (arith, find_last-append p xs t h, any-append p xs (t ∷ []))

pub some_path : {A : Type 0} {a b : A} → ◌≡◌ {A = Option A} (some a) (some b) → a ≡ b
some_path h = cc
