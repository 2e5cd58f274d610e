-- ===== src/Prelude/Words.antt =====
-- Text: Python's `str` as the native `String`, and sets of texts as lists.
use Prim.Native.Nat.{ℕ}
use Prim.Native.Char.{code}
use Prim.Native.String.{String}
use mathlib.Core.Path.{◌≡◌, refl, ap₂}
use mathlib.Core.Logic.{◌↔◌, inl, inr}
use mathlib.Core.Bool.{Bool, true, false, not, ◌&&◌, ◌||◌}
use mathlib.Core.List.{List, [], ◌∷◌}
use native.Mathlib.Omega.{arith}
use text.Mathlib.Text.{◌==◌ as ◌=ˢ◌}
use text.Mathlib.TextEquality.{eq_iff}
use adaptive_harness.Prelude.Tests.{leb, ◌==◌, Bool-cases, &&-true}
use adaptive_harness.Prelude.Lists.{all, In}

-- The code points of a text.
abbrev pub codes : String → List ℕ
codes String.[] = []
codes (String.◌∷◌ c s) = code c ∷ codes s

-- The characters that `str.strip` removes.
abbrev pub is_space : ℕ → Bool
is_space c =
    leb 9 c && leb c 13
    || leb 28 c && leb c 32
    || c == 133
    || c == 160
    || c == 5760
    || leb 8192 c && leb c 8202
    || c == 8232
    || c == 8233
    || c == 8239
    || c == 8287
    || c == 12288

-- `not s.strip()`
unfoldable pub is_blank : String → Bool
is_blank s = all is_space (codes s)

-- `a in xs`
abbrev pub contains : List String → String → Bool
contains [] a = false
contains (x ∷ xs) a = x =ˢ a || contains xs a

-- `set(xs) <= set(ys)`
abbrev pub subset : List String → List String → Bool
subset xs ys = all (contains ys) xs

-- `set(xs) == set(ys)`
abbrev pub same_set : List String → List String → Bool
same_set xs ys = subset xs ys && subset ys xs

-- `xs == ys` for lists of texts
abbrev pub same_list : List String → List String → Bool
same_list [] [] = true
same_list (x ∷ xs) (y ∷ ys) = x =ˢ y && same_list xs ys
same_list _ _ = false

-- `len(set(xs)) == len(xs)`
abbrev pub is_nodup : List String → Bool
is_nodup [] = true
is_nodup (x ∷ xs) = not (contains xs x) && is_nodup xs

pub contains-In : (xs : List String) (a : String) → (contains xs a ≡ true) ↔ In a xs
contains-In [] a = (λ h. cc, λ i. elim i [ ])
contains-In (x ∷ xs) a = (
  λ h. elim (Bool-cases (x =ˢ a)) [
    | inl e ↦ inl ((eq_iff x a).0 e)
    | inr e ↦ inr ((contains-In xs a).0 (ground arith))
  ],
  λ i. elim i [
    | inl e ↦ ground (arith, eq_iff x a)
    | inr j ↦ ground (arith, (contains-In xs a).1 j)
  ],
)

pub subset-contains :
    (xs ys : List String) (a : String)
    → subset xs ys ≡ true
    → contains xs a ≡ true
    → contains ys a ≡ true
subset-contains [] ys a h c = cc
subset-contains (x ∷ xs) ys a h c = ground (arith, eq_iff x a, subset-contains xs ys a)

pub subset-intro :
    (xs ys : List String)
    → ((a : String) → contains xs a ≡ true → contains ys a ≡ true)
    → subset xs ys ≡ true
subset-intro [] ys h = refl
subset-intro (x ∷ xs) ys h =
    ground (arith, eq_iff x x, h x, subset-intro xs ys (λ a c. h a (ground arith)))

pub subset_refl : (xs : List String) → subset xs xs ≡ true
subset_refl xs = subset-intro xs xs (λ a h. h)

pub subset_trans :
    (xs ys zs : List String) → subset xs ys ≡ true → subset ys zs ≡ true → subset xs zs ≡ true
subset_trans xs ys zs h k =
    subset-intro xs zs (λ a c. subset-contains ys zs a k (subset-contains xs ys a h c))

pub same_list_refl : (xs : List String) → same_list xs xs ≡ true
same_list_refl [] = refl
same_list_refl (x ∷ xs) = ground (arith, eq_iff x x, same_list_refl xs)

pub same_list-eq : (xs ys : List String) → same_list xs ys ≡ true → xs ≡ ys
same_list-eq [] [] h = refl
same_list-eq [] (y ∷ ys) h = cc
same_list-eq (x ∷ xs) [] h = cc
same_list-eq (x ∷ xs) (y ∷ ys) h =
    let (p, q) = &&-true (x =ˢ y) (same_list xs ys) h in
    ap₂ ◌∷◌ ((eq_iff x y).0 p) (same_list-eq xs ys q)
