-- ===== src/Json/Equality.antt =====
-- `==` holds of a JSON value built from texts or integers and itself.
use adaptive_harness.Prelude.{
  String, ◌≡◌, refl, true, List, [], ◌∷◌, Option, none, some, arith, eq_refl, ℤ, =ℤ_iff,
}
use adaptive_harness.Json.{
  str, num, items_eq, value_eq, str_items, num_items, strs, nums, str_or_null,
}

pub value_eq-str : (s : String) → value_eq (str s) (str s) ≡ true
unfolding value_eq
value_eq-str s = eq_refl s

pub value_eq-num : (n : ℤ) → value_eq (num n) (num n) ≡ true
unfolding value_eq
value_eq-num n = (=ℤ_iff n n).1 refl

pub value_eq-str_or_null : (s : Option String) → value_eq (str_or_null s) (str_or_null s) ≡ true
unfolding value_eq
value_eq-str_or_null none = refl
value_eq-str_or_null (some s) = eq_refl s

items_eq-str_items : (xs : List String) → items_eq (str_items xs) (str_items xs) ≡ true
unfolding items_eq
items_eq-str_items [] = refl
items_eq-str_items (x ∷ xs) = ground (arith, eq_refl x, items_eq-str_items xs)

items_eq-num_items : (xs : List ℤ) → items_eq (num_items xs) (num_items xs) ≡ true
unfolding items_eq
items_eq-num_items [] = refl
items_eq-num_items (x ∷ xs) = ground (arith, (=ℤ_iff x x).1 refl, items_eq-num_items xs)

pub value_eq-strs : (xs : List String) → value_eq (strs xs) (strs xs) ≡ true
unfolding value_eq
value_eq-strs xs = items_eq-str_items xs

pub value_eq-nums : (xs : List ℤ) → value_eq (nums xs) (nums xs) ≡ true
unfolding value_eq
value_eq-nums xs = items_eq-num_items xs
