-- ===== src/Json.antt =====
-- The JSON values that event data holds, with Python's `==`, `dict.get` and `hash` on them. Numbers
-- are integers: no event of the program holds a float.
pub mod Equality
use adaptive_harness.Prelude.{
  ℕ, suc, String, Bool, true, false, ◌&&◌, ◌||◌, List, [], ◌∷◌, ◌==◌, ◌=ˢ◌, if◌then◌else◌, ℤ, pos,
  ◌=ℤ◌, Option, none, some,
}

mutual
  -- The keys and values of an object, in their order.
  pub data Fields : Type 0 where
    end : Fields
    field : String → Value → Fields → Fields

  pub data Value : Type 0 where
    str : String → Value
    num : ℤ → Value
    bool : Bool → Value
    null : Value
    obj : Fields → Value
    arr : Items → Value

  -- The values of an array.
  pub data Items : Type 0 where
    nil : Items
    cons : Value → Items → Items

-- `k in d`
abbrev pub has_key : Fields → String → Bool
has_key end k = false
has_key (field j v d) k = j =ˢ k || has_key d k

-- `d.get(k)`: a missing key and a stored `null` both give `None`
abbrev pub get : Fields → String → Value
get end k = null
get (field j v d) k = if j =ˢ k then v else get d k

abbrev pub count_fields : Fields → ℕ
count_fields end = 0
count_fields (field k v d) = suc (count_fields d)

-- `True` is 1 and `False` is 0 in Python's `==`.
abbrev pub int_of : Bool → ℤ
int_of true = pos 1
int_of false = pos 0

abbrev pub same_bool : Bool → Bool → Bool
same_bool true b = b
same_bool false true = false
same_bool false false = true

-- `v == w`. Two objects are equal when they have as many keys and each key of one has an equal
-- value in the other; the order of the keys does not count.
unfoldable mutual
  pub value_eq : Value → Value → Bool
  value_eq null null = true
  value_eq (bool a) (bool b) = same_bool a b
  value_eq (bool a) (num n) = int_of a =ℤ n
  value_eq (num n) (bool b) = n =ℤ int_of b
  value_eq (num n) (num m) = n =ℤ m
  value_eq (str s) (str t) = s =ˢ t
  value_eq (arr xs) (arr ys) = items_eq xs ys
  value_eq (obj d) (obj e) = count_fields d == count_fields e && fields_within d e
  value_eq _ _ = false

  pub items_eq : Items → Items → Bool
  items_eq nil nil = true
  items_eq (cons x xs) (cons y ys) = value_eq x y && items_eq xs ys
  items_eq _ _ = false

  pub fields_within : Fields → Fields → Bool
  fields_within end e = true
  fields_within (field k v d) e = has_key e k && value_eq v (get e k) && fields_within d e

-- Lists and objects are not hashable: putting one into a `set` raises `TypeError`.
abbrev pub hashable : Value → Bool
hashable (arr xs) = false
hashable (obj d) = false
hashable _ = true

abbrev pub str_items : List String → Items
str_items [] = nil
str_items (x ∷ xs) = cons (str x) (str_items xs)

abbrev pub num_items : List ℤ → Items
num_items [] = nil
num_items (x ∷ xs) = cons (num x) (num_items xs)

-- `[...]` of texts
abbrev pub strs : List String → Value
strs xs = arr (str_items xs)

-- `[...]` of integers
abbrev pub nums : List ℤ → Value
nums xs = arr (num_items xs)

-- `None` or a text
abbrev pub str_or_null : Option String → Value
str_or_null none = null
str_or_null (some s) = str s

-- `None` or an integer
abbrev pub num_or_null : Option ℤ → Value
num_or_null none = null
num_or_null (some n) = num n
