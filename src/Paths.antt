-- ===== src/Paths.antt =====
-- `PurePosixPath` and `Path` of pathlib, as core/gateway.py, core/verifier.py and core/envelope.py
-- use them: parsing, joining, equality and `is_relative_to`. `Path.resolve`, which reads the file
-- system, is a parameter of the functions that call it.
use adaptive_harness.Prelude.{
  ℕ, suc, String, code, ◌≡◌, refl, Bool, true, false, not, ◌&&◌, ◌||◌, List, [], ◌∷◌, ◌++◌, arith,
  ◌==◌, ◌=ˢ◌, eq_iff, select, contains, same_list, if◌then◌else◌, same_list_refl, same_list-eq,
  &&-true, Bool-cases, inl, inr,
}
use mathlib.Core.Path.{subst}
use Prim.Native.String.{◌++◌ as ◌<>◌}

-- No root, `/`, or the root `//` that POSIX keeps apart.
pub data Root : Type 0 where
  relative single double : Root

pub record PosixPath : Type 0 where
  pub root : Root
  pub parts : List String

-- The text up to the first `/`, and the pieces after it.
split_slash : String → String × List String
split_slash String.[] = ("", [])
split_slash (String.◌∷◌ c s) =
    let (w, ws) = split_slash s in if code c == b'/' then ("", w ∷ ws) else (String.◌∷◌ c w, ws)

leading_slashes : String → ℕ
leading_slashes String.[] = 0
leading_slashes (String.◌∷◌ c s) = let n = leading_slashes s in if code c == b'/' then suc n else 0

abbrev root_of : ℕ → Root
root_of n = if n == 0 then Root.relative else if n == 2 then Root.double else Root.single

abbrev is_part : String → Bool
is_part w = not (w =ˢ "" || w =ˢ ".")

-- `PurePosixPath(s)`: empty and `.` components are dropped.
unfoldable pub parse_path : String → PosixPath
unfolding split_slash leading_slashes
parse_path s =
    let (w, ws) = split_slash s in
    record { root = root_of (leading_slashes s); parts = select is_part (w ∷ ws) }

abbrev pub same_root : Root → Root → Bool
same_root relative relative = true
same_root single single = true
same_root double double = true
same_root _ _ = false

-- `path.is_absolute()`
abbrev pub is_absolute : PosixPath → Bool
is_absolute p = not (same_root p.root relative)

-- `".." in path.parts`
abbrev pub has_parent_part : PosixPath → Bool
has_parent_part p = contains p.parts ".."

-- `p == q`
abbrev pub same_path : PosixPath → PosixPath → Bool
same_path p q = same_root p.root q.root && same_list p.parts q.parts

abbrev pub is_prefix : List String → List String → Bool
is_prefix [] ys = true
is_prefix (x ∷ xs) [] = false
is_prefix (x ∷ xs) (y ∷ ys) = x =ˢ y && is_prefix xs ys

-- `p.is_relative_to(q)`: `q` is `p` or one of its parents
abbrev pub is_relative_to : PosixPath → PosixPath → Bool
is_relative_to p q = same_root p.root q.root && is_prefix q.parts p.parts

-- `p / s`: an absolute right side replaces the left one
unfoldable pub join_path : PosixPath → String → PosixPath
unfolding parse_path
join_path p s =
    let q = parse_path s in
    if is_absolute q then q else record { root = p.root; parts = p.parts ++ q.parts }

join_parts : List String → String
join_parts [] = ""
join_parts (p ∷ []) = p
join_parts (p ∷ q ∷ ps) = p <> ("/" <> join_parts (q ∷ ps))

-- `str(p)`
unfoldable pub show_path : PosixPath → String
unfolding join_parts
show_path p = elim p.root [
  | relative ↦ elim p.parts [ [] ↦ "." | x ∷ xs ↦ join_parts (x ∷ xs) ]
  | single ↦ "/" <> join_parts p.parts
  | double ↦ "//" <> join_parts p.parts
]

pub same_root_refl : (r : Root) → same_root r r ≡ true
same_root_refl relative = refl
same_root_refl single = refl
same_root_refl double = refl

pub same_path_refl : (p : PosixPath) → same_path p p ≡ true
same_path_refl p = ground (arith, same_root_refl p.root, same_list_refl p.parts)

same_root-eq : (r s : Root) → same_root r s ≡ true → r ≡ s
same_root-eq r s h = ground arith

pub same_path-eq : (p q : PosixPath) → same_path p q ≡ true → p ≡ q
same_path-eq p q h =
    let (r, l) = &&-true (same_root p.root q.root) (same_list p.parts q.parts) h in
    λ i. record { root = same_root-eq p.root q.root r i; parts = same_list-eq p.parts q.parts l i }

-- Each path lies below itself.
pub is_prefix_refl : (xs : List String) → is_prefix xs xs ≡ true
is_prefix_refl [] = refl
is_prefix_refl (x ∷ xs) = ground (arith, eq_iff x x, is_prefix_refl xs)

pub is_relative_to_refl : (p : PosixPath) → is_relative_to p p ≡ true
is_relative_to_refl p = ground (arith, same_root_refl p.root, is_prefix_refl p.parts)

-- Testing for equality first adds nothing to `is_relative_to`.
pub is_relative_to_of_same :
    (p q : PosixPath) → (same_path p q || is_relative_to p q) ≡ true → is_relative_to p q ≡ true
is_relative_to_of_same p q h = elim (Bool-cases (same_path p q)) [
  | inl s ↦ subst (λ x. is_relative_to p x ≡ true) (same_path-eq p q s) (is_relative_to_refl p)
  | inr n ↦ ground arith
]

parse_path_test :
    parse_path "src//a/./b" ≡ record { root = Root.relative; parts = "src" ∷ "a" ∷ "b" ∷ [] }
unfolding parse_path
parse_path_test = refl

is_relative_to_test :
    (is_relative_to (parse_path "src/a") (parse_path "src/") ≡ true)
    × (is_relative_to (parse_path "srcs/a") (parse_path "src") ≡ false)
    × (show_path (join_path (parse_path "/repo") "./src") ≡ "/repo/src")
unfolding parse_path join_path show_path
is_relative_to_test = (refl, refl, refl)
