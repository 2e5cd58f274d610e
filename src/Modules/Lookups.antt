-- ===== src/Modules/Lookups.antt =====
-- What is found under a module's id after the operations on the lock's modules.
use mathlib.Core.Path.{subst}
use adaptive_harness.Prelude.{
  String, ◌≡◌, refl, ◌∙◌, inl, inr, true, false, List, [], ◌∷◌, ◌++◌, Option, none, some, arith,
  ◌=ˢ◌, eq_iff, if◌then◌else◌, Bool-cases,
}
use text.Mathlib.TextPositions.{compare_refl}
use adaptive_harness.Modules.{
  LockedModule, find, has_id, text_before, insert_module, sort_modules, without, upsert,
  update_first, put_previous,
}

abbrev pub lookup : String → List LockedModule → Option LockedModule
lookup id items = find (has_id id) items

text_before-irreflexive : (x y : String) → text_before x y ≡ true → (x =ˢ y) ≡ false
text_before-irreflexive x y h = elim (Bool-cases (x =ˢ y)) [
  | inl e ↦
      let same : x ≡ y = (eq_iff x y).0 e in
      let clash : text_before y y ≡ true = subst (λ z. text_before z y ≡ true) same h in
      absurd (ground (arith, compare_refl y))
  | inr n ↦ n
]

find-insert_module :
    (id : String) (x : LockedModule) (ys : List LockedModule)
    → lookup id (insert_module x ys) ≡ lookup id (x ∷ ys)
find-insert_module id x [] = refl
find-insert_module id x (y ∷ ys) = ground (
  arith,
  find-insert_module id x ys,
  text_before-irreflexive y.id x.id,
  eq_iff x.id id,
  eq_iff y.id id,
  eq_iff y.id x.id,
)

find-sort_modules :
    (id : String) (items : List LockedModule) → lookup id (sort_modules items) ≡ lookup id items
unfolding sort_modules
find-sort_modules id [] = refl
find-sort_modules id (x ∷ items) =
    find-insert_module id x (sort_modules items) ∙ ground (arith, find-sort_modules id items)

pub lookup-without_same :
    (id : String) (items : List LockedModule) → lookup id (without id items) ≡ none
lookup-without_same id [] = refl
lookup-without_same id (x ∷ items) = ground (arith, lookup-without_same id items)

pub lookup-without :
    (id k : String) (items : List LockedModule)
    → (id =ˢ k) ≡ false
    → lookup k (without id items) ≡ lookup k items
lookup-without id k [] n = refl
lookup-without id k (x ∷ items) n =
    ground (arith, lookup-without id k items, eq_iff x.id id, eq_iff x.id k, eq_iff id k)

lookup-append :
    (k : String) (items : List LockedModule) (x : LockedModule)
    → lookup k (items ++ x ∷ []) ≡ elim (lookup k items) as (λ o. Option LockedModule) [
      | none ↦ if x.id =ˢ k then some x else none
      | some y ↦ some y
    ]
lookup-append k [] x = refl
lookup-append k (y ∷ items) x = ground (arith, lookup-append k items x)

-- `_upsert` changes what is found under the id of the new item, and nothing else.
pub lookup-upsert :
    (k : String) (items : List LockedModule) (x : LockedModule)
    → (x.id =ˢ k) ≡ false
    → lookup k (upsert items x) ≡ lookup k items
unfolding upsert
lookup-upsert k items x n =
    find-sort_modules k (without x.id items ++ x ∷ [])
    ∙ ground (arith, lookup-append k (without x.id items) x, lookup-without x.id k items)

pub lookup-update_first :
    (id k : String) (f : LockedModule → LockedModule) (items : List LockedModule)
    → ((x : LockedModule) → (f x).id ≡ x.id)
    → (id =ˢ k) ≡ false
    → lookup k (update_first (has_id id) f items) ≡ lookup k items
lookup-update_first id k f [] same n = refl
lookup-update_first id k f (x ∷ items) same n = elim (Bool-cases (x.id =ˢ id)) [
  | inl e ↦ rw (e, same x) (ground (arith, eq_iff x.id id))
  | inr m ↦ rw m (ground (arith, lookup-update_first id k f items same n))
]

pub found-id :
    (id : String) (items : List LockedModule) {x : LockedModule}
    → lookup id items ≡ some x
    → (x.id =ˢ id) ≡ true
found-id id [] h = cc
found-id id (y ∷ items) {x = x} h = ground (arith, found-id id items {x = x})

-- Rolling back puts what is given under the id, and leaves the rest.
pub lookup-put_previous :
    (id k : String) (previous : Option LockedModule) (items : List LockedModule)
    → ((x : LockedModule) → previous ≡ some x → (x.id =ˢ id) ≡ true)
    → lookup k (put_previous previous (without id items))
      ≡ (if id =ˢ k then previous else lookup k items)
lookup-put_previous id k none items named = elim (Bool-cases (id =ˢ k)) [
  | inl e ↦ rw e (
      subst (λ z. lookup z (without id items) ≡ none) ((eq_iff id k).0 e)
        (lookup-without_same id items))
  | inr n ↦ rw n (lookup-without id k items n)
]
lookup-put_previous id k (some x) items named =
    let named_id : x.id ≡ id = (eq_iff x.id id).0 (named x refl) in
    elim (Bool-cases (id =ˢ k)) [
      | inl e ↦
          let same : lookup k (without id items) ≡ none =
            subst (λ z. lookup z (without id items) ≡ none) ((eq_iff id k).0 e)
              (lookup-without_same id items) in
          ground (arith, lookup-append k (without id items) x, eq_iff x.id k, eq_iff id k)
      | inr n ↦ ground (
        arith,
        lookup-append k (without id items) x,
        lookup-without id k items,
        eq_iff x.id k,
        eq_iff id k,
      )
    ]
