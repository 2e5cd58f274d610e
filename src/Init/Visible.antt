-- ===== src/Init/Visible.antt =====
-- The repository's files without the transaction's own, and what the operations do to them.
use mathlib.Core.Path.{fun_ext, subst}
use adaptive_harness.Prelude.{
  String, ◌≡◌, refl, ap, Bool, true, false, ◌||◌, List, [], ◌∷◌, ◌++◌, none, arith, same_list,
  same_list-eq, any, if◌then◌else◌, Bool-cases, inl, inr,
}
use adaptive_harness.Paths.{is_prefix}
use adaptive_harness.Init.Io.{Bytes, Parts, Disk, put, remove, remove_tree}
use adaptive_harness.Init.Journal.{PlannedChange}
use adaptive_harness.Init.Transaction.{journal_path, staging_root, staging_dir, parts_of}

-- The path is the journal's, or lies in the staging area.
abbrev pub is_reserved : Parts → Bool
is_reserved p = same_list p journal_path || is_prefix staging_root p

abbrev pub visible : Disk → Disk
visible d p = if is_reserved p then none else d p

-- One of the changes is of this file.
abbrev pub is_changed : List PlannedChange → Parts → Bool
is_changed changes p = any (λ c. same_list (parts_of c.path) p) changes

-- What is visible of the files that none of the changes is of.
abbrev pub unchanged : List PlannedChange → Disk → Disk
unchanged changes d p = if is_changed changes p then none else visible d p

-- The files after all changes.
abbrev pub changed_files : List PlannedChange → Disk → Disk
changed_files [] d = d
changed_files (c ∷ changes) d = changed_files changes (put (parts_of c.path) c.after d)

pub visible-put_reserved :
    (t : Parts) (content : Bytes) (d : Disk)
    → is_reserved t ≡ true
    → visible (put t content d) ≡ visible d
visible-put_reserved t content d h = fun_ext λ p. elim (Bool-cases (same_list t p)) [
  | inl e ↦
      let r : is_reserved p ≡ true = subst (λ x. is_reserved x ≡ true) (same_list-eq t p e) h in
      rw r refl
  | inr n ↦ rw n refl
]

pub visible-remove_reserved :
    (t : Parts) (d : Disk) → is_reserved t ≡ true → visible (remove t d) ≡ visible d
visible-remove_reserved t d h = fun_ext λ p. elim (Bool-cases (same_list t p)) [
  | inl e ↦
      let r : is_reserved p ≡ true = subst (λ x. is_reserved x ≡ true) (same_list-eq t p e) h in
      rw r refl
  | inr n ↦ rw n refl
]

is_prefix-append_left : (a b p : Parts) → is_prefix (a ++ b) p ≡ true → is_prefix a p ≡ true
is_prefix-append_left [] b p h = refl
is_prefix-append_left (x ∷ a) b [] h = cc
is_prefix-append_left (x ∷ a) b (y ∷ p) h = ground (arith, is_prefix-append_left a b p)

pub visible-remove_tree :
    (transaction_id : String) (d : Disk)
    → visible (remove_tree (staging_dir transaction_id) d) ≡ visible d
visible-remove_tree transaction_id d = fun_ext λ p.
    elim (Bool-cases (is_prefix (staging_dir transaction_id) p)) [
      | inl e ↦
          let r : is_prefix staging_root p ≡ true =
            is_prefix-append_left staging_root (transaction_id ∷ []) p e in
          rw r (ground arith)
      | inr n ↦ rw n refl
    ]

pub visible-put :
    (t : Parts) (content : Bytes) (d d' : Disk)
    → visible d ≡ visible d'
    → visible (put t content d) ≡ visible (put t content d')
visible-put t content d d' h =
    fun_ext
      λ p. elim (Bool-cases (same_list t p)) [ inl e ↦ rw e refl | inr n ↦ rw n (ap (λ f. f p) h) ]

pub unchanged_of_visible :
    (changes : List PlannedChange) (d d' : Disk)
    → visible d ≡ visible d'
    → unchanged changes d ≡ unchanged changes d'
unchanged_of_visible changes d d' h =
    ap {B = Disk} (λ f p. if is_changed changes p then none else f p) h

pub unchanged-put :
    (changes : List PlannedChange) (t : Parts) (content : Bytes) (d : Disk)
    → is_changed changes t ≡ true
    → unchanged changes (put t content d) ≡ unchanged changes d
unchanged-put changes t content d h = fun_ext λ p. elim (Bool-cases (same_list t p)) [
  | inl e ↦
      let r : is_changed changes p ≡ true =
        subst (λ x. is_changed changes x ≡ true) (same_list-eq t p e) h in
      rw r refl
  | inr n ↦ rw n refl
]

pub unchanged-remove :
    (changes : List PlannedChange) (t : Parts) (d : Disk)
    → is_changed changes t ≡ true
    → unchanged changes (remove t d) ≡ unchanged changes d
unchanged-remove changes t d h = fun_ext λ p. elim (Bool-cases (same_list t p)) [
  | inl e ↦
      let r : is_changed changes p ≡ true =
        subst (λ x. is_changed changes x ≡ true) (same_list-eq t p e) h in
      rw r refl
  | inr n ↦ rw n refl
]

-- A file that is set to what it holds in `d₀` no longer counts as changed.
pub unchanged-restored :
    (c : PlannedChange) (changes : List PlannedChange) (d d' d₀ : Disk)
    → unchanged (c ∷ changes) d ≡ unchanged (c ∷ changes) d₀
    → d' (parts_of c.path) ≡ d₀ (parts_of c.path)
    → ((p : Parts) → same_list (parts_of c.path) p ≡ false → d' p ≡ d p)
    → unchanged changes d' ≡ unchanged changes d₀
unchanged-restored c changes d d' d₀ h restored others = fun_ext λ p.
    elim (Bool-cases (same_list (parts_of c.path) p)) [
      | inl e ↦
          let same = subst (λ x. d' x ≡ d₀ x) (same_list-eq (parts_of c.path) p e) restored in
          rw same refl
      | inr n ↦
          let at_p : unchanged (c ∷ changes) d p ≡ unchanged (c ∷ changes) d₀ p = ap (λ f. f p) h in
          rw (others p n) (rw n at at_p)
    ]
