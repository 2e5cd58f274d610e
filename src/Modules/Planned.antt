-- ===== src/Modules/Planned.antt =====
-- A planned operation that the transaction applies is what the lock then holds.
use mathlib.Core.Path.{subst}
use adaptive_harness.Prelude.{
  ℕ, String, ◌≡◌, refl, ap, ◌∙◌, inl, inr, Bool, true, List, [], ◌∷◌, Option, none, some, arith,
  ==_iff, Bool-cases, Result, ok, >>=-eq-ok, ok_path,
}
use adaptive_harness.Init.{
  Bytes, Parts, Disk, Fate, State, returned, PlannedChange, JournalStatus, Format, same_bytes,
  journal_path, journal_of, apply,
}
use adaptive_harness.Init.Visible.{changed_files}
use adaptive_harness.Init.Staging.{distinct_targets}
use adaptive_harness.Init.Validating.{all_free}
use adaptive_harness.Init.Atomic.{apply_returned}
use adaptive_harness.Modules.{
  Document, ModuleHost, LockFormat, lock_path, load_lock, plan, plan_with, read_document, parsed,
}

same_bytes-eq : (xs ys : Bytes) → same_bytes xs ys ≡ true → xs ≡ ys
same_bytes-eq [] [] h = refl
same_bytes-eq [] (y ∷ ys) h = cc
same_bytes-eq (x ∷ xs) [] h = cc
same_bytes-eq (x ∷ xs) (y ∷ ys) h =
    let here : x ≡ y = (==_iff x y).0 (ground arith) in
    let rest : xs ≡ ys = same_bytes-eq xs ys (ground arith) in cc

module _ (host : ModuleHost) (lock : LockFormat) (disk : Disk) where
  parsed-content :
      {c content : Bytes} {d : Document} (o : Option Document)
      → parsed host lock disk c o ≡ ok (content, d)
      → some c ≡ some content
  parsed-content none h = cc
  parsed-content (some d') h = ap (λ x. some x.0) (ok_path h)

  read_document-content :
      (o : Option Bytes) {content : Bytes} {d : Document}
      → read_document host lock disk o ≡ ok (content, d)
      → o ≡ some content
  read_document-content none h = cc
  read_document-content (some c) h = parsed-content (lock.read_lock c) h

  -- What a plan leaves in the lock's file, and that the transaction takes the plan.
  planned :
      (content : Bytes) (d : Document)
      → disk lock_path ≡ some content
      → (changed_files (plan host lock disk content d) disk lock_path ≡ some (lock.write_lock d))
        × (all_free (plan host lock disk content d) ≡ true)
        × (distinct_targets (plan host lock disk content d) ≡ true)
  unfolding plan adaptive_harness.Paths.parse_path
  planned content d h = elim (Bool-cases (same_bytes content (lock.write_lock d))) [
    | inl e ↦ rw e (h ∙ ap some (same_bytes-eq content (lock.write_lock d) e), refl, refl)
    | inr n ↦ rw n (refl, refl, refl)
  ]

module _ (host : ModuleHost) (lock : LockFormat) (format : Format)
    (backups : (content : Bytes) → format.decode (format.encode content) ≡ some content)
    (is_symlink : Parts → Bool) (transaction_id : String) (harness_dir_existed : Bool)
    (fate : ℕ → Fate) (changes : List PlannedChange)
    (journals : (status : JournalStatus)
      → let journal = journal_of format transaction_id harness_dir_existed changes status in
        format.read_journal (format.write_journal journal) ≡ some journal)
    (s : State) (idle : s.disk journal_path ≡ none) where
  -- Where no journal stands, and backups and the transaction's journals are read as they were written:
  -- when the change that an operation on the lock plans is applied, the lock that is loaded then is the
  -- one that the operation made of the lock before; `json` is assumed to read that one as it wrote it.
  pub plan_applied :
      (operation : Document → Result Document) {s' : State}
      → ((content : Bytes) (d d' : Document)
          → load_lock host lock s.disk ≡ ok (content, d)
          → operation d ≡ ok d'
          → lock.read_lock (lock.write_lock d') ≡ some d')
      → plan_with host lock s.disk operation ≡ ok changes
      → apply format is_symlink fate transaction_id harness_dir_existed changes s
        ≡ (returned tt, s')
      → (content : Bytes) × (d : Document) × (d' : Document) × (load_lock host lock s.disk
          ≡ ok (content, d))
        × (operation d ≡ ok d')
        × (load_lock host lock s'.disk ≡ ok (lock.write_lock d', d'))
  unfolding load_lock plan
  plan_applied operation {s' = s'} reads plans applies =
      let ((content, d), loads, h₁) = >>=-eq-ok (load_lock host lock s.disk) _ plans in
      let (d', works, h₂) = >>=-eq-ok (operation d) _ h₁ in
      let before = read_document-content host lock s.disk (s.disk lock_path) loads in
      let (written, free, distinct) =
        subst
          (λ cs.
            (changed_files cs s.disk lock_path ≡ some (lock.write_lock d'))
            × (all_free cs ≡ true)
            × (distinct_targets cs ≡ true))
          (ok_path h₂) (planned host lock s.disk content d' before) in
      let (over, made) =
        apply_returned format backups is_symlink transaction_id harness_dir_existed fate changes
          journals free distinct s idle applies in
      let holds : s'.disk lock_path ≡ some (lock.write_lock d') =
        ap (λ f. f lock_path) made ∙ written in
      let reloads : read_document host lock s'.disk (s'.disk lock_path)
          ≡ ok (lock.write_lock d', d') =
        ap (read_document host lock s'.disk) holds
        ∙ ap (parsed host lock s'.disk (lock.write_lock d')) (reads content d d' loads works) in
      (content, d, d', loads, works, reloads)
