-- ===== src/Init/Applying.antt =====
-- What `apply` leaves: all changes, or none, or a transaction that its journal undoes.
use adaptive_harness.Prelude.{
  ℕ, String, ◌≡◌, ap, ◌∙◌, ◌⊎◌, inl, inr, Bool, true, not, List, [], ◌∷◌, none, some, Error,
  initialization,
}
use adaptive_harness.Init.Io.{Bytes, Parts, Disk, Fate, raise, ◌>>◌, require}
use adaptive_harness.Init.Journal.{JournalStatus, PlannedChange, Format}
use adaptive_harness.Init.Transaction.{
  journal_path, journal_of, write_journal, atomic_write, validate_from, restore, pending, apply,
}
use adaptive_harness.Init.Hoare.{Pred, Triple, bind, catch, Post-weaken, require_lem, effect_lem}
use adaptive_harness.Init.Visible.{visible, unchanged, changed_files}
use adaptive_harness.Init.Restoring.{AllReviewed, Undoable, Over, restore-Over}
use adaptive_harness.Init.Validating.{all_free, all_listed_refl, validate_from-AllReviewed}
use adaptive_harness.Init.Staging.{distinct_targets}
use adaptive_harness.Init.Committing.{stage_and_commit-Over, journal-put}

module _ (format : Format)
    (backups : (content : Bytes) → format.decode (format.encode content) ≡ some content)
    (is_symlink : Parts → Bool) (transaction_id : String) (harness_dir_existed : Bool)
    (changes : List PlannedChange) (free : all_free changes ≡ true)
    (distinct : distinct_targets changes ≡ true) (d₀ : Disk) (idle : d₀ journal_path ≡ none) where
  abbrev Made : Pred
  Made = Over format transaction_id harness_dir_existed changes d₀ (changed_files changes d₀)

  abbrev NotMade : Pred
  NotMade = Over format transaction_id harness_dir_existed changes d₀ d₀

  abbrev Unfinished : Pred
  Unfinished d =
      Undoable format transaction_id harness_dir_existed changes d₀ d
      × AllReviewed is_symlink changes d₀ changes

  -- What `apply` leaves when it raises or dies.
  abbrev pub Left : Pred
  Left d = NotMade d ⊎ (Made d ⊎ Unfinished d)

  start-NotMade : (d : Disk) → d ≡ d₀ → NotMade d
  start-NotMade d e = (ap (λ f. f journal_path) e ∙ idle, ap visible e)

  module _ (fate : ℕ → Fate) where
    begun :
        AllReviewed is_symlink changes d₀ changes
        → Triple
            (λ d. d ≡ d₀)
            (write_journal format is_symlink fate (
              journal_of format transaction_id harness_dir_existed changes JournalStatus.preparing))
            (λ u d.
              Undoable format transaction_id harness_dir_existed changes d₀ d
              × (visible d ≡ visible d₀))
            Left
    unfolding write_journal atomic_write
    begun h =
        let P : Pred = λ d. d ≡ d₀ in
        let U : Pred = λ d.
          Undoable format transaction_id harness_dir_existed changes d₀ d
          × (visible d ≡ visible d₀) in
        bind P _ (λ u. P) _ (λ u. U) Left
          (effect_lem fate P (λ d. d) (λ u. P) Left (inr (λ d p. inl (start-NotMade d p)))
            (λ d p. p))
          (λ u.
            bind P _ (λ u. U) _ (λ u. U) Left
              (effect_lem fate P _ (λ u. U) Left (inr (λ d p. inl (start-NotMade d p)))
                (λ d p.
                  journal-put format is_symlink fate transaction_id harness_dir_existed changes d₀
                    JournalStatus.preparing d₀ d (ap (unchanged changes) p) (ap visible p)))
              (λ u.
                effect_lem fate U (λ d. d) (λ u. U) Left (inr (λ d p. inr (inr (p.0, h))))
                  (λ d p. p)))

    undone :
        AllReviewed is_symlink changes d₀ changes
        → (e : Error)
        → Triple
            (Undoable format transaction_id harness_dir_existed changes d₀)
            (◌>>◌
              (restore format is_symlink fate (
                journal_of format transaction_id harness_dir_existed changes
                  JournalStatus.preparing))
              (raise {A = Unit {0}} initialization))
            (λ u. Made)
            Left
    undone h e =
        bind (Undoable format transaction_id harness_dir_existed changes d₀) _ (λ u. NotMade) _
          (λ u. Made) Left
          (restore-Over format transaction_id harness_dir_existed changes d₀ is_symlink fate Left
            (inr (λ d p. inr (inr (p, h)))) backups JournalStatus.preparing h)
          (λ u s p. inl p)

module _ (format : Format)
    (backups : (content : Bytes) → format.decode (format.encode content) ≡ some content)
    (is_symlink : Parts → Bool) (transaction_id : String) (harness_dir_existed : Bool) (d₀ : Disk)
    (idle : d₀ journal_path ≡ none) where
  pub apply-Left :
      (fate : ℕ → Fate) (changes : List PlannedChange) (free : all_free changes ≡ true)
      (distinct : distinct_targets changes ≡ true)
      → Triple
          (λ d. d ≡ d₀)
          (apply format is_symlink fate transaction_id harness_dir_existed changes)
          (λ u.
            Over format transaction_id harness_dir_existed changes d₀ (changed_files changes d₀))
          (Left format backups is_symlink transaction_id harness_dir_existed changes free distinct
            d₀ idle)
  unfolding apply pending
  apply-Left fate [] free distinct = λ s p. (ap (λ f. f journal_path) p ∙ idle, ap visible p)
  apply-Left fate (c ∷ cs) free distinct =
      let changes = c ∷ cs in
      let P : Pred = λ d. d ≡ d₀ in
      let M : Unit {0} → Pred =
        λ u. Over format transaction_id harness_dir_existed changes d₀ (changed_files changes d₀) in
      let L =
        Left format backups is_symlink transaction_id harness_dir_existed changes free distinct d₀
          idle in
      let U = Undoable format transaction_id harness_dir_existed changes d₀ in
      let keep = λ (d : Disk) (p : d ≡ d₀).
        start-NotMade format backups is_symlink transaction_id harness_dir_existed changes free
          distinct d₀ idle d p in
      let R : Pred = λ d. (d ≡ d₀) × AllReviewed is_symlink changes d₀ changes in
      bind P (pending format is_symlink fate) (λ b. P) _ M L (λ s p. p)
        (λ unfinished.
          bind P (require (not unfinished) initialization) (λ u d. P d × (not unfinished ≡ true)) _
            M L (require_lem P (not unfinished) initialization L (λ d p. inl (keep d p)))
            (λ u.
              bind (λ d. P d × (not unfinished ≡ true))
                (validate_from format is_symlink fate [] (c ∷ cs)) (λ u. R) _ M L
                (λ s p.
                  Post-weaken (validate_from format is_symlink fate [] (c ∷ cs) s) (λ u. R) P L
                    (λ d q. inl (keep d q))
                    (validate_from-AllReviewed format is_symlink d₀ fate changes [] changes free
                      (all_listed_refl changes) s p.0))
                (λ u.
                  bind R _ (λ u. R) _ M L
                    (effect_lem fate R (λ d. d) (λ u. R) L (inr (λ d p. inl (keep d p.0)))
                      (λ d p. p))
                    (λ u s (p, h).
                      bind P _ (λ u d. U d × (visible d ≡ visible d₀)) _ M L
                        (begun format backups is_symlink transaction_id harness_dir_existed changes
                          free distinct d₀ idle fate h)
                        (λ u.
                          catch (λ d. U d × (visible d ≡ visible d₀)) _ _ M U L
                            (stage_and_commit-Over format is_symlink fate transaction_id
                              harness_dir_existed changes d₀ h distinct)
                            (undone format backups is_symlink transaction_id harness_dir_existed
                              changes free distinct d₀ idle fate h)
                            (λ d p. inr (inr (p, h))))
                        s p))))
