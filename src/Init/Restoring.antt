-- ===== src/Init/Restoring.antt =====
-- `_restore` and `_cleanup`: each file that a change is of gets back what it held, and the journal goes
-- last.
use mathlib.Core.Path.{subst}
use adaptive_harness.Prelude.{
  ℕ, String, ◌≡◌, refl, sym, ◌∙◌, Bool, true, false, List, [], ◌∷◌, map, Option, none, some, arith,
  same_list, same_list_refl, inl, inr,
}
use adaptive_harness.Init.Io.{Bytes, Parts, Disk, put, remove, remove_tree, Fate, ◌>>◌}
use adaptive_harness.Init.Journal.{JournalStatus, PlannedChange, valid_target, Format}
use adaptive_harness.Init.Transaction.{
  journal_path, staging_dir, parts_of, journal_change, journal_of, through_symlink, target,
  atomic_write, cleanup, put_back, restore_items, restore, backup_of, make_directories,
}
use adaptive_harness.Init.Hoare.{Pred, Post, Triple, Escape, bind, effect_lem, attempt_lem}
use adaptive_harness.Init.Visible.{
  is_reserved, visible, is_changed, unchanged, visible-remove_reserved, visible-remove_tree,
  unchanged_of_visible, unchanged-put, unchanged-remove, unchanged-restored,
}

-- What the review of a change has established, `changes` being all changes and `d₀` the files then.
pub record Reviewed (is_symlink : Parts → Bool) (changes : List PlannedChange) (d₀ : Disk)
    (c : PlannedChange) : Type 0 where
  pub valid : valid_target c.path ≡ true
  pub plain : through_symlink is_symlink [] (parts_of c.path) ≡ false
  pub before : d₀ (parts_of c.path) ≡ c.before
  pub free : is_reserved (parts_of c.path) ≡ false
  pub listed : is_changed changes (parts_of c.path) ≡ true

abbrev pub AllReviewed : (Parts → Bool) → List PlannedChange → Disk → List PlannedChange → Type 0
AllReviewed is_symlink changes d₀ [] = Unit {0}
AllReviewed is_symlink changes d₀ (c ∷ rest) =
    Reviewed is_symlink changes d₀ c × AllReviewed is_symlink changes d₀ rest

module _ (format : Format) (transaction_id : String) (harness_dir_existed : Bool)
    (changes : List PlannedChange) (d₀ : Disk) where
  -- The journal of this transaction stands on the disk.
  abbrev pub Journalled : Pred
  Journalled d =
      (status : JournalStatus) × (d journal_path
        ≡ some (
            format.write_journal
              (journal_of format transaction_id harness_dir_existed changes status)))

  -- The transaction can be undone: its journal stands, and only files that a change is of differ.
  abbrev pub Undoable : Pred
  Undoable d = Journalled d × (unchanged changes d ≡ unchanged changes d₀)

  -- The transaction is over, and the repository is as the files `d'`.
  abbrev pub Over : Disk → Pred
  Over d' d = (d journal_path ≡ none) × (visible d ≡ visible d')

  pub Journalled-put :
      (t : Parts) (content : Bytes) (d : Disk)
      → is_reserved t ≡ false
      → Journalled d
      → Journalled (put t content d)
  Journalled-put t content d r (status, h) =
      let other : same_list t journal_path ≡ false = ground arith in (status, rw other h)

  pub Journalled-remove :
      (t : Parts) (d : Disk) → is_reserved t ≡ false → Journalled d → Journalled (remove t d)
  Journalled-remove t d r (status, h) =
      let other : same_list t journal_path ≡ false = ground arith in (status, rw other h)

  Journalled-remove_tree :
      (id : String) (d : Disk) → Journalled d → Journalled (remove_tree (staging_dir id) d)
  Journalled-remove_tree id d h = h

  pub weaken :
      (fate : ℕ → Fate) (E P : Pred)
      → Escape fate Undoable E
      → ((d : Disk) → P d → Undoable d)
      → Escape fate P E
  weaken fate E P (inl works) h = inl works
  weaken fate E P (inr escape) h = inr (λ d p. escape d (h d p))

  module _ (is_symlink : Parts → Bool) (fate : ℕ → Fate) (E : Pred)
      (escape : Escape fate Undoable E) where
    -- Where all is as in `d'`, `_cleanup` ends the transaction with that.
    pub cleanup-Over :
        (d' : Disk) (status : JournalStatus)
        → Triple
            (λ d. Undoable d × (visible d ≡ visible d'))
            (cleanup format is_symlink fate
              (journal_of format transaction_id harness_dir_existed changes status))
            (λ u. Over d')
            E
    unfolding cleanup
    cleanup-Over d' status =
        let P : Pred = λ d. Undoable d × (visible d ≡ visible d') in
        bind P _ (λ u. P) _ (λ u. Over d') E
          (attempt_lem fate P (remove_tree (staging_dir transaction_id)) E
            (weaken fate E P escape (λ d p. p.0))
            (λ d (p, v). (
              (
                Journalled-remove_tree transaction_id d p.0,
                unchanged_of_visible changes _ _ (visible-remove_tree transaction_id d) ∙ p.1,
              ),
              visible-remove_tree transaction_id d ∙ v,
            )))
          (λ u.
            effect_lem fate P (remove journal_path) (λ u. Over d') E
              (weaken fate E P escape (λ d p. p.0))
              (λ d (p, v). (refl, visible-remove_reserved journal_path d refl ∙ v)))

    pub target_lem :
        (P : Pred) (c : PlannedChange)
        → Reviewed is_symlink changes d₀ c
        → Triple P (target format is_symlink fate c.path) (λ t d. P d × (t ≡ parts_of c.path)) E
    unfolding target
    target_lem P c h s p = rw (h.valid, h.plain) (p, refl)

    -- All but the changes `rest` are undone.
    abbrev Undone : List PlannedChange → Pred
    Undone rest d = Undoable d × (unchanged rest d ≡ unchanged rest d₀)

    pub make_directories_lem :
        (P : Pred)
        → ((d : Disk) → P d → Undoable d)
        → Triple P (make_directories format is_symlink fate) (λ u. P) E
    make_directories_lem P h =
        effect_lem fate P (λ d. d) (λ u. P) E (weaken fate E P escape h) (λ d p. p)

    undo_put :
        (c : PlannedChange) (rest : List PlannedChange) (content : Bytes)
        → Reviewed is_symlink changes d₀ c
        → c.before ≡ some content
        → (d : Disk) → Undone (c ∷ rest) d
        → Undone rest (put (parts_of c.path) content d)
    undo_put c rest content h b d ((j, u), r) =
        let t = parts_of c.path in
        (
          (Journalled-put t content d h.free j, unchanged-put changes t content d h.listed ∙ u),
          unchanged-restored c rest d (put t content d) d₀ r
              (rw (same_list_refl t) (sym (h.before ∙ b))) (λ p n. rw n refl),
        )

    undo_remove :
        (c : PlannedChange) (rest : List PlannedChange)
        → Reviewed is_symlink changes d₀ c
        → c.before ≡ none
        → (d : Disk) → Undone (c ∷ rest) d
        → Undone rest (remove (parts_of c.path) d)
    undo_remove c rest h b d ((j, u), r) =
        let t = parts_of c.path in
        (
          (Journalled-remove t d h.free j, unchanged-remove changes t d h.listed ∙ u),
          unchanged-restored c rest d (remove t d) d₀ r (rw (same_list_refl t) (sym (h.before ∙ b)))
              (λ p n. rw n refl),
        )

    module _
        (backups : (content : Bytes) → format.decode (format.encode content) ≡ some content) where
      put_back-Undone :
          (c : PlannedChange) (rest : List PlannedChange) (before : Option Bytes)
          → Reviewed is_symlink changes d₀ c
          → c.before ≡ before
          → Triple
              (Undone (c ∷ rest))
              (put_back format is_symlink fate (parts_of c.path) (backup_of format before))
              (λ u. Undone rest)
              E
      unfolding atomic_write
      put_back-Undone c rest none h b =
          effect_lem fate (Undone (c ∷ rest)) (remove (parts_of c.path)) (λ u. Undone rest) E
            (weaken fate E (Undone (c ∷ rest)) escape (λ d p. p.0)) (undo_remove c rest h b)
      put_back-Undone c rest (some content) h b =
          let P = Undone (c ∷ rest) in
          let first = make_directories_lem P (λ d p. p.0) in
          rw (backups content) (
            bind P _ (λ u. P) _ (λ u. Undone rest) E first
              (λ u.
                bind P _ (λ u. P) _ (λ u. Undone rest) E first
                  (λ u.
                    bind P _ (λ u. Undone rest) _ (λ u. Undone rest) E
                      (effect_lem fate P (put (parts_of c.path) content) (λ u. Undone rest) E
                        (weaken fate E P escape (λ d p. p.0)) (undo_put c rest content h b))
                      (λ u. make_directories_lem (Undone rest) (λ d p. p.0)))))

      restore_items-Undone :
          (rest : List PlannedChange)
          → AllReviewed is_symlink changes d₀ rest
          → Triple
              (Undone rest)
              (restore_items format is_symlink fate (map (journal_change format) rest))
              (λ u. Undone [])
              E
      unfolding restore_items
      restore_items-Undone [] h = λ s p. p
      restore_items-Undone (c ∷ rest) (h, hs) =
          bind (Undone (c ∷ rest)) _ (λ t d. Undone (c ∷ rest) d × (t ≡ parts_of c.path)) _
            (λ u. Undone []) E (target_lem (Undone (c ∷ rest)) c h)
            (λ t s (p, e).
              subst
                (λ x.
                  Post (λ u. Undone []) E
                    (◌>>◌ (put_back format is_symlink fate x (backup_of format c.before))
                      (restore_items format is_symlink fate (map (journal_change format) rest)) s))
                (sym e)
                (bind (Undone (c ∷ rest)) _ (λ u. Undone rest) _ (λ u. Undone []) E
                  (put_back-Undone c rest c.before h refl) (λ u. restore_items-Undone rest hs) s p))

      -- A transaction that can be undone is undone by `_restore`.
      pub restore-Over :
          (status : JournalStatus)
          → AllReviewed is_symlink changes d₀ changes
          → Triple Undoable
              (restore format is_symlink fate
                (journal_of format transaction_id harness_dir_existed changes status))
              (λ u. Over d₀)
              E
      unfolding restore
      restore-Over status h =
          bind Undoable _ (λ u. Undone []) _ (λ u. Over d₀) E
            (λ s p. restore_items-Undone changes h s (p, p.1)) (λ u. cleanup-Over d₀ status)
