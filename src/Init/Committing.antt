-- ===== src/Init/Committing.antt =====
-- The part of `apply` under `try`: the changes are staged and then moved to their places.
use mathlib.Core.Path.{subst}
use adaptive_harness.Prelude.{
  ℕ, String, ◌≡◌, refl, sym, ◌∙◌, Bool, true, false, List, [], ◌∷◌, arith, inr,
}
use adaptive_harness.Init.Io.{Bytes, Parts, Disk, put, remove, Fate, ◌>>◌}
use adaptive_harness.Init.Journal.{JournalStatus, PlannedChange, Journal, Format}
use adaptive_harness.Init.Transaction.{
  journal_path, parts_of, staged_path, journal_of, write_journal, atomic_write, stage, commit,
  replace_file, sync_directory, stage_and_commit, make_directories,
}
use adaptive_harness.Init.Hoare.{Pred, Post, Triple, Escape, bind, both, Post-map, effect_lem}
use adaptive_harness.Init.Visible.{
  visible, is_changed, unchanged, changed_files, visible-put_reserved, visible-remove_reserved,
  visible-put, unchanged_of_visible, unchanged-put,
}
use adaptive_harness.Init.Restoring.{
  Reviewed, AllReviewed, Undoable, Over, Journalled-put, cleanup-Over, target_lem,
  make_directories_lem,
}
use adaptive_harness.Init.Staging.{
  distinct_targets, staged_reserved, Staged, stage-Staged, Staged-put, Staged-remove,
}

module _ (format : Format) (is_symlink : Parts → Bool) (fate : ℕ → Fate) where
  module _ (transaction_id : String) (harness_dir_existed : Bool) (changes : List PlannedChange)
      (d₀ : Disk) where
    abbrev CanUndo : Pred
    CanUndo = Undoable format transaction_id harness_dir_existed changes d₀

    abbrev stay : Escape fate CanUndo CanUndo
    stay = inr (λ d p. p)

    -- The changes `rest` are left to be moved to their places; the others make the files `x`.
    abbrev Moving : List PlannedChange → Disk → Pred
    Moving rest x d = CanUndo d × (visible d ≡ visible x) × Staged transaction_id rest d

    moved :
        (c : PlannedChange) (rest : List PlannedChange) (x d : Disk)
        → Reviewed is_symlink changes d₀ c
        → is_changed rest (parts_of c.path) ≡ false
        → Moving (c ∷ rest) x d
        → Moving rest
            (put (parts_of c.path) c.after x)
            (put (parts_of c.path) c.after (remove (staged_path transaction_id c.path) d))
    moved c rest x d h n (((status, j), u), v, (here, hs)) =
        let t = parts_of c.path in
        let r = staged_reserved transaction_id c.path in
        let removed = remove (staged_path transaction_id c.path) d in
        let gone = visible-remove_reserved (staged_path transaction_id c.path) d r in
        (
          (
            Journalled-put format transaction_id harness_dir_existed changes d₀ t c.after removed
                h.free (status, j),
            unchanged-put changes t c.after removed h.listed
                ∙ unchanged_of_visible changes removed d gone
                ∙ u,
          ),
          visible-put t c.after removed x (gone ∙ v),
          Staged-put transaction_id rest t c.after removed h.free
              (Staged-remove transaction_id rest t d n hs),
        )

    replace-Moving :
        (c : PlannedChange) (rest : List PlannedChange) (x : Disk)
        → Reviewed is_symlink changes d₀ c
        → is_changed rest (parts_of c.path) ≡ false
        → Triple
            (Moving (c ∷ rest) x)
            (replace_file format is_symlink fate
              (staged_path transaction_id c.path)
              (parts_of c.path))
            (λ u. Moving rest (put (parts_of c.path) c.after x))
            CanUndo
    unfolding replace_file
    replace-Moving c rest x h n s (p, v, (here, hs)) = rw here (
        effect_lem fate (λ d. Moving (c ∷ rest) x d)
          (λ d. put (parts_of c.path) c.after (remove (staged_path transaction_id c.path) d))
          (λ u. Moving rest (put (parts_of c.path) c.after x)) CanUndo (inr (λ d p. p.0))
          (λ d p. moved c rest x d h n p) s (p, v, (here, hs)))

    commit-Moving :
        (rest : List PlannedChange) (x : Disk)
        → AllReviewed is_symlink changes d₀ rest
        → distinct_targets rest ≡ true
        → Triple
            (Moving rest x)
            (commit format is_symlink fate transaction_id rest)
            (λ u d. CanUndo d × (visible d ≡ visible (changed_files rest x)))
            CanUndo
    unfolding commit
    commit-Moving [] x h n = λ s (p, v, q). (p, v)
    commit-Moving (c ∷ rest) x (h, hs) n =
        let M = Moving (c ∷ rest) x in
        let M' = Moving rest (put (parts_of c.path) c.after x) in
        let Q : Unit {0} → Pred =
          λ u d. CanUndo d × (visible d ≡ visible (changed_files (c ∷ rest) x)) in
        let go_on = λ (t : Parts). ◌>>◌ (make_directories format is_symlink fate) (
          ◌>>◌ (replace_file format is_symlink fate (staged_path transaction_id c.path) t) (
            ◌>>◌ (sync_directory format is_symlink fate)
              (commit format is_symlink fate transaction_id rest))) in
        bind M _ (λ t d. M d × (t ≡ parts_of c.path)) _ Q CanUndo
          (target_lem format transaction_id harness_dir_existed changes d₀ is_symlink fate CanUndo
            stay M c h)
          (λ t s (p, e).
            subst (λ y. Post Q CanUndo (go_on y s)) (sym e)
              (bind M _ (λ u. M) _ Q CanUndo
                (make_directories_lem format transaction_id harness_dir_existed changes d₀
                  is_symlink fate CanUndo stay M (λ d p. p.0))
                (λ u.
                  bind M _ (λ u. M') _ Q CanUndo (replace-Moving c rest x h (ground arith))
                    (λ u.
                      bind M' _ (λ u. M') _ Q CanUndo
                        (make_directories_lem format transaction_id harness_dir_existed changes d₀
                          is_symlink fate CanUndo stay M' (λ d p. p.0))
                        (λ u.
                          commit-Moving rest (put (parts_of c.path) c.after x) hs (ground arith))))
                s p))

    stage-keeps :
        (rest : List PlannedChange)
        → Triple
            (λ d. CanUndo d × (visible d ≡ visible d₀))
            (stage format is_symlink fate transaction_id rest)
            (λ u d. CanUndo d × (visible d ≡ visible d₀))
            CanUndo
    unfolding stage
    stage-keeps [] = λ s p. p
    stage-keeps (c ∷ rest) =
        let P : Pred = λ d. CanUndo d × (visible d ≡ visible d₀) in
        bind P _ (λ u. P) _ (λ u. P) CanUndo
          (make_directories_lem format transaction_id harness_dir_existed changes d₀ is_symlink fate
            CanUndo stay P (λ d p. p.0))
          (λ u.
            bind P _ (λ u. P) _ (λ u. P) CanUndo
              (effect_lem fate P (put (staged_path transaction_id c.path) c.after) (λ u. P) CanUndo
                (inr (λ d p. p.0))
                (λ d (((status, j), w), v).
                  let same =
                    visible-put_reserved (staged_path transaction_id c.path) c.after d
                      (staged_reserved transaction_id c.path) in
                  (((status, j), unchanged_of_visible changes _ d same ∙ w), same ∙ v)))
              (λ u. stage-keeps rest))

    Staged-journal :
        (rest : List PlannedChange) (content : Bytes) (d : Disk)
        → Staged transaction_id rest d
        → Staged transaction_id rest (put journal_path content d)
    Staged-journal [] content d h = tt
    Staged-journal (c ∷ rest) content d (h, hs) = (h, Staged-journal rest content d hs)

    -- The journal of this transaction, in the given state.
    abbrev journal : JournalStatus → Journal
    journal status = journal_of format transaction_id harness_dir_existed changes status

    pub journal-put :
        (status : JournalStatus) (x d : Disk)
        → unchanged changes d ≡ unchanged changes d₀
        → visible d ≡ visible x
        → CanUndo (put journal_path (format.write_journal (journal status)) d)
          × (visible (put journal_path (format.write_journal (journal status)) d) ≡ visible x)
    journal-put status x d u v =
        let same =
          visible-put_reserved journal_path (format.write_journal (journal status)) d refl in
        (((status, refl), unchanged_of_visible changes _ d same ∙ u), same ∙ v)

    write_journal-Moving :
        (status : JournalStatus)
        → Triple
            (Moving changes d₀)
            (write_journal format is_symlink fate (journal status))
            (λ u. Moving changes d₀)
            CanUndo
    unfolding write_journal atomic_write
    write_journal-Moving status =
        let P = Moving changes d₀ in
        let directories =
          make_directories_lem format transaction_id harness_dir_existed changes d₀ is_symlink fate
            CanUndo stay P (λ d p. p.0) in
        bind P _ (λ u. P) _ (λ u. P) CanUndo directories
          (λ u.
            bind P _ (λ u. P) _ (λ u. P) CanUndo
              (effect_lem fate P (put journal_path (format.write_journal (journal status))) (λ u. P)
                CanUndo (inr (λ d p. p.0))
                (λ d ((j, u), v, q).
                  let (c, w) = journal-put status d₀ d u v in
                  (c, w, Staged-journal changes (format.write_journal (journal status)) d q)))
              (λ u. directories))

    -- The part under `try` ends with all changes made; until then the transaction can be undone.
    pub stage_and_commit-Over :
        AllReviewed is_symlink changes d₀ changes
        → distinct_targets changes ≡ true
        → Triple
            (λ d. CanUndo d × (visible d ≡ visible d₀))
            (stage_and_commit format is_symlink fate transaction_id harness_dir_existed changes)
            (λ u.
              Over format transaction_id harness_dir_existed changes d₀ (changed_files changes d₀))
            CanUndo
    unfolding stage_and_commit
    stage_and_commit-Over h n =
        let P : Pred = λ d. CanUndo d × (visible d ≡ visible d₀) in
        let M = Moving changes d₀ in
        let C : Pred = λ d. CanUndo d × (visible d ≡ visible (changed_files changes d₀)) in
        let Q : Unit {0} → Pred = λ u.
          Over format transaction_id harness_dir_existed changes d₀ (changed_files changes d₀) in
        bind P _ (λ u. M) _ Q CanUndo
          (λ s p.
            Post-map (stage format is_symlink fate transaction_id changes s) _ (λ u. M) CanUndo
              (λ u d (p, q). (p.0, p.1, q))
              (both P (λ d. Unit {0}) _ (λ u. P) (λ u. Staged transaction_id changes) CanUndo
                (λ d. Unit {0}) (stage-keeps changes)
                (stage-Staged format is_symlink fate transaction_id changes n) s (p, tt)))
          (λ u.
            bind M _ (λ u. M) _ Q CanUndo (write_journal-Moving JournalStatus.staged)
              (λ u.
                bind M _ (λ u. C) _ Q CanUndo (commit-Moving changes d₀ h n)
                  (λ u.
                    cleanup-Over format transaction_id harness_dir_existed changes d₀ is_symlink
                      fate CanUndo stay (changed_files changes d₀) JournalStatus.staged)))
