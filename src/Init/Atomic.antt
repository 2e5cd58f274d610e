-- ===== src/Init/Atomic.antt =====
-- A transaction is atomic: whatever fails and wherever the process dies, what `apply` leaves is all
-- changes, or none, or what `recover` turns into none.
use mathlib.Core.Path.{subst}
use adaptive_harness.Prelude.{
  ℕ, String, ◌≡◌, refl, sym, ◌⊎◌, inl, inr, Bool, true, List, Option, none, some, initialization,
}
use adaptive_harness.Init.Io.{
  Bytes, Parts, Disk, Fate, works, State, Ending, returned, raised, died, pure, raise, try_except,
  read_file,
}
use adaptive_harness.Init.Journal.{JournalStatus, PlannedChange, Format}
use adaptive_harness.Init.Transaction.{
  journal_path, journal_of, restore, pending, apply, recover, recover_pending, restore_read,
  read_back,
}
use adaptive_harness.Init.Hoare.{Pred, Post, Triple, bind, catch, read_file_lem}
use adaptive_harness.Init.Visible.{visible, changed_files}
use adaptive_harness.Init.Restoring.{AllReviewed, Undoable, Over, restore-Over}
use adaptive_harness.Init.Validating.{all_free}
use adaptive_harness.Init.Staging.{distinct_targets}
use adaptive_harness.Init.Applying.{Left, apply-Left}

module _ (format : Format)
    (backups : (content : Bytes) → format.decode (format.encode content) ≡ some content)
    (is_symlink : Parts → Bool) (transaction_id : String) (harness_dir_existed : Bool) (d₀ : Disk)
    (idle : d₀ journal_path ≡ none) where
  -- With operations that work, `recover` makes an unfinished transaction not made.
  module _ (fate : ℕ → Fate) (sound : (n : ℕ) → fate n ≡ works) where
    -- The journals of the transaction are read as they were written.
    abbrev Readable : List PlannedChange → Type 0
    Readable changes =
        (status : JournalStatus)
        → let journal = journal_of format transaction_id harness_dir_existed changes status in
          format.read_journal (format.write_journal journal) ≡ some journal

    -- What `recover` promises.
    abbrev Settled : List PlannedChange → Bool → Pred
    Settled changes b d =
        (d journal_path ≡ none)
        × ((visible d ≡ visible d₀) ⊎ (visible d ≡ visible (changed_files changes d₀)))

    recovers_pending :
        (changes : List PlannedChange) (status : JournalStatus)
        → Readable changes
        → AllReviewed is_symlink changes d₀ changes
        → Triple
            (λ d.
              Undoable format transaction_id harness_dir_existed changes d₀ d
              × (d journal_path
                  ≡ some (
                      format.write_journal
                        (journal_of format transaction_id harness_dir_existed changes status))))
            (recover_pending format is_symlink fate true)
            (Settled changes)
            (λ d. ⊥)
    recovers_pending changes status journals h =
        let journal = journal_of format transaction_id harness_dir_existed changes status in
        let U = Undoable format transaction_id harness_dir_existed changes d₀ in
        let P : Pred = λ d. U d × (d journal_path ≡ some (format.write_journal journal)) in
        let R : Option Bytes → Pred = λ o d. U d × (o ≡ some (format.write_journal journal)) in
        let F : Pred = λ d. ⊥ in
        bind P (try_except (read_file fate journal_path) (λ e. raise initialization)) R _
          (Settled changes) F
          (catch P (read_file fate journal_path) (λ e. raise initialization) R F F
            (read_file_lem fate P journal_path R F (inl sound) (λ d p. p)) (λ e s b. b) (λ d b. b))
          (λ o s (p, e).
            subst
              (λ x.
                Post (Settled changes) F
                  (restore_read format is_symlink fate (read_back format is_symlink fate x) s))
              (sym e)
              (rw (journals status) (
                bind U (restore format is_symlink fate journal)
                  (λ u. Over format transaction_id harness_dir_existed changes d₀ d₀)
                  (λ u. pure true) (Settled changes) F
                  (restore-Over format transaction_id harness_dir_existed changes d₀ is_symlink fate
                    F (inl sound) backups status h)
                  (λ u s (j, v). (j, inl v)) s p)))

    recovers :
        (changes : List PlannedChange) (free : all_free changes ≡ true)
        (distinct : distinct_targets changes ≡ true)
        → Readable changes
        → Triple
            (Left format backups is_symlink transaction_id harness_dir_existed changes free distinct
              d₀ idle)
            (recover format is_symlink fate)
            (Settled changes)
            (λ d. ⊥)
    unfolding recover pending
    recovers changes free distinct journals s (inl (j, v)) = rw j (j, inl v)
    recovers changes free distinct journals s (inr (inl (j, v))) = rw j (j, inr v)
    recovers changes free distinct journals s (inr (inr (((status, j), u), h))) =
        rw j (recovers_pending changes status journals h s (((status, j), u), j))

-- The state that a run leaves, whatever it comes to.
abbrev pub left : {A : Type 0} → Ending A × State → State
left (outcome, s) = s

Post-left :
    {A : Type 0} (x : Ending A × State) (Q : A → Pred) (E E' : Pred)
    → ((a : A) (d : Disk) → Q a d → E' d)
    → ((d : Disk) → E d → E' d)
    → Post Q E x
    → E' (left x).disk
Post-left (returned a, s) Q E E' h k q = h a s.disk q
Post-left (raised e, s) Q E E' h k q = k s.disk q
Post-left (died, s) Q E E' h k q = k s.disk q

Post-returned :
    {A : Type 0} (x : Ending A × State) (Q : A → Pred)
    → Post Q (λ d. ⊥) x
    → (a : A) × (x ≡ (returned a, left x)) × Q a (left x).disk
Post-returned (returned a, s) Q q = (a, refl, q)
Post-returned (raised e, s) Q q = elim q [ ]
Post-returned (died, s) Q q = elim q [ ]

module _ (format : Format)
    (backups : (content : Bytes) → format.decode (format.encode content) ≡ some content)
    (is_symlink : Parts → Bool) (transaction_id : String) (harness_dir_existed : Bool)
    (fate : ℕ → Fate) (changes : List PlannedChange)
    (journals : (status : JournalStatus)
      → let journal = journal_of format transaction_id harness_dir_existed changes status in
        format.read_journal (format.write_journal journal) ≡ some journal)
    (free : all_free changes ≡ true) (distinct : distinct_targets changes ≡ true) (s : State)
    (idle : s.disk journal_path ≡ none) where
  -- The changes are of different files, none of them the transaction's own, no journal stands, and
  -- backups and this transaction's journals are read as they were written. Then, whichever
  -- operations of `apply` fail and wherever the process dies, a `recover` whose operations
  -- work then returns, no journal is left, and the repository's files outside the transaction's own
  -- are as before, or have all changes.
  pub apply-recover_atomic :
      (fate' : ℕ → Fate)
      → ((n : ℕ) → fate' n ≡ works)
      → let s₁ = left (apply format is_symlink fate transaction_id harness_dir_existed changes s) in
        let s₂ = left (recover format is_symlink fate' s₁) in
        (b : Bool) × (recover format is_symlink fate' s₁ ≡ (returned b, s₂))
        × (s₂.disk journal_path ≡ none)
        × ((visible s₂.disk ≡ visible s.disk)
            ⊎ (visible s₂.disk ≡ visible (changed_files changes s.disk)))
  apply-recover_atomic fate' sound =
      let x = apply format is_symlink fate transaction_id harness_dir_existed changes s in
      let L =
        Left format backups is_symlink transaction_id harness_dir_existed changes free distinct
          s.disk idle in
      let start =
        Post-left x _ L L (λ u d p. inr (inl p)) (λ d p. p)
          (apply-Left format backups is_symlink transaction_id harness_dir_existed s.disk idle fate
            changes free distinct s refl) in
      let (b, e, (j, v)) = Post-returned (recover format is_symlink fate' (left x)) _ (
        recovers format backups is_symlink transaction_id harness_dir_existed s.disk idle fate'
          sound changes free distinct journals (left x) start) in
      (b, e, j, v)

  -- The changes are of different files, none of them the transaction's own, no journal stands, and
  -- backups and this transaction's journals are read as they were written. Then, when `apply`
  -- returns, all changes are made and no journal is left.
  pub apply_returned :
      {s' : State}
      → apply format is_symlink fate transaction_id harness_dir_existed changes s
        ≡ (returned tt, s')
      → (s'.disk journal_path ≡ none) × (visible s'.disk ≡ visible (changed_files changes s.disk))
  apply_returned h = subst (Post _ _) h (
      apply-Left format backups is_symlink transaction_id harness_dir_existed s.disk idle fate
        changes free distinct s refl)
