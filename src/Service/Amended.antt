-- ===== src/Service/Amended.antt =====
-- An amendment that adds capabilities asks for acceptances of them.
use mathlib.Core.Path.{subst}
use adaptive_harness.Prelude.{
  suc, String, ◌≡◌, refl, ◌∙◌, inl, inr, true, ◌||◌, List, [], ◌∷◌, ◌++◌, map, Option, some, arith,
  ◌=ˢ◌, eq_refl, eq_iff, contains, subset, subset-intro, length, Bool-cases,
}
use adaptive_harness.Envelope.{Acceptance, TaskEnvelope}
use adaptive_harness.Service.{
  requirement_ids_of, acceptance_of, unique_from, with_acceptances, changes_of,
}

abbrev pub commands_of : List Acceptance → List String
commands_of acceptances = map (λ a. a.command_id) acceptances

contains-commands_append :
    (acceptances : List Acceptance) (a : Acceptance) (x : String)
    → contains (commands_of (acceptances ++ a ∷ [])) x
      ≡ (contains (commands_of acceptances) x || a.command_id =ˢ x)
contains-commands_append [] a x = ground arith
contains-commands_append (b ∷ acceptances) a x =
    ground (arith, contains-commands_append acceptances a x)

with_acceptances-keeps :
    (e : TaskEnvelope) (existing cs : List String) (acceptances : List Acceptance) (x : String)
    → contains (commands_of acceptances) x ≡ true
    → contains (commands_of (with_acceptances e existing cs acceptances)) x ≡ true
unfolding with_acceptances
with_acceptances-keeps e existing [] acceptances x h = h
with_acceptances-keeps e existing (c ∷ cs) acceptances x h =
    elim (Bool-cases (contains existing c)) [
      | inl y ↦ rw y (with_acceptances-keeps e existing cs acceptances x h)
      | inr n ↦
          let a =
            acceptance_of (suc (length acceptances)) (requirement_ids_of e.requirements) c
              e.timeout_seconds e.retry_budget in
          rw n (
            with_acceptances-keeps e existing cs (acceptances ++ a ∷ []) x
              (contains-commands_append acceptances a x ∙ rw h refl))
    ]

with_acceptances-covers :
    (e : TaskEnvelope) (existing cs : List String) (acceptances : List Acceptance) (x : String)
    → ((c : String) → contains existing c ≡ true → contains (commands_of acceptances) c ≡ true)
    → contains cs x ≡ true
    → contains (commands_of (with_acceptances e existing cs acceptances)) x ≡ true
unfolding with_acceptances
with_acceptances-covers e existing [] acceptances x had h = cc
with_acceptances-covers e existing (c ∷ cs) acceptances x had h =
    let a =
      acceptance_of (suc (length acceptances)) (requirement_ids_of e.requirements) c
        e.timeout_seconds e.retry_budget in
    let after =
      λ (next : List Acceptance) (here : contains (commands_of next) c ≡ true)
          (kept : (y : String)
            → contains (commands_of acceptances) y ≡ true
            → contains (commands_of next) y ≡ true).
        elim (Bool-cases (c =ˢ x))
          as (λ b. contains (commands_of (with_acceptances e existing cs next)) x ≡ true) [
            | inl same ↦
                with_acceptances-keeps e existing cs next x
                  (subst (λ y. contains (commands_of next) y ≡ true) ((eq_iff c x).0 same) here)
            | inr other ↦
                with_acceptances-covers e existing cs next x (λ y k. kept y (had y k))
                  (ground arith)
          ] in
    elim (Bool-cases (contains existing c)) [
      | inl y ↦ rw y (after acceptances (had c y) (λ k i. i))
      | inr n ↦ rw n (
          after (acceptances ++ a ∷ [])
            (contains-commands_append acceptances a c ∙ ground (arith, eq_refl c))
            (λ k i. contains-commands_append acceptances a k ∙ rw i refl))
    ]

unique_from-contains :
    (seen xs : List String) (x : String)
    → contains xs x ≡ true
    → (contains seen x || contains (unique_from seen xs) x) ≡ true
unfolding unique_from
unique_from-contains seen [] x h = cc
unique_from-contains seen (y ∷ xs) x h =
    ground (arith, unique_from-contains (y ∷ seen) xs x, eq_iff y x)

contains-append :
    (xs ys : List String) (x : String) → contains (xs ++ ys) x ≡ (contains xs x || contains ys x)
contains-append [] ys x = refl
contains-append (y ∷ xs) ys x = ground (arith, contains-append xs ys x)

-- The changes for an amendment that adds capabilities ask for each of these, and for each that was
-- requested, and for an acceptance of each of these, and of each command that had one.
pub changes_of-covers :
    (e : TaskEnvelope) (goal : Option String) (scope : List String) (c : String) (cs : List String)
    → (acceptances : List Acceptance) × (requested : List String) × ((changes_of e goal scope
          (c ∷ cs)).acceptances
        ≡ some acceptances)
      × ((changes_of e goal scope (c ∷ cs)).requested_capabilities ≡ some requested)
      × (subset (c ∷ cs) (commands_of acceptances) ≡ true)
      × (subset (commands_of e.acceptances) (commands_of acceptances) ≡ true)
      × (subset (c ∷ cs) requested ≡ true)
      × (subset e.requested_capabilities requested ≡ true)
unfolding changes_of
changes_of-covers e goal scope c cs =
    let existing = commands_of e.acceptances in
    let requested = e.requested_capabilities ++ c ∷ cs in
    (
      with_acceptances e existing (c ∷ cs) e.acceptances,
      unique_from [] requested,
      refl,
      refl,
      subset-intro (c ∷ cs) _
          (λ x h. with_acceptances-covers e existing (c ∷ cs) e.acceptances x (λ y k. k) h),
      subset-intro existing _ (λ x h. with_acceptances-keeps e existing (c ∷ cs) e.acceptances x h),
      subset-intro (c ∷ cs) _ (λ x h.
          unique_from-contains [] requested x
            (contains-append e.requested_capabilities (c ∷ cs) x ∙ ground arith)),
      subset-intro e.requested_capabilities _ (λ x h.
          unique_from-contains [] requested x
            (contains-append e.requested_capabilities (c ∷ cs) x ∙ rw h refl)),
    )
