-- ===== src/Verifier/Required.antt =====
-- The results of all acceptances: which of them an empty list of issues leaves.
use adaptive_harness.Prelude.{
  String, ◌≡◌, refl, Bool, true, false, ◌&&◌, List, [], ◌∷◌, ◌++◌, Option, none, some, ◌=ˢ◌, arith,
  In, Bool-cases, Option-cases, inl, inr, eq_iff,
}
use mathlib.Core.Path.{subst}
use adaptive_harness.Paths.{PosixPath}
use adaptive_harness.Envelope.{Acceptance}
use adaptive_harness.Store.{TaskEvent, TaskRecord}
use adaptive_harness.Verifier.Defs.{AcceptanceStatus, AcceptanceResult, Facts}
use adaptive_harness.Verifier.Checks.{result_for, has_passed, is_passed, later_result}
use adaptive_harness.Verifier.Acceptance.{
  authorization_event, check_artifacts, sandbox_issues, reports_success, judge_evidence,
  judge_authorized, judge_candidate, last_finished, verify_acceptance, is_empty, failed_acceptance,
}
use adaptive_harness.Verifier.Verify.{verify_acceptances}
use adaptive_harness.Verifier.Issues.{append-eq-nil}

is_passed-eq : (s : AcceptanceStatus) → is_passed s ≡ true → s ≡ AcceptanceStatus.passed
is_passed-eq AcceptanceStatus.passed h = refl
is_passed-eq AcceptanceStatus.untrusted h = cc
is_passed-eq AcceptanceStatus.missing h = cc
is_passed-eq AcceptanceStatus.stale h = cc
is_passed-eq AcceptanceStatus.failed h = cc

later_result-passed :
    (x : AcceptanceResult) (b : Bool)
    → has_passed (later_result none x b) ≡ true
    → (b ≡ true) × (is_passed x.status ≡ true)
later_result-passed x true h = (refl, h)
later_result-passed x false h = cc

module _ (facts : Facts) (artifact_root : PosixPath) (secrets : List String) where
  judge_evidence-required :
      (r : TaskRecord) (a : Acceptance) (ev : TaskEvent)
      → a.required ≡ true
      → (judge_evidence facts artifact_root secrets r a ev).1 ≡ []
      → (judge_evidence facts artifact_root secrets r a ev).0.status ≡ AcceptanceStatus.passed
  unfolding judge_evidence
  judge_evidence-required r a ev q h =
      let found =
        check_artifacts facts artifact_root secrets r.task_id a ev ++ sandbox_issues r ev in
      elim (Bool-cases (is_empty found && reports_success a ev)) [
        | inl t ↦ rw t refl
        | inr f ↦
            let k : found ++ (failed_acceptance a AcceptanceStatus.failed (some ev.sequence)).1
                ≡ [] =
              rw f at h in
            let (e, n) = append-eq-nil found _ k in cc (rw q at n)
      ]

  judge_authorized-required :
      (r : TaskRecord) (a : Acceptance) (ev : TaskEvent) (o : Option TaskEvent)
      → a.required ≡ true
      → (judge_authorized facts artifact_root secrets r a ev o).1 ≡ []
      → (judge_authorized facts artifact_root secrets r a ev o).0.status ≡ AcceptanceStatus.passed
  judge_authorized-required r a ev none q h = cc
  judge_authorized-required r a ev (some authorization) q h =
      ground (arith, judge_evidence-required r a ev)

  judge_candidate-required :
      (r : TaskRecord) (a : Acceptance) (o : Option TaskEvent)
      → a.required ≡ true
      → (judge_candidate facts artifact_root secrets r a o).1 ≡ []
      → (judge_candidate facts artifact_root secrets r a o).0.status ≡ AcceptanceStatus.passed
  judge_candidate-required r a none q h = ground arith
  judge_candidate-required r a (some ev) q h =
      judge_authorized-required r a ev (authorization_event r ev) q h

  -- A required acceptance that appends no issue has passed.
  pub verify_acceptance-required :
      (r : TaskRecord) (a : Acceptance)
      → a.required ≡ true
      → (verify_acceptance facts artifact_root secrets r a).1 ≡ []
      → (verify_acceptance facts artifact_root secrets r a).0.status ≡ AcceptanceStatus.passed
  unfolding verify_acceptance
  verify_acceptance-required r a q h = elim (Bool-cases (a.evidence_type =ˢ "command_event")) [
    | inl t ↦ rw t (judge_candidate-required r a (last_finished r a) q (rw t at h))
    | inr f ↦ cc (rw f at h)
  ]

  pub verify_acceptances-required :
      (r : TaskRecord) (acceptances : List Acceptance)
      → (verify_acceptances facts artifact_root secrets r acceptances).1 ≡ []
      → (a : Acceptance) → In a acceptances
      → a.required ≡ true
      → (verify_acceptance facts artifact_root secrets r a).0.status ≡ AcceptanceStatus.passed
  unfolding verify_acceptances
  verify_acceptances-required r [] h a i q = elim i [ ]
  verify_acceptances-required r (x ∷ acceptances) h a i q =
      let (first, others) =
        append-eq-nil (verify_acceptance facts artifact_root secrets r x).1
          (verify_acceptances facts artifact_root secrets r acceptances).1 h in
      elim i [
        | inl s ↦
            verify_acceptance-required r a q
              (subst (λ y. (verify_acceptance facts artifact_root secrets r y).1 ≡ []) s first)
        | inr j ↦ verify_acceptances-required r acceptances others a j q
      ]

  -- A passed result of an id stands for an acceptance that passed.
  pub result_for-passed :
      (id : String) (r : TaskRecord) (acceptances : List Acceptance)
      → has_passed (result_for id (verify_acceptances facts artifact_root secrets r acceptances).0)
        ≡ true
      → (a : Acceptance) × In a acceptances
        × ((verify_acceptance facts artifact_root secrets r a).0.acceptance_id ≡ id)
        × ((verify_acceptance facts artifact_root secrets r a).0.status ≡ AcceptanceStatus.passed)
  unfolding verify_acceptances
  result_for-passed id r [] h = cc
  result_for-passed id r (x ∷ acceptances) h =
      let xs = (verify_acceptances facts artifact_root secrets r acceptances).0 in
      let first = (verify_acceptance facts artifact_root secrets r x).0 in
      elim (Option-cases (result_for id xs)) [
        | inr (y, s) ↦
            let (a, i, m, p) = result_for-passed id r acceptances (rw s (rw s at h)) in
            (a, inr i, m, p)
        | inl n ↦
            let (t, p) = later_result-passed first (first.acceptance_id =ˢ id) (rw n at h) in
            (x, inl refl, (eq_iff first.acceptance_id id).0 t, is_passed-eq first.status p)
      ]
