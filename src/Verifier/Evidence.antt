-- ===== src/Verifier/Evidence.antt =====
-- What a passed acceptance rests on.
use adaptive_harness.Prelude.{
  ℕ, ◌-◌, ◌≤◌, leb→le, String, ◌≡◌, refl, ap, true, ◌&&◌, List, [], ◌∷◌, ◌++◌, Option, none, some,
  arith, leb, ◌=ˢ◌, get_elem?, length, pos, &&-true, Bool-cases, inl, inr, negsuc,
}
use mathlib.Core.Path.{subst}
use adaptive_harness.Paths.{PosixPath}
use adaptive_harness.Json.{Value, num, get, null, bool, str, arr, obj}
use adaptive_harness.Envelope.{Acceptance}
use adaptive_harness.Store.{TaskEvent, TaskRecord}
use adaptive_harness.Gateway.{has_type}
use adaptive_harness.Verifier.Defs.{AcceptanceStatus, VerificationIssue, Facts}
use adaptive_harness.Verifier.Checks.{authorization_sequence}
use adaptive_harness.Verifier.Issues.{append-eq-nil}
use adaptive_harness.Verifier.Acceptance.{
  same_capability, matching_event, event_numbered, authorization_event, has_started_event,
  check_artifacts, sandbox_issues, reports_success, judge_evidence, same_revision, by_executor,
  judge_authorized, judge_candidate, last_finished, verify_acceptance, is_empty,
}

-- The event that a finish event names as its authorization.
pub record AuthorizedBy (r : TaskRecord) (finished authorization : TaskEvent) : Type 0 where
  pub number : ℕ
  pub positive : 1 ≤ number
  pub named : authorization_sequence finished ≡ num (pos number)
  pub stored : get_elem? r.events (number - 1) ≡ some authorization
  pub is_authorization : has_type "command.authorized" authorization ≡ true
  pub same_command : same_capability authorization (get finished.payload "capability_id") ≡ true

module _ (facts : Facts) (artifact_root : PosixPath) (secrets : List String) where
  -- The last finish event of the acceptance's command is trusted evidence of the expected result.
  pub record Evidence (r : TaskRecord) (a : Acceptance) (finished : TaskEvent) : Type 0 where
    pub kind : (a.evidence_type =ˢ "command_event") ≡ true
    pub last : last_finished r a ≡ some finished
    pub authorization : TaskEvent
    pub authorized : AuthorizedBy r finished authorization
    pub current : same_revision r authorization ≡ true
    pub started : has_started_event r finished ≡ true
    pub producer : by_executor finished ≡ true
    pub artifacts : check_artifacts facts artifact_root secrets r.task_id a finished ≡ []
    pub sandbox : sandbox_issues r finished ≡ []
    pub success : reports_success a finished ≡ true

matching-AuthorizedBy :
    (o : Option TaskEvent) (capability : Value) {authorization : TaskEvent}
    → matching_event o capability ≡ some authorization
    → (o ≡ some authorization)
      × (has_type "command.authorized" authorization ≡ true)
      × (same_capability authorization capability ≡ true)
matching-AuthorizedBy none capability h = cc
matching-AuthorizedBy (some ev) capability {authorization} h =
    elim (Bool-cases (has_type "command.authorized" ev && same_capability ev capability)) [
      | inr f ↦ cc (rw f at h)
      | inl t ↦
          let same : ev ≡ authorization = cc (rw t at h) in
          let (p, q) =
            &&-true (has_type "command.authorized" ev) (same_capability ev capability) t in
          (
            ap some same,
            subst (λ x. has_type "command.authorized" x ≡ true) same p,
            subst (λ x. same_capability x capability ≡ true) same q,
          )
    ]

numbered-AuthorizedBy :
    (r : TaskRecord) (finished : TaskEvent) (v : Value) {authorization : TaskEvent}
    → authorization_sequence finished ≡ v
    → event_numbered r.events v (get finished.payload "capability_id") ≡ some authorization
    → AuthorizedBy r finished authorization
numbered-AuthorizedBy r finished (num (pos n)) e h =
    elim (Bool-cases (leb 1 n && leb n (length r.events))) [
      | inr f ↦ cc (rw f at h)
      | inl t ↦
          let (s, k, c) =
            matching-AuthorizedBy (get_elem? r.events (n - 1))
              (get finished.payload "capability_id") (rw t at h) in
          record {
            number = n;
            positive = leb→le 1 n (&&-true (leb 1 n) (leb n (length r.events)) t).0;
            named = e;
            stored = s;
            is_authorization = k;
            same_command = c;
          }
    ]
numbered-AuthorizedBy r finished (num (negsuc n)) e h = cc
numbered-AuthorizedBy r finished null e h = cc
numbered-AuthorizedBy r finished (bool b) e h = cc
numbered-AuthorizedBy r finished (str s) e h = cc
numbered-AuthorizedBy r finished (arr xs) e h = cc
numbered-AuthorizedBy r finished (obj d) e h = cc

authorization_event-AuthorizedBy :
    (r : TaskRecord) (finished : TaskEvent) {authorization : TaskEvent}
    → authorization_event r finished ≡ some authorization
    → AuthorizedBy r finished authorization
unfolding authorization_event
authorization_event-AuthorizedBy r finished h =
    numbered-AuthorizedBy r finished (authorization_sequence finished) refl h

is_empty-nil : (xs : List VerificationIssue) → is_empty xs ≡ true → xs ≡ []
is_empty-nil [] h = refl
is_empty-nil (x ∷ xs) h = cc

module _ (facts : Facts) (artifact_root : PosixPath) (secrets : List String) where
  judge_evidence-passed :
      (r : TaskRecord) (a : Acceptance) (ev : TaskEvent)
      → (judge_evidence facts artifact_root secrets r a ev).0.status ≡ AcceptanceStatus.passed
      → (check_artifacts facts artifact_root secrets r.task_id a ev ≡ [])
        × (sandbox_issues r ev ≡ [])
        × (reports_success a ev ≡ true)
  unfolding judge_evidence
  judge_evidence-passed r a ev h =
      let found =
        check_artifacts facts artifact_root secrets r.task_id a ev ++ sandbox_issues r ev in
      elim (Bool-cases (is_empty found && reports_success a ev)) [
        | inr f ↦ cc (rw f at h)
        | inl t ↦
            let (e, s) = &&-true (is_empty found) (reports_success a ev) t in
            let (x, y) =
              append-eq-nil (check_artifacts facts artifact_root secrets r.task_id a ev)
                (sandbox_issues r ev) (is_empty-nil found e) in
            (x, y, s)
      ]

  judge_authorized-passed :
      (r : TaskRecord) (a : Acceptance) (ev : TaskEvent) (o : Option TaskEvent)
      → (judge_authorized facts artifact_root secrets r a ev o).0.status ≡ AcceptanceStatus.passed
      → (authorization : TaskEvent) × (o ≡ some authorization)
        × (same_revision r authorization ≡ true)
        × (has_started_event r ev ≡ true)
        × (by_executor ev ≡ true)
        × ((judge_evidence facts artifact_root secrets r a ev).0.status ≡ AcceptanceStatus.passed)
  judge_authorized-passed r a ev none h = cc
  judge_authorized-passed r a ev (some authorization) h =
      (authorization, refl, ground arith, ground arith, ground arith, ground arith)

  judge_candidate-Evidence :
      (r : TaskRecord) (a : Acceptance) (o : Option TaskEvent)
      → (a.evidence_type =ˢ "command_event") ≡ true
      → last_finished r a ≡ o
      → (judge_candidate facts artifact_root secrets r a o).0.status ≡ AcceptanceStatus.passed
      → (finished : TaskEvent) × Evidence facts artifact_root secrets r a finished
  judge_candidate-Evidence r a none k l h = cc
  judge_candidate-Evidence r a (some ev) k l h =
      let (authorization, e, revision, started, producer, passes) =
        judge_authorized-passed r a ev (authorization_event r ev) h in
      let (artifacts, sandbox, success) = judge_evidence-passed r a ev passes in
      (
        ev,
        record {
          kind = k;
          last = l;
          authorization = authorization;
          authorized = authorization_event-AuthorizedBy r ev e;
          current = revision;
          started = started;
          producer = producer;
          artifacts = artifacts;
          sandbox = sandbox;
          success = success;
        },
      )

  -- An acceptance passes only on such evidence.
  pub verify_acceptance-Evidence :
      (r : TaskRecord) (a : Acceptance)
      → (verify_acceptance facts artifact_root secrets r a).0.status ≡ AcceptanceStatus.passed
      → (finished : TaskEvent) × Evidence facts artifact_root secrets r a finished
  unfolding verify_acceptance
  verify_acceptance-Evidence r a h = elim (Bool-cases (a.evidence_type =ˢ "command_event")) [
    | inl t ↦ judge_candidate-Evidence r a (last_finished r a) t refl (rw t at h)
    | inr f ↦ cc (rw f at h)
  ]
