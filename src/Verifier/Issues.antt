-- ===== src/Verifier/Issues.antt =====
-- What an empty list of issues says of each check.
use adaptive_harness.Prelude.{
  String, ◌≡◌, refl, ap, Bool, true, false, not, ◌&&◌, ◌||◌, List, [], ◌∷◌, ◌++◌, arith, In, any,
  all, keep_if, Bool-cases, inl, inr, ok, type_error, Option, >>=-eq-ok, guard-eq-ok,
}
use mathlib.Core.Path.{subst, ◌∙◌}
use adaptive_harness.Json.{Value, value_eq, hashable}
use adaptive_harness.Envelope.{TaskEnvelope, Requirement, Acceptance, is_nil}
use adaptive_harness.Store.{TaskEvent, TaskRecord}
use adaptive_harness.Prelude.{ok_path}
use adaptive_harness.Gateway.{WorkspaceSnapshot, has_type}
use adaptive_harness.Executor.{same_workspace}
use adaptive_harness.Verifier.Defs.{VerificationIssue, AcceptanceResult, GateOutcome}
use adaptive_harness.Verifier.Checks.{
  check_workspace, path_allowed, check_diff, authorization_sequence, finished_sequences,
  incomplete_commands, check_incomplete_commands, elements, declared_effects, unapproved,
  high_risk_of, check_high_risk_approvals, covering, requirement_issues, check_requirement_coverage,
  has_passed, result_for,
}
use adaptive_harness.Verifier.Verify.{
  deduplicate_from, deduplicate_issues, outcome_of_issues, good_reason,
}

pub append-eq-nil : {A : Type 0} (xs ys : List A) → xs ++ ys ≡ [] → (xs ≡ []) × (ys ≡ [])
append-eq-nil [] ys h = (refl, h)
append-eq-nil (x ∷ xs) ys h = cc

keep_if-eq-nil :
    {A : Type 0} (b : Bool) (x : A) (xs : List A) → keep_if b x xs ≡ [] → (b ≡ false) × (xs ≡ [])
keep_if-eq-nil true x xs h = cc
keep_if-eq-nil false x xs h = (refl, h)

-- Only an empty list has no issue left after the removal of repeats.
pub deduplicate_issues-nil : (xs : List VerificationIssue) → deduplicate_issues xs ≡ [] → xs ≡ []
unfolding deduplicate_issues deduplicate_from
deduplicate_issues-nil [] h = refl
deduplicate_issues-nil (x ∷ xs) h = cc

pub check_workspace-nil :
    (e : TaskEnvelope) (snapshot : WorkspaceSnapshot)
    → check_workspace e snapshot ≡ []
    → same_workspace e snapshot ≡ true
unfolding check_workspace
check_workspace-nil e snapshot h = elim (Bool-cases (same_workspace e snapshot)) [
  | inl t ↦ t
  | inr f ↦ cc (rw f at h)
]

pub check_diff-nil :
    (e : TaskEnvelope) (paths : List String)
    → check_diff e paths ≡ []
    → (path : String) → In path paths
    → path_allowed e path ≡ true
unfolding check_diff
check_diff-nil e [] h path i = elim i [ ]
check_diff-nil e (p ∷ paths) h path i =
    let (f, rest) = keep_if-eq-nil (not (path_allowed e p)) _ (check_diff e paths) h in
    elim i [
      | inl s ↦ subst (λ x. path_allowed e x ≡ true) s (ground arith)
      | inr j ↦ check_diff-nil e paths rest path j
    ]

started_finished :
    (finished : List Value) (ev : TaskEvent)
    → has_type "command.started" ev ≡ true
    → (has_type "command.started" ev && not (any (value_eq (authorization_sequence ev)) finished))
      ≡ false
    → any (value_eq (authorization_sequence ev)) finished ≡ true
started_finished finished ev t f =
    elim (Bool-cases (any (value_eq (authorization_sequence ev)) finished)) [
      | inl a ↦ a
      | inr b ↦ ground arith
    ]

incomplete_commands-nil :
    (finished : List Value) (events : List TaskEvent)
    → incomplete_commands finished events ≡ ok []
    → (ev : TaskEvent) → In ev events
    → has_type "command.started" ev ≡ true
    → any (value_eq (authorization_sequence ev)) finished ≡ true
unfolding incomplete_commands
incomplete_commands-nil finished [] h ev i t = elim i [ ]
incomplete_commands-nil finished (x ∷ events) h ev i t =
    let (g, h₁) =
      guard-eq-ok (not (has_type "command.started" x) || hashable (authorization_sequence x))
        type_error _ h in
    let (issues, rest, h₂) = >>=-eq-ok (incomplete_commands finished events) _ h₁ in
    let (f, none_left) = keep_if-eq-nil _ _ issues (ok_path h₂) in
    elim i [
      | inl s ↦ started_finished finished ev t (
          subst
            (λ y.
              (has_type "command.started" y
                && not (any (value_eq (authorization_sequence y)) finished))
              ≡ false)
            s f)
      | inr j ↦ incomplete_commands-nil finished events (rest ∙ ap ok none_left) ev j t
    ]

pub check_incomplete_commands-nil :
    (r : TaskRecord)
    → check_incomplete_commands r ≡ ok []
    → (ev : TaskEvent) → In ev r.events
    → has_type "command.started" ev ≡ true
    → any (value_eq (authorization_sequence ev)) (finished_sequences r.events) ≡ true
unfolding check_incomplete_commands
check_incomplete_commands-nil r h =
    let (g, h₁) = guard-eq-ok (all hashable (finished_sequences r.events)) type_error _ h in
    incomplete_commands-nil (finished_sequences r.events) r.events h₁

-- Each authorization in the list that is high risk holds an approval.
abbrev pub HighRiskApproved : List TaskEvent → Type 0
HighRiskApproved events =
    (ev : TaskEvent)
    → In ev events
    → has_type "command.authorized" ev ≡ true
    → (effects : List Value) × (elements (declared_effects ev.payload) ≡ ok effects)
      × (unapproved ev effects ≡ false)

high_risk_of-nil :
    (ev : TaskEvent)
    → has_type "command.authorized" ev ≡ true
    → high_risk_of ev (has_type "command.authorized" ev) ≡ ok []
    → (effects : List Value) × (elements (declared_effects ev.payload) ≡ ok effects)
      × (unapproved ev effects ≡ false)
high_risk_of-nil ev t h =
    let k : high_risk_of ev true ≡ ok [] = rw t at h in
    let (effects, e, h₁) = >>=-eq-ok (elements (declared_effects ev.payload)) _ k in
    (effects, e, (keep_if-eq-nil (unapproved ev effects) _ [] (ok_path h₁)).0)

pub check_high_risk_approvals-nil :
    (events : List TaskEvent) → check_high_risk_approvals events ≡ ok [] → HighRiskApproved events
unfolding check_high_risk_approvals
check_high_risk_approvals-nil [] h ev i t = elim i [ ]
check_high_risk_approvals-nil (x ∷ events) h ev i t =
    let (first, f, h₁) = >>=-eq-ok (high_risk_of x (has_type "command.authorized" x)) _ h in
    let (others, rest, h₂) = >>=-eq-ok (check_high_risk_approvals events) _ h₁ in
    let (p, q) = append-eq-nil first others (ok_path h₂) in
    elim i [
      | inl s ↦
          high_risk_of-nil ev t
            (subst (λ y. high_risk_of y (has_type "command.authorized" y) ≡ ok []) s (f ∙ ap ok p))
      | inr j ↦ check_high_risk_approvals-nil events (rest ∙ ap ok q) ev j t
    ]

any-In :
    {A : Type 0} (f : A → Bool) (xs : List A) → any f xs ≡ true → (x : A) × In x xs × (f x ≡ true)
any-In f [] h = cc
any-In f (x ∷ xs) h = elim (Bool-cases (f x)) [
  | inl t ↦ (x, inl refl, t)
  | inr n ↦ let (y, i, p) = any-In f xs (rw n at h) in (y, inr i, p)
]

pub check_requirement_coverage-nil :
    (e : TaskEnvelope) (results : List AcceptanceResult) (requirements : List Requirement)
    → check_requirement_coverage e results requirements ≡ []
    → (q : Requirement) → In q requirements
    → (a : Acceptance) × In a (covering e q) × (has_passed (result_for a.id results) ≡ true)
unfolding check_requirement_coverage
check_requirement_coverage-nil e results [] h q i = elim i [ ]
check_requirement_coverage-nil e results (x ∷ requirements) h q i =
    let (p, rest) =
      append-eq-nil (requirement_issues e results x)
        (check_requirement_coverage e results requirements) h in
    elim i [
      | inl s ↦
          requirement_issues-nil e results q (subst (λ y. requirement_issues e results y ≡ []) s p)
      | inr j ↦ check_requirement_coverage-nil e results requirements rest q j
    ]
  where
    requirement_issues-nil :
        (e : TaskEnvelope) (results : List AcceptanceResult) (q : Requirement)
        → requirement_issues e results q ≡ []
        → (a : Acceptance) × In a (covering e q) × (has_passed (result_for a.id results) ≡ true)
    requirement_issues-nil e results q h = elim (Bool-cases (is_nil (covering e q))) [
      | inl t ↦ cc (rw t at h)
      | inr n ↦ elim (Bool-cases (any (λ a. has_passed (result_for a.id results)) (covering e q))) [
        | inl t ↦ any-In _ (covering e q) t
        | inr f ↦ ground arith
      ]
    ]

pub outcome_of_issues-completed :
    (accept_risk : Bool) (risk_reason : Option String) (xs : List VerificationIssue)
    → outcome_of_issues accept_risk risk_reason xs ≡ GateOutcome.completed
    → xs ≡ []
unfolding outcome_of_issues
outcome_of_issues-completed accept_risk risk_reason [] h = refl
outcome_of_issues-completed accept_risk risk_reason (x ∷ xs) h =
    elim (Bool-cases (accept_risk && good_reason risk_reason && all (λ y. y.waivable) (x ∷ xs))) [
      | inl t ↦ cc (rw t at h)
      | inr f ↦ cc (rw f at h)
    ]
