-- ===== src/Verifier/Authorized.antt =====
-- From the gateway to the verifier: no authorization that the gateway grants fails the verifier's
-- check on high-risk operations.
use adaptive_harness.Prelude.{
  ℕ, String, ◌≡◌, refl, sym, ap, ◌∙◌, true, false, List, [], ◌∷◌, ◌++◌, Option, none, some, arith,
  all, contains, ok, ok_path, >>=-eq-ok,
}
use mathlib.Core.Path.{subst}
use adaptive_harness.Paths.{PosixPath}
use adaptive_harness.Json.{Value, str, value_eq, hashable, str_items}
use adaptive_harness.Envelope.{TaskEnvelope}
use adaptive_harness.Store.{TaskEvent, TaskRecord, Files, current_envelope, load}
use adaptive_harness.Store.History.{with_event}
use adaptive_harness.Store.Commits.{Next}
use adaptive_harness.Gateway.{
  Capability, ProjectPolicy, WorkspaceSnapshot, ScopedApproval, AuthorizedCommand,
  ExecutionEnvironment, environment_value, side_effect_values, has_type, is_production,
  kernel_high_risk, requires_approval, authorization_data, authorize,
}
use adaptive_harness.Gateway.Rules.{ApprovedBy}
use adaptive_harness.Gateway.Sound.{authorize-Granted}
use adaptive_harness.Verifier.Checks.{
  item_values, elements, declared_effects, is_text, has_high_risk, unapproved, high_risk_of,
  check_high_risk_approvals,
}
use adaptive_harness.Verifier.Issues.{append-eq-nil}

check_high_risk_approvals-append :
    (xs ys : List TaskEvent)
    → check_high_risk_approvals xs ≡ ok []
    → check_high_risk_approvals ys ≡ ok []
    → check_high_risk_approvals (xs ++ ys) ≡ ok []
unfolding check_high_risk_approvals
check_high_risk_approvals-append [] ys h k = k
check_high_risk_approvals-append (x ∷ xs) ys h k =
    let (first, f, h₁) = >>=-eq-ok (high_risk_of x (has_type "command.authorized" x)) _ h in
    let (others, g, h₂) = >>=-eq-ok (check_high_risk_approvals xs) _ h₁ in
    let (p, q) = append-eq-nil first others (ok_path h₂) in
    let rest = check_high_risk_approvals-append xs ys (g ∙ ap ok q) k in
    rw (f ∙ ap ok p) (rw rest refl)

hashable-str_items : (xs : List String) → all hashable (item_values (str_items xs)) ≡ true
hashable-str_items [] = refl
hashable-str_items (x ∷ xs) = hashable-str_items xs

has_high_risk-str_items :
    (xs : List String)
    → contains xs "production" ≡ false
    → contains xs "credentials" ≡ false
    → contains xs "irreversible" ≡ false
    → has_high_risk (item_values (str_items xs)) ≡ false
unfolding has_high_risk value_eq
has_high_risk-str_items [] p c i = refl
has_high_risk-str_items (x ∷ xs) p c i = ground (arith, has_high_risk-str_items xs)

is_text-environment :
    (v : ExecutionEnvironment)
    → is_production v ≡ false
    → is_text "production" (str (environment_value v)) ≡ false
unfolding value_eq
is_text-environment ExecutionEnvironment.local h = refl
is_text-environment ExecutionEnvironment.test h = refl
is_text-environment ExecutionEnvironment.staging h = refl
is_text-environment ExecutionEnvironment.production h = cc

-- The values that the event of an authorization declares as side effects.
abbrev effects_of : Capability → List Value
effects_of c = item_values (str_items (side_effect_values c.side_effects))

module _ (policy : ProjectPolicy) (time : ℕ) (r : TaskRecord) (c : Capability)
    (snapshot : WorkspaceSnapshot) (approvals : List ScopedApproval) where
  approved_event :
      (e : TaskEnvelope) (cwd : PosixPath) (approval_id : Option String) (ev : TaskEvent)
      → ApprovedBy policy time r c snapshot approvals approval_id
      → Next r "command.authorized" (authorization_data e c cwd approval_id) ev
      → unapproved ev (effects_of c) ≡ false
  unfolding unapproved requires_approval kernel_high_risk
  approved_event e cwd (some id) ev a next = rw next.payload_ (ground arith)
  approved_event e cwd none ev a next = rw next.payload_ (
      rw
        (has_high_risk-str_items (side_effect_values c.side_effects) (ground arith) (ground arith)
          (ground arith))
        (rw (is_text-environment c.environment (ground arith)) refl))

  event_passes :
      (e : TaskEnvelope) (cwd : PosixPath) (approval_id : Option String) (ev : TaskEvent)
      → ApprovedBy policy time r c snapshot approvals approval_id
      → Next r "command.authorized" (authorization_data e c cwd approval_id) ev
      → check_high_risk_approvals (ev ∷ []) ≡ ok []
  unfolding check_high_risk_approvals
  event_passes e cwd approval_id ev a next =
      let type_ : has_type "command.authorized" ev ≡ true = rw next.type_ refl in
      let declared : elements (declared_effects ev.payload) ≡ ok (effects_of c) =
        rw next.payload_ (rw (hashable-str_items (side_effect_values c.side_effects)) refl) in
      let passes : high_risk_of ev true ≡ ok [] =
        rw declared (rw (approved_event e cwd approval_id ev a next) refl) in
      rw type_ (rw passes refl)

-- A record without unapproved high-risk operations is still one after the gateway has authorized a
-- command on it: the record that loads then passes the verifier's check on approvals too.
pub authorize_approved :
    (digest : TaskRecord → String) (resolve : PosixPath → PosixPath)
    (capabilities : List Capability) (policy : ProjectPolicy) (now : String) (time : ℕ)
    (snapshot : WorkspaceSnapshot) (files : Files) (task_id capability_id : String)
    (approvals : List ScopedApproval) (r : TaskRecord) {cmd : AuthorizedCommand} {files' : Files}
    → load digest files task_id ≡ ok r
    → check_high_risk_approvals r.events ≡ ok []
    → authorize digest resolve capabilities policy now time snapshot files task_id capability_id
        approvals
      ≡ ok (cmd, files')
    → (r' : TaskRecord) × (load digest files' task_id ≡ ok r')
      × (check_high_risk_approvals r'.events ≡ ok [])
authorize_approved digest resolve capabilities policy now time snapshot files task_id capability_id
      approvals r l s h =
    let (r₀, c, ev, id, l₀, granted, next, after, e) =
      authorize-Granted digest resolve capabilities policy now time snapshot files task_id
        capability_id approvals h in
    let same : r ≡ r₀ = ok_path (sym l ∙ l₀) in
    (
      with_event r₀ r₀.state ev,
      after,
      check_high_risk_approvals-append r₀.events (ev ∷ [])
          (subst (λ x. check_high_risk_approvals x.events ≡ ok []) same s)
          (event_passes policy time r₀ c snapshot approvals (current_envelope r₀) _ id ev
            granted.approved next),
    )
