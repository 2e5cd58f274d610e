-- ===== src/Verifier/Checks.antt =====
-- The checks of the whole task. Each returns the issues that it appends.
use Prim.Native.String.{◌++◌ as ◌<>◌}
use adaptive_harness.Prelude.{
  String, Bool, true, false, not, ◌&&◌, ◌||◌, List, [], ◌∷◌, ◌++◌, map, Option, none, some, ◌=ˢ◌,
  all, any, select, keep_if, contains, if◌then◌else◌, Result, ok, err, type_error, guard, ◌>>=◌,
  ◌>>◌,
}
use adaptive_harness.Paths.{parse_path, is_absolute, has_parent_part}
use adaptive_harness.Json.{
  Value, null, str, arr, obj, Items, nil, cons, Fields, end, field, has_key, get, value_eq,
  hashable,
}
use adaptive_harness.Envelope.{TaskEnvelope, Acceptance, Requirement, is_nil}
use adaptive_harness.Store.{TaskEvent, TaskRecord}
use adaptive_harness.Gateway.{WorkspaceSnapshot, in_scope, has_type}
use adaptive_harness.Executor.{same_workspace}
use adaptive_harness.Verifier.Defs.{VerificationIssue, AcceptanceResult, AcceptanceStatus, passed}

abbrev pub issue : String → String → Bool → VerificationIssue
issue code message waivable = record { code = code; message = message; waivable = waivable }

-- `_check_workspace`
unfoldable pub check_workspace : TaskEnvelope → WorkspaceSnapshot → List VerificationIssue
check_workspace e snapshot =
    if same_workspace e snapshot
    then []
    else issue "workspace_mismatch" "repository, base SHA, or worktree identity changed" false ∷ []

-- `in_scope` of one changed path
abbrev pub path_allowed : TaskEnvelope → String → Bool
path_allowed e path =
    not (is_absolute (parse_path path))
    && not (has_parent_part (parse_path path))
    && in_scope e.allowed_scope (parse_path path)

-- `_check_diff`, of the paths that the diff probe returns
unfoldable pub check_diff : TaskEnvelope → List String → List VerificationIssue
check_diff e [] = []
check_diff e (path ∷ paths) =
    keep_if (not (path_allowed e path))
      (issue "diff_out_of_scope" ("changed path is outside allowed scope: " <> path) false)
      (check_diff e paths)

abbrev pub authorization_sequence : TaskEvent → Value
authorization_sequence ev = get ev.payload "authorization_event_sequence"

-- `finished`: the values of the finish events, which are put into a set
abbrev pub finished_sequences : List TaskEvent → List Value
finished_sequences events = map authorization_sequence (select (has_type "command.finished") events)

unfoldable pub incomplete_commands : List Value → List TaskEvent → Result (List VerificationIssue)
incomplete_commands finished [] = ok []
incomplete_commands finished (ev ∷ events) = do
  guard (not (has_type "command.started" ev) || hashable (authorization_sequence ev)) type_error
  issues ← incomplete_commands finished events
  ok (
      keep_if
        (has_type "command.started" ev && not (any (value_eq (authorization_sequence ev)) finished))
        (issue "command_incomplete" "a command started without a terminal event" true) issues)

-- `_check_incomplete_commands`. A value that cannot be hashed raises `TypeError`.
unfoldable pub check_incomplete_commands : TaskRecord → Result (List VerificationIssue)
unfolding incomplete_commands
check_incomplete_commands r = do
  guard (all hashable (finished_sequences r.events)) type_error
  incomplete_commands (finished_sequences r.events) r.events

abbrev pub item_values : Items → List Value
item_values nil = []
item_values (cons v xs) = v ∷ item_values xs

abbrev pub key_values : Fields → List Value
key_values end = []
key_values (field k v d) = str k ∷ key_values d

abbrev pub char_values : String → List Value
char_values String.[] = []
char_values (String.◌∷◌ c s) = str (String.◌∷◌ c "") ∷ char_values s

-- `set(v)`: the elements that iterating over the value gives, if it can be iterated over
abbrev pub elements : Value → Result (List Value)
elements (arr xs) = if all hashable (item_values xs) then ok (item_values xs) else err type_error
elements (obj d) = ok (key_values d)
elements (str s) = ok (char_values s)
elements _ = err type_error

-- `event.data.get("side_effects", [])`
abbrev pub declared_effects : Fields → Value
declared_effects d = if has_key d "side_effects" then get d "side_effects" else arr nil

abbrev pub is_text : String → Value → Bool
is_text s v = value_eq v (str s)

-- `bool(side_effects & high_risk)`
unfoldable pub has_high_risk : List Value → Bool
unfolding value_eq
has_high_risk effects =
    any (λ v. is_text "production" v || is_text "credentials" v || is_text "irreversible" v) effects

abbrev pub is_null : Value → Bool
is_null null = true
is_null _ = false

-- An authorization that is high risk, of these side effects, and holds no approval.
unfoldable pub unapproved : TaskEvent → List Value → Bool
unfolding has_high_risk
unapproved ev effects =
    (has_high_risk effects || is_text "production" (get ev.payload "environment"))
    && is_null (get ev.payload "approval_id")

abbrev pub high_risk_of : TaskEvent → Bool → Result (List VerificationIssue)
high_risk_of ev false = ok []
high_risk_of ev true = do
  effects ← elements (declared_effects ev.payload)
  ok (
      keep_if (unapproved ev effects)
        (issue "unapproved_high_risk_operation" "high-risk operation lacks a scoped approval" false)
        [])

-- `_check_high_risk_approvals`, of the events of the record
unfoldable pub check_high_risk_approvals : List TaskEvent → Result (List VerificationIssue)
check_high_risk_approvals [] = ok []
check_high_risk_approvals (ev ∷ events) = do
  first ← high_risk_of ev (has_type "command.authorized" ev)
  others ← check_high_risk_approvals events
  ok (first ++ others)

abbrev pub later_result :
    Option AcceptanceResult → AcceptanceResult → Bool → Option AcceptanceResult
later_result (some found) result matches = some found
later_result none result matches = if matches then some result else none

-- `result_by_id.get(id)`: of two results for one id the later one
abbrev pub result_for : String → List AcceptanceResult → Option AcceptanceResult
result_for id [] = none
result_for id (x ∷ xs) = later_result (result_for id xs) x (x.acceptance_id =ˢ id)

abbrev pub is_passed : AcceptanceStatus → Bool
is_passed passed = true
is_passed _ = false

-- `result_by_id[id].status == "passed"`; each acceptance has a result
abbrev pub has_passed : Option AcceptanceResult → Bool
has_passed none = false
has_passed (some result) = is_passed result.status

abbrev pub covering : TaskEnvelope → Requirement → List Acceptance
covering e q = select (λ a. contains a.covers q.id) e.acceptances

abbrev pub requirement_issues :
    TaskEnvelope → List AcceptanceResult → Requirement → List VerificationIssue
requirement_issues e results q =
    if is_nil (covering e q)
    then issue "requirement_uncovered" ("requirement has no acceptance: " <> q.id) false ∷ []
    else if any (λ a. has_passed (result_for a.id results)) (covering e q)
    then []
    else issue "requirement_unverified" ("requirement lacks passing evidence: " <> q.id) true ∷ []

-- `_check_requirement_coverage`, of the envelope's requirements
unfoldable pub check_requirement_coverage :
    TaskEnvelope → List AcceptanceResult → List Requirement → List VerificationIssue
check_requirement_coverage e results [] = []
check_requirement_coverage e results (q ∷ requirements) =
    requirement_issues e results q ++ check_requirement_coverage e results requirements
