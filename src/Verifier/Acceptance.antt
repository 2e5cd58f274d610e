-- ===== src/Verifier/Acceptance.antt =====
-- `_verify_acceptance`: the evidence for one acceptance, and the issues that it appends.
use Prim.Native.String.{◌++◌ as ◌<>◌}
use adaptive_harness.Prelude.{
  ℕ, ◌-◌, String, Bool, true, false, not, ◌&&◌, ◌||◌, List, [], ◌∷◌, ◌++◌, Option, none, some, ◌=ˢ◌,
  leb, ltb, any, select, keep_if, last?, get_elem?, length, if◌then◌else◌, pos,
}
use adaptive_harness.Paths.{
  PosixPath, parse_path, is_absolute, is_relative_to, join_path, show_path,
}
use adaptive_harness.Json.{Value, bool, num, str, get, value_eq}
use adaptive_harness.Envelope.{Acceptance}
use adaptive_harness.Store.{TaskEvent, TaskRecord, current_envelope}
use adaptive_harness.Gateway.{has_type}
use adaptive_harness.Executor.{starts_with}
use adaptive_harness.Verifier.Defs.{
  VerificationIssue, AcceptanceStatus, acceptance_status_name, AcceptanceResult, Facts,
}
use adaptive_harness.Verifier.Checks.{issue, authorization_sequence}

-- `event.data.get("capability_id") == value`, for two stored values
abbrev pub same_capability : TaskEvent → Value → Bool
same_capability ev v = value_eq (get ev.payload "capability_id") v

abbrev pub matching_event : Option TaskEvent → Value → Option TaskEvent
matching_event none capability = none
matching_event (some ev) capability =
    if has_type "command.authorized" ev && same_capability ev capability then some ev else none

abbrev pub event_numbered : List TaskEvent → Value → Value → Option TaskEvent
event_numbered events (num (pos n)) capability =
    if leb 1 n && leb n (length events)
    then matching_event (get_elem? events (n - 1)) capability
    else none
event_numbered events _ capability = none

-- `_authorization_event`
unfoldable pub authorization_event : TaskRecord → TaskEvent → Option TaskEvent
authorization_event r finished =
    event_numbered r.events (authorization_sequence finished) (get finished.payload "capability_id")

-- `_has_started_event`
unfoldable pub has_started_event : TaskRecord → TaskEvent → Bool
has_started_event r finished =
    any
      (λ ev.
        ltb ev.sequence finished.sequence
        && has_type "command.started" ev
        && value_eq (authorization_sequence ev) (authorization_sequence finished))
      r.events

-- `secret in content`
abbrev pub is_within : String → String → Bool
is_within secret String.[] = starts_with secret String.[]
is_within secret (String.◌∷◌ c s) = starts_with secret (String.◌∷◌ c s) || is_within secret s

-- `v is True` and `v is False`
abbrev pub is_true : Value → Bool
is_true (bool b) = b
is_true _ = false

abbrev pub is_false : Value → Bool
is_false (bool b) = not b
is_false _ = false

abbrev pub result : Acceptance → AcceptanceStatus → Option ℕ → AcceptanceResult
result a status sequence = record {
  acceptance_id = a.id;
  status = status;
  evidence_event_sequence = sequence;
}

-- `_failed_acceptance`
abbrev pub failed_acceptance :
    Acceptance → AcceptanceStatus → Option ℕ → AcceptanceResult × List VerificationIssue
failed_acceptance a status sequence = (
  result a status sequence,
  keep_if a.required
      (issue "required_acceptance_failed"
        ("required acceptance " <> (a.id <> (" is " <> acceptance_status_name status))) true)
      [],
)

abbrev pub untrusted_evidence :
    Acceptance → Option ℕ → String → AcceptanceResult × List VerificationIssue
untrusted_evidence a sequence reason = (
  result a AcceptanceStatus.untrusted sequence,
  issue "untrusted_evidence" ("acceptance " <> (a.id <> reason)) false ∷ [],
)

abbrev pub is_empty : List VerificationIssue → Bool
is_empty [] = true
is_empty (x ∷ xs) = false

-- An enforced task whose evidence has no enforced sandbox.
abbrev pub sandbox_issues : TaskRecord → TaskEvent → List VerificationIssue
sandbox_issues r ev =
    keep_if
      ((current_envelope r).integration_mode =ˢ "enforced"
        && not (is_true (get ev.payload "sandbox_enforced")))
      (issue "sandbox_not_enforced" "enforced task evidence lacks an enforced sandbox" false) []

-- The event reports the expected result.
unfoldable pub reports_success : Acceptance → TaskEvent → Bool
unfolding value_eq
reports_success a ev =
    value_eq (get ev.payload "status") (str "succeeded")
    && value_eq (get ev.payload "exit_code") (num a.expected_exit_code)
    && is_false (get ev.payload "timed_out")
    && is_false (get ev.payload "cancelled")

abbrev pub with_issues :
    List VerificationIssue
    → AcceptanceResult × List VerificationIssue
    → AcceptanceResult × List VerificationIssue
with_issues before (x, issues) = (x, before ++ issues)

abbrev pub same_revision : TaskRecord → TaskEvent → Bool
same_revision r authorization =
    value_eq (get authorization.payload "envelope_revision")
      (num (pos (current_envelope r).revision))

abbrev pub by_executor : TaskEvent → Bool
by_executor ev = value_eq (get ev.payload "producer") (str "adaptive_harness.executor")

-- `candidates[-1]`: the last finish event of the acceptance's command
abbrev pub last_finished : TaskRecord → Acceptance → Option TaskEvent
last_finished r a = last? (
    select (λ ev. has_type "command.finished" ev && same_capability ev (str a.command_id)) r.events)

module _ (facts : Facts) (artifact_root : PosixPath) (secrets : List String) where
  -- The file is where artifacts of the task are kept.
  abbrev pub kept_inside : String → PosixPath → PosixPath → Bool
  kept_inside task_id path resolved = not (
      not (is_absolute path)
      || facts.is_symlink path
      || not (is_relative_to resolved (facts.resolve (join_path artifact_root task_id)))
      || not (facts.is_file resolved))

  abbrev pub artifact_found : String → PosixPath → Option PosixPath → List VerificationIssue
  artifact_found task_id path none =
      issue "evidence_missing" ("acceptance artifact does not exist: " <> show_path path) true ∷ []
  artifact_found task_id path (some resolved) =
      if not (kept_inside task_id path resolved)
      then issue "artifact_escape" ("acceptance artifact escapes task storage: " <> show_path path)
          false
        ∷ []
      else if any (λ secret. is_within secret (facts.read_text resolved)) secrets
      then issue "secret_leak" ("secret found in acceptance artifact: " <> show_path path) false
        ∷ []
      else []

  abbrev pub artifact_issues : String → Acceptance → String → Value → List VerificationIssue
  artifact_issues task_id a name (str raw_path) =
      artifact_found task_id (parse_path raw_path) (facts.resolve_strict (parse_path raw_path))
  artifact_issues task_id a name _ =
      issue "evidence_missing" ("acceptance " <> (a.id <> (" lacks " <> name))) true ∷ []

  -- `_check_artifacts`: the result is `True` when it appends no issue
  unfoldable pub check_artifacts : String → Acceptance → TaskEvent → List VerificationIssue
  check_artifacts task_id a ev =
      artifact_issues task_id a "stdout_artifact" (get ev.payload "stdout_artifact")
      ++ artifact_issues task_id a "stderr_artifact" (get ev.payload "stderr_artifact")

  -- The evidence of an event that is trusted.
  unfoldable pub judge_evidence :
      TaskRecord → Acceptance → TaskEvent → AcceptanceResult × List VerificationIssue
  unfolding reports_success check_artifacts
  judge_evidence r a ev =
      let found = check_artifacts r.task_id a ev ++ sandbox_issues r ev in
      with_issues found (
        if is_empty found && reports_success a ev
        then (result a AcceptanceStatus.passed (some ev.sequence), [])
        else failed_acceptance a AcceptanceStatus.failed (some ev.sequence))

  abbrev pub judge_authorized :
      TaskRecord
      → Acceptance
      → TaskEvent
      → Option TaskEvent
      → AcceptanceResult × List VerificationIssue
  judge_authorized r a ev none =
      untrusted_evidence a (some ev.sequence) " has no valid authorization"
  judge_authorized r a ev (some authorization) =
      if not (same_revision r authorization)
      then failed_acceptance a AcceptanceStatus.stale (some ev.sequence)
      else if not (has_started_event r ev)
      then untrusted_evidence a (some ev.sequence) " has no matching start event"
      else if not (by_executor ev)
      then untrusted_evidence a (some ev.sequence) " was not produced by Executor"
      else judge_evidence r a ev

  abbrev pub judge_candidate :
      TaskRecord → Acceptance → Option TaskEvent → AcceptanceResult × List VerificationIssue
  judge_candidate r a none = failed_acceptance a AcceptanceStatus.missing none
  judge_candidate r a (some ev) = judge_authorized r a ev (authorization_event r ev)

  -- `_verify_acceptance`
  unfoldable pub verify_acceptance :
      TaskRecord → Acceptance → AcceptanceResult × List VerificationIssue
  unfolding judge_evidence has_started_event authorization_event value_eq
  verify_acceptance r a =
      if not (a.evidence_type =ˢ "command_event")
      then (
        result a AcceptanceStatus.untrusted none,
        issue "unsupported_evidence_type"
              ("acceptance " <> (a.id <> (" uses unsupported evidence type " <> a.evidence_type)))
              false
            ∷ [],
      )
      else judge_candidate r a (last_finished r a)
