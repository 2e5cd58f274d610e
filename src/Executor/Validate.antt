-- ===== src/Executor/Validate.antt =====
-- The checks on an authorization before it is executed.
use adaptive_harness.Prelude.{
  ℕ, ◌-◌, ◌+◌, String, Bool, false, not, ◌&&◌, ◌||◌, List, Option, none, some, ltb, ◌=ˢ◌, any,
  count_if, get_elem?, length, pos, Result, execution_rejected, guard, ◌>>◌,
}
use adaptive_harness.Paths.{same_path, show_path}
use adaptive_harness.Json.{str, num, strs, nums, str_or_null, get, value_eq}
use adaptive_harness.Envelope.{TaskEnvelope}
use adaptive_harness.Store.{TaskEvent, TaskRecord}
use adaptive_harness.Gateway.{WorkspaceSnapshot, AuthorizedCommand, records_text}

-- `event.type == type and event.data.get(key) == value` for an integer
unfoldable pub records_number : String → String → ℕ → TaskEvent → Bool
unfolding value_eq
records_number type key n ev = ev.type =ˢ type && value_eq (get ev.payload key) (num (pos n))

abbrev pub same_workspace : TaskEnvelope → WorkspaceSnapshot → Bool
same_workspace e snapshot = not (
    not (snapshot.repository_id =ˢ e.repository_id)
    || not (snapshot.base_sha =ˢ e.base_sha)
    || not (same_path snapshot.worktree_path e.worktree_path))

-- `_validate_workspace`
unfoldable pub validate_workspace : TaskEnvelope → WorkspaceSnapshot → Result (Unit {0})
validate_workspace e snapshot = guard (same_workspace e snapshot) execution_rejected

-- `_event_matches_authorization`
unfoldable pub event_matches_authorization : TaskEvent → AuthorizedCommand → Bool
unfolding value_eq
event_matches_authorization ev a =
    ev.type =ˢ "command.authorized"
    && value_eq (get ev.payload "capability_id") (str a.capability_id)
    && value_eq (get ev.payload "argv") (strs a.argv)
    && value_eq (get ev.payload "cwd") (str (show_path a.cwd))
    && value_eq (get ev.payload "timeout_seconds") (num a.timeout_seconds)
    && value_eq (get ev.payload "approval_id") (str_or_null a.approval_id)
    && value_eq (get ev.payload "stop_on_exit_codes") (nums a.stop_on_exit_codes)

-- The event of that number in the list was started.
abbrev pub was_started : ℕ → List TaskEvent → Bool
was_started sequence events =
    any (records_number "command.started" "authorization_event_sequence" sequence) events

abbrev found_matches : Option TaskEvent → AuthorizedCommand → Bool
found_matches none a = false
found_matches (some ev) a = event_matches_authorization ev a

-- `_validate_authorization`
unfoldable pub validate_authorization : TaskRecord → AuthorizedCommand → Result (Unit {0})
validate_authorization r a = do
  guard
      (not (
        ltb a.authorization_event_sequence 1
        || ltb (length r.events) a.authorization_event_sequence))
      execution_rejected
  guard (found_matches (get_elem? r.events (a.authorization_event_sequence - 1)) a)
      execution_rejected
  guard (not (was_started a.authorization_event_sequence r.events)) execution_rejected

-- The attempt's number: one more than the capability was started before.
abbrev pub next_attempt : TaskRecord → AuthorizedCommand → ℕ
next_attempt r a =
    1 + count_if (records_text "command.started" "capability_id" a.capability_id) r.events
