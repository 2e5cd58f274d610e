-- ===== src/Tests/Tasks.antt =====
-- The theorems on envelopes, records and the completion gate, at the task of the examples.
use adaptive_harness.Prelude.{
  String, ◌≡◌, refl, inl, inr, ◌&&◌, if◌then◌else◌, List, [], ◌∷◌, none, pos, ok, err, true, false,
  In, any, envelope_invariant,
}
use adaptive_harness.Json.{Value, end, field, num, value_eq}
use adaptive_harness.Envelope.{
  TaskEnvelope, Acceptance, Changes, valid_envelope, amendable, apply_changes,
}
use adaptive_harness.Envelope
use adaptive_harness.Envelope.Monotone.{Extends, amend-Extends, amend_exact}
use adaptive_harness.Store.{
  TaskEvent, TaskState, TaskRecord, current_envelope, load, write, amend, append_event,
}
use adaptive_harness.Store.History.{Later, with_event, with_envelope}
use adaptive_harness.Store.Commits.{Next}
use adaptive_harness.Store.Progress.{next_event, append_event_total, store_amend_exact}
use adaptive_harness.Store.Traces.{
  StoreCall, call_amend, call_append_event, call_cancel, run_calls, history_append_only,
  terminal_frozen,
}
use adaptive_harness.Gateway.{authorization_data}
use adaptive_harness.Executor.{same_workspace, started_data}
use adaptive_harness.Verifier.{
  path_allowed, elements, declared_effects, unapproved, authorization_sequence, finished_sequences,
  covering, verify_acceptance, verification_data,
}
use adaptive_harness.Verifier.Evidence.{Evidence}
use adaptive_harness.Verifier.Gate.{
  completed_workspace, completed_scope, completed_commands, completed_approvals, completed-Evidence,
  completed_requirements, completed_record,
}
use adaptive_harness.Tests.Data.{
  digest, envelope, widened, acceptance, created, created_files, artifact_root, finished,
  finished_files, facts, report, completed_files, completed, authorized, command, capability,
}
use adaptive_harness.Tests.Scenario.{
  created_loads, finished_loads, completed_loads, verifies, amends,
}

amend-Extends_example :
    Extends envelope (apply_changes envelope widened)
    × (valid_envelope (apply_changes envelope widened) ≡ true)
    × ((apply_changes envelope widened).revision ≡ 2)
amend-Extends_example = amend-Extends envelope widened amends

amend_exact_example : Envelope.amend envelope widened ≡ (
    if amendable envelope widened && valid_envelope (apply_changes envelope widened)
    then ok (apply_changes envelope widened)
    else err envelope_invariant)
amend_exact_example = amend_exact envelope widened

abbrev calls : List (String × StoreCall)
calls =
    ("day 2", call_amend "t1" widened)
    ∷ ("day 3", call_append_event "t1" "note" end)
    ∷ ("day 4", call_cancel "t1" "no longer needed")
    ∷ []

history_append_only_example :
    (r' : TaskRecord) × (load digest (run_calls digest created_files calls) "t1" ≡ ok r')
    × Later created r'
history_append_only_example =
    history_append_only digest created_files calls "t1" created created_loads

terminal_frozen_example : load digest (run_calls digest completed_files calls) "t1" ≡ ok completed
terminal_frozen_example =
    terminal_frozen digest completed_files calls "t1" completed completed_loads refl

append_event_total_example :
    let r' = with_event created created.state (next_event "day 2" created "note" end) in
    append_event digest "day 2" created_files "t1" "note" end
    ≡ ok (r', write digest created_files "t1" r')
append_event_total_example =
    append_event_total digest "day 2" created_files "t1" created created_loads refl "note" end refl
      refl

store_amend_exact_example :
    let e = apply_changes (current_envelope created) widened in
    let ev =
      next_event "day 2" created "task.amended" (field "revision" (num (pos e.revision)) end) in
    amend digest "day 2" created_files "t1" widened ≡ (
      if amendable (current_envelope created) widened && valid_envelope e
      then ok
          (with_envelope created e ev, write digest created_files "t1" (with_envelope created e ev))
      else err envelope_invariant)
store_amend_exact_example =
    store_amend_exact digest "day 2" created_files "t1" created created_loads refl widened refl

completed_workspace_example : same_workspace envelope facts.snapshot ≡ true
completed_workspace_example =
    completed_workspace facts artifact_root [] digest finished_files "t1" false none finished
      finished_loads verifies refl

completed_scope_example : path_allowed envelope "src/a.py" ≡ true
completed_scope_example =
    completed_scope facts artifact_root [] digest finished_files "t1" false none finished
      finished_loads verifies refl "src/a.py" (inl refl)

-- The start event and the authorization event of the finished record.
abbrev start : TaskEvent
start = next_event "day 3" authorized "command.started" (started_data command 1)

abbrev authorization : TaskEvent
authorization =
    next_event "day 2" created "command.authorized"
      (authorization_data envelope capability envelope.worktree_path none)

completed_commands_example :
    any (value_eq (authorization_sequence start)) (finished_sequences finished.events) ≡ true
completed_commands_example =
    completed_commands facts artifact_root [] digest finished_files "t1" false none finished
      finished_loads verifies refl start (inr (inr (inl refl))) refl

completed_approvals_example :
    (effects : List Value) × (elements (declared_effects authorization.payload) ≡ ok effects)
    × (unapproved authorization effects ≡ false)
completed_approvals_example =
    completed_approvals facts artifact_root [] digest finished_files "t1" false none finished
      finished_loads verifies refl authorization (inr (inl refl)) refl

completed-Evidence_example :
    (ev : TaskEvent) × Evidence facts artifact_root [] finished acceptance ev
completed-Evidence_example =
    completed-Evidence facts artifact_root [] digest finished_files "t1" false none finished
      finished_loads verifies refl acceptance (inl refl) refl

completed_requirements_example :
    (a b : Acceptance) × In a (covering envelope (record { id = "r1"; text = "it works" }))
    × In b envelope.acceptances
    × ((verify_acceptance facts artifact_root [] finished b).0.acceptance_id ≡ a.id)
    × ((ev : TaskEvent) × Evidence facts artifact_root [] finished b ev)
completed_requirements_example =
    completed_requirements facts artifact_root [] digest finished_files "t1" false none finished
      finished_loads verifies refl (record { id = "r1"; text = "it works" }) (inl refl)

completed_record_example :
    (ev : TaskEvent) × Next finished "task.completed" (verification_data report) ev
    × (load digest completed_files "t1" ≡ ok (with_event finished TaskState.completed ev))
completed_record_example =
    completed_record facts artifact_root [] digest finished_files "t1" false none finished
      finished_loads verifies refl
