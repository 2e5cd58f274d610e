-- ===== src/Tests/Executions.antt =====
-- The theorems on the gateway and the executor, at the task of the examples.
use adaptive_harness.Prelude.{
  String, ◌≡◌, refl, ◌+◌, suc, length, ltb, List, [], ◌∷◌, Option, pos, ok, err, Error, false,
}
use adaptive_harness.Paths.{join_path}
use adaptive_harness.Json.{end}
use adaptive_harness.Store.{TaskEvent, TaskRecord, current_envelope, load}
use adaptive_harness.Store.History.{with_event}
use adaptive_harness.Store.Commits.{Next}
use adaptive_harness.Store.Traces.{StoreCall, call_append_event, run_calls}
use adaptive_harness.Gateway.{Capability, default_policy, authorization_data}
use adaptive_harness.Gateway.Rules.{Granted, command_of}
use adaptive_harness.Gateway.Sound.{authorize-Granted}
use adaptive_harness.Executor.{
  Prepared, World, Stream, stdout, stderr, Chunk, Round, capture, capture_start, execute,
  started_data, finished_data, outcome_of, result_of, validate_authorization, process,
}
use adaptive_harness.Executor.Recorded.{Ready, execute_recorded}
use adaptive_harness.Executor.Once.{execute_once}
use adaptive_harness.Executor.Handover.{authorize_executable}
use adaptive_harness.Verifier.{check_high_risk_approvals}
use adaptive_harness.Verifier.Authorized.{authorize_approved}
use adaptive_harness.Executor.Bounds.{Orderly, capture_bounded}
use adaptive_harness.Executor.Whole.{bytes_written, capture_truncates, capture_whole}
use adaptive_harness.Tests.Data.{
  digest, codec, created, created_files, capability, snapshot, authorized_files, command, limits,
  artifact_root, host, world, out, errors,
}
use adaptive_harness.Tests.Scenario.{created_loads, authorizes, executes}

abbrev executed : World
executed = (execute digest codec limits [] artifact_root host authorized_files world command).0

abbrev later_calls : List (String × StoreCall)
later_calls = ("day 5", call_append_event "t1" "note" end) ∷ []

abbrev later_world : World
later_world = record executed { records = run_calls digest executed.records later_calls }

execute_once_example :
    (e : Error) × (execute digest codec limits [] artifact_root host later_world.records later_world
        command
      ≡ (later_world, err e))
execute_once_example =
    execute_once digest codec limits [] artifact_root host authorized_files world command executes
      later_calls host later_world.records later_world refl

authorize-Granted_example :
    (r : TaskRecord) × (c : Capability) × (ev : TaskEvent) × (approval_id : Option String) × (load
        digest created_files "t1"
      ≡ ok r)
    × Granted (capability ∷ []) default_policy 0 snapshot "run-tests" [] r c approval_id
    × Next r "command.authorized"
        (authorization_data
          (current_envelope r)
          c
          (join_path snapshot.worktree_path c.cwd)
          approval_id)
        ev
    × (load digest authorized_files "t1" ≡ ok (with_event r r.state ev))
    × (command
        ≡ command_of "t1" c
            (join_path snapshot.worktree_path c.cwd)
            approval_id
            (suc (length r.events)))
authorize-Granted_example =
    authorize-Granted digest (λ p. p) (capability ∷ []) default_policy "day 2" 0 snapshot
      created_files "t1" "run-tests" [] authorizes

authorize_executable_example :
    (r' : TaskRecord) × (load digest authorized_files "t1" ≡ ok r')
    × (validate_authorization r' command ≡ ok tt)
unfolding adaptive_harness.Executor.records_number
authorize_executable_example =
    authorize_executable digest (λ p. p) (capability ∷ []) default_policy "day 2" 0 snapshot
      created_files "t1" "run-tests" [] created created_loads refl authorizes

execute_recorded_example :
    (r : TaskRecord) × (p : Prepared) × (start : TaskEvent) × (finished : TaskEvent) × Ready digest
      codec limits [] artifact_root host authorized_files authorized_files command r p
    × Next r "command.started" (started_data command p.attempt) start
    × Next
        (with_event r r.state start)
        "command.finished"
        (finished_data limits command p.attempt p.sandbox_enforced
          (join_path p.artifact_dir "stdout.txt")
          (join_path p.artifact_dir "stderr.txt")
          (outcome_of codec limits [] (host.launch p.command)))
        finished
    × (load digest executed.records "t1"
        ≡ ok (with_event (with_event r r.state start) r.state finished))
    × (result_of command 1 out errors (outcome_of codec limits [] (process [] (pos 0)))
        ≡ result_of command p.attempt
            (join_path p.artifact_dir "stdout.txt")
            (join_path p.artifact_dir "stderr.txt")
            (outcome_of codec limits [] (host.launch p.command)))
execute_recorded_example =
    execute_recorded digest codec limits [] artifact_root host authorized_files world command
      executes

-- Two rounds of output: three bytes on one pipe, then one on the other.
abbrev rounds : List Round
rounds =
    record {
      cancel_is_set = false;
      deadline_passed = false;
      reads = record { stream = stdout; bytes = 1 ∷ 2 ∷ 3 ∷ [] } ∷ [];
    }
    ∷ record {
      cancel_is_set = false;
      deadline_passed = false;
      reads = record { stream = stderr; bytes = 4 ∷ [] } ∷ [];
    }
    ∷ []

capture_bounded_example : Orderly 2 (capture 2 capture_start rounds)
capture_bounded_example = capture_bounded 2 rounds

capture_truncates_example :
    (capture 2 capture_start rounds).output_truncated
    ≡ ltb 2 (length (bytes_written stdout rounds) + length (bytes_written stderr rounds))
capture_truncates_example = capture_truncates 2 rounds

capture_whole_example :
    ((capture 9 capture_start rounds).stdout ≡ bytes_written stdout rounds)
    × ((capture 9 capture_start rounds).stderr ≡ bytes_written stderr rounds)
unfolding adaptive_harness.Executor.capture adaptive_harness.Executor.capture_round
    adaptive_harness.Executor.read_chunks adaptive_harness.Executor.read_chunk
    adaptive_harness.Executor.check_cancelled adaptive_harness.Executor.check_deadline
capture_whole_example = capture_whole 9 rounds refl

authorize_approved_example :
    (r' : TaskRecord) × (load digest authorized_files "t1" ≡ ok r')
    × (check_high_risk_approvals r'.events ≡ ok [])
unfolding adaptive_harness.Verifier.check_high_risk_approvals
authorize_approved_example =
    authorize_approved digest (λ p. p) (capability ∷ []) default_policy "day 2" 0 snapshot
      created_files "t1" "run-tests" [] created created_loads refl authorizes
