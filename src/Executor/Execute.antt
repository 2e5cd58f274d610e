-- ===== src/Executor/Execute.antt =====
-- `Executor.execute`: validation, the workspace lease, the start event, the run, and the evidence.
use Prim.Native.String.{◌++◌ as ◌<>◌}
use adaptive_harness.Prelude.{
  ℕ, String, Bool, true, false, ◌||◌, List, Option, none, some, ◌=ˢ◌, ◌=ℤ◌, ℤ, pos, if◌then◌else◌,
  Result, ok, err, execution_rejected, lease_conflict, os_error, guard, ◌>>=◌, ◌>>◌,
}
use adaptive_harness.Paths.{PosixPath, same_path, join_path, show_path}
use adaptive_harness.Json.{Fields, end, field, str, num, bool, num_or_null}
use adaptive_harness.Store.{TaskRecord, Files, current_envelope, load, append_event}
use adaptive_harness.Gateway.{AuthorizedCommand}
use adaptive_harness.Executor.Defs.{
  ExecutionLimits, Status, status_name, CommandResult, Launch, os_error as popen_error, process,
  Kind, Host, World,
}
use adaptive_harness.Executor.Validate.{validate_workspace, validate_authorization, next_attempt}
use adaptive_harness.Executor.Capture.{CaptureState, capture_start, capture}
use adaptive_harness.Executor.Output.{Codec, redact, redact_and_limit, take_chars, decimal}
use adaptive_harness.Executor.Sandbox.{sandbox_command}

-- A component of the artifact path: made, or found to be a directory.
abbrev usable : Kind → Result (Unit {0})
usable Kind.absent = ok tt
usable Kind.directory = ok tt
usable Kind.symlink = err execution_rejected
usable Kind.file = err execution_rejected

-- The root: `mkdir(exist_ok=True)` itself raises where a file stands.
abbrev usable_root : Kind → Result (Unit {0})
usable_root Kind.absent = ok tt
usable_root Kind.directory = ok tt
usable_root Kind.symlink = err execution_rejected
usable_root Kind.file = err os_error

abbrev is_absent : Kind → Bool
is_absent Kind.absent = true
is_absent _ = false

-- `_create_artifact_directory`: the new directory's path
unfoldable pub create_artifact_directory : Host → PosixPath → String → ℕ → ℕ → Result PosixPath
create_artifact_directory host artifact_root task_id sequence attempt = do
  usable_root (host.kind artifact_root)
  let task_directory = join_path artifact_root task_id
  usable (host.kind task_directory)
  let commands = join_path task_directory "commands"
  usable (host.kind commands)
  let artifact_dir = join_path commands (decimal sequence <> ("-" <> decimal attempt))
  guard (is_absent (host.kind artifact_dir)) execution_rejected
  ok artifact_dir

-- `path.write_text(text)`
abbrev write_text : PosixPath → String → World → World
write_text path text w = record w {
  artifacts = λ q. if same_path path q then some text else w.artifacts q;
}

-- The status of a process that ended, from what stopped it.
unfoldable pub status_of : CaptureState → Bool → ℤ → Status
status_of s output_truncated returncode =
    if s.cancelled
    then Status.cancelled
    else if s.timed_out
    then Status.timed_out
    else if output_truncated
    then Status.output_limit_exceeded
    else if returncode =ℤ pos 0
    then Status.succeeded
    else Status.command_failure

-- What `_finish` is called with.
pub record Outcome : Type 0 where
  pub status : Status
  pub exit_code : Option ℤ
  pub timed_out : Bool
  pub cancelled : Bool
  pub output_truncated : Bool
  pub stdout_text : String
  pub stderr_text : String

-- `_run` up to the call of `_finish`: what is written to the artifacts and reported
unfoldable pub outcome_of : Codec → ExecutionLimits → List String → Launch → Outcome
outcome_of codec limits secrets (popen_error message) = record {
  status = Status.environment_failure;
  exit_code = none;
  timed_out = false;
  cancelled = false;
  output_truncated = false;
  stdout_text = "";
  stderr_text = redact secrets message <> "\n";
}
outcome_of codec limits secrets (process rounds returncode) =
    let s = capture limits.max_output_bytes capture_start rounds in
    let (stdout_text, stderr_text, redaction_truncated) =
      redact_and_limit codec secrets limits.max_output_bytes s.stdout s.stderr in
    let output_truncated = s.output_truncated || redaction_truncated in
    record {
      status = status_of s output_truncated returncode;
      exit_code = some returncode;
      timed_out = s.timed_out;
      cancelled = s.cancelled;
      output_truncated = output_truncated;
      stdout_text = stdout_text;
      stderr_text = stderr_text;
    }

-- The data of the `command.started` event.
abbrev pub started_data : AuthorizedCommand → ℕ → Fields
started_data a attempt =
    field "authorization_event_sequence" (num (pos a.authorization_event_sequence))
      (field "capability_id" (str a.capability_id) (field "attempt" (num (pos attempt)) end))

-- The data of the `command.finished` event.
abbrev pub finished_data :
    ExecutionLimits → AuthorizedCommand → ℕ → Bool → PosixPath → PosixPath → Outcome → Fields
finished_data limits a attempt sandbox_enforced stdout_artifact stderr_artifact o =
    field "producer" (str "adaptive_harness.executor") (
      field "authorization_event_sequence" (num (pos a.authorization_event_sequence)) (
        field "capability_id" (str a.capability_id) (
          field "attempt" (num (pos attempt)) (
            field "status" (str (status_name o.status)) (
              field "exit_code" (num_or_null o.exit_code) (
                field "timed_out" (bool o.timed_out) (
                  field "cancelled" (bool o.cancelled) (
                    field "output_truncated" (bool o.output_truncated) (
                      field "sandbox_enforced" (bool sandbox_enforced) (
                        field "stdout_artifact" (str (show_path stdout_artifact)) (
                          field "stderr_artifact" (str (show_path stderr_artifact)) (
                            field "stdout_summary"
                              (str (take_chars limits.summary_characters o.stdout_text))
                              (field "stderr_summary"
                                (str (take_chars limits.summary_characters o.stderr_text))
                                end)))))))))))))

abbrev pub result_of : AuthorizedCommand → ℕ → PosixPath → PosixPath → Outcome → CommandResult
result_of a attempt stdout_artifact stderr_artifact o = record {
  task_id = a.task_id;
  capability_id = a.capability_id;
  status = o.status;
  exit_code = o.exit_code;
  timed_out = o.timed_out;
  cancelled = o.cancelled;
  output_truncated = o.output_truncated;
  stdout_artifact = stdout_artifact;
  stderr_artifact = stderr_artifact;
  authorization_event_sequence = a.authorization_event_sequence;
  attempt = attempt;
}

-- Go on with the files that an operation on the store wrote, or stop at its exception.
abbrev pub then_with :
    {A : Type 0}
    → World
    → (Files → World × Result A)
    → Result (TaskRecord × Files)
    → World × Result A
then_with w next (ok (r, records)) = next records
then_with w next (err e) = (w, err e)

-- What is settled before the start event is written.
pub record Prepared : Type 0 where
  pub attempt : ℕ
  pub sandbox_enforced : Bool
  pub command : List String
  pub artifact_dir : PosixPath

-- The sandboxed command where the task is enforced, and the plain one otherwise.
abbrev pub command_for : Host → Bool → AuthorizedCommand → Result (List String)
command_for host true a = sandbox_command host a
command_for host false a = ok a.argv

module _ (digest : TaskRecord → String) (codec : Codec) (limits : ExecutionLimits)
    (secrets : List String) (artifact_root : PosixPath) (host : Host) where
  -- `execute` up to the start event. `before` are the records when it is called, and `records` once
  -- the lease is held.
  unfoldable pub prepare : Files → Files → AuthorizedCommand → Result Prepared
  prepare before records a = do
    r₀ ← load digest before a.task_id
    validate_workspace (current_envelope r₀) host.snapshot
    validate_authorization r₀ a
    guard host.lease_free lease_conflict
    r ← load digest records a.task_id
    validate_workspace (current_envelope r) host.locked_snapshot
    validate_authorization r a
    let enforced = (current_envelope r).integration_mode =ˢ "enforced"
    command ← command_for host enforced a
    artifact_dir ←
        create_artifact_directory host artifact_root a.task_id a.authorization_event_sequence
          (next_attempt r a)
    ok (record {
      attempt = next_attempt r a;
      sandbox_enforced = enforced;
      command = command;
      artifact_dir = artifact_dir;
    })

  -- `_finish`
  unfoldable pub finish :
      AuthorizedCommand → Prepared → Outcome → World → World × Result CommandResult
  finish a p o w =
      let out = join_path p.artifact_dir "stdout.txt" in
      let errors = join_path p.artifact_dir "stderr.txt" in
      then_with w
        (λ records. (record w { records = records }, ok (result_of a p.attempt out errors o)))
        (append_event digest host.finished_now w.records a.task_id "command.finished"
          (finished_data limits a p.attempt p.sandbox_enforced out errors o))

  -- `_run`: the process, the artifacts, and the finish event
  unfoldable pub run : AuthorizedCommand → Prepared → World → World × Result CommandResult
  run a p w =
      let o = outcome_of codec limits secrets (host.launch p.command) in
      finish a p o (
        write_text (join_path p.artifact_dir "stderr.txt") o.stderr_text
          (write_text (join_path p.artifact_dir "stdout.txt") o.stdout_text w))

  abbrev pub start_and_run :
      AuthorizedCommand → World → Result Prepared → World × Result CommandResult
  start_and_run a w (err e) = (w, err e)
  start_and_run a w (ok p) =
      then_with w (λ records. run a p (record w { records = records }))
        (append_event digest host.started_now w.records a.task_id "command.started"
          (started_data a p.attempt))

  -- What was written before an exception stays written.
  unfoldable pub execute : Files → World → AuthorizedCommand → World × Result CommandResult
  execute before w a = start_and_run a w (prepare before w.records a)
