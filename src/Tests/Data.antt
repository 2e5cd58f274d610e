-- ===== src/Tests/Data.antt =====
-- One small task, from its creation to its completion, as data for the examples.
use adaptive_harness.Prelude.{String, true, false, [], ◌∷◌, none, some, pos}
use adaptive_harness.Paths.{PosixPath, parse_path}
use adaptive_harness.Json.{end}
use adaptive_harness.Envelope.{Acceptance, TaskEnvelope, Changes}
use adaptive_harness.Store.{TaskState, TaskRecord, Files, write}
use adaptive_harness.Store.History.{with_event}
use adaptive_harness.Store.Progress.{next_event}
use adaptive_harness.Gateway.{
  NetworkAccess, SideEffect, Reversibility, ExecutionEnvironment, ApprovalPolicy, Capability,
  WorkspaceSnapshot, AuthorizedCommand, authorization_data,
}
use adaptive_harness.Gateway.Rules.{command_of}
use adaptive_harness.Executor.{
  ExecutionLimits, Codec, process, Platform, Kind, Host, World, started_data, finished_data,
  outcome_of,
}
use adaptive_harness.Verifier.{
  Facts, VerificationReport, AcceptanceStatus, GateOutcome, verification_data,
}

-- A digest and a codec that are not those of the program, to run it on.
abbrev pub digest : TaskRecord → String
digest r = r.task_id

abbrev pub codec : Codec
codec = record { encode = λ s. []; decode = λ bytes. ""; decode_ignore = λ bytes. "" }

abbrev pub acceptance : Acceptance
acceptance = record {
  id = "tests-pass";
  required = true;
  covers = "r1" ∷ [];
  command_id = "run-tests";
  expected_exit_code = pos 0;
  timeout_seconds = pos 60;
  retry_budget = pos 1;
  evidence_type = "command_event";
}

abbrev pub envelope : TaskEnvelope
envelope = record {
  schema_version = "1.0";
  task_id = "t1";
  repository_id = "git-1";
  base_sha = "0123456789abcdef0123456789abcdef01234567";
  worktree_path = record { root = adaptive_harness.Paths.single; parts = "repo" ∷ [] };
  initial_dirty_state = [];
  harness_version = "1.0";
  config_version = "1.0";
  goal = "fix it";
  non_goals = [];
  requirements = record { id = "r1"; text = "it works" } ∷ [];
  allowed_scope = "src" ∷ [];
  acceptances = acceptance ∷ [];
  requested_capabilities = "run-tests" ∷ [];
  timeout_seconds = pos 600;
  retry_budget = pos 1;
  budget = [];
  integration_mode = "observe";
  revision = 1;
}

abbrev pub widened : Changes
widened = record {
  other_fields = [];
  base_sha = none;
  worktree_path = none;
  initial_dirty_state = none;
  harness_version = none;
  config_version = none;
  goal = none;
  non_goals = none;
  requirements = none;
  allowed_scope = some ("src" ∷ "docs" ∷ []);
  acceptances = none;
  requested_capabilities = none;
  timeout_seconds = none;
  retry_budget = none;
  budget = none;
  integration_mode = none;
}

abbrev pub created : TaskRecord
created = record {
  schema_version = "1.0";
  task_id = "t1";
  state = TaskState.draft;
  first_envelope = envelope;
  later_envelopes = [];
  events =
      record { sequence = 1; type = "task.created"; occurred_at = "day 1"; payload = end } ∷ [];
}

abbrev pub no_files : Files
no_files id = none

abbrev pub created_files : Files
created_files = write digest no_files "t1" created

abbrev pub capability : Capability
capability = record {
  id = "run-tests";
  argv = "pytest" ∷ [];
  cwd = ".";
  timeout_seconds = pos 60;
  read_paths = "." ∷ [];
  write_paths = [];
  network = NetworkAccess.none;
  listener = false;
  side_effects = SideEffect.filesystem_read ∷ [];
  reversibility = Reversibility.reversible;
  environment = ExecutionEnvironment.test;
  approval_policy = ApprovalPolicy.auto;
  max_executions = pos 3;
  stop_on_exit_codes = [];
}

abbrev pub snapshot : WorkspaceSnapshot
snapshot = record {
  repository_id = "git-1";
  base_sha = "0123456789abcdef0123456789abcdef01234567";
  worktree_path = envelope.worktree_path;
}

abbrev pub authorized : TaskRecord
authorized = with_event created TaskState.draft (
    next_event "day 2" created "command.authorized"
      (authorization_data envelope capability envelope.worktree_path none))

abbrev pub authorized_files : Files
authorized_files = write digest created_files "t1" authorized

abbrev pub command : AuthorizedCommand
command = command_of "t1" capability envelope.worktree_path none 2

abbrev pub limits : ExecutionLimits
limits = record { max_output_bytes = 100; summary_characters = 10 }

abbrev pub artifact_root : PosixPath
artifact_root = record { root = adaptive_harness.Paths.single; parts = "artifacts" ∷ [] }

abbrev pub host : Host
host = record {
  platform = Platform.linux;
  which = λ s. none;
  resolve = λ p. p;
  kind = λ p. Kind.absent;
  path_exists = λ p. true;
  temporary_directory = artifact_root;
  snapshot = snapshot;
  locked_snapshot = snapshot;
  lease_free = true;
  launch = λ argv. process [] (pos 0);
  started_now = "day 3";
  finished_now = "day 4";
}

abbrev pub world : World
world = record { records = authorized_files; artifacts = λ p. none }

abbrev pub started : TaskRecord
started =
    with_event authorized TaskState.draft
      (next_event "day 3" authorized "command.started" (started_data command 1))

abbrev pub out : PosixPath
out = record {
  root = adaptive_harness.Paths.single;
  parts = "artifacts" ∷ "t1" ∷ "commands" ∷ "2-1" ∷ "stdout.txt" ∷ [];
}

abbrev pub errors : PosixPath
errors = record {
  root = adaptive_harness.Paths.single;
  parts = "artifacts" ∷ "t1" ∷ "commands" ∷ "2-1" ∷ "stderr.txt" ∷ [];
}

abbrev pub finished : TaskRecord
finished = with_event started TaskState.draft (
    next_event "day 4" started "command.finished" (
      finished_data limits command 1 false out errors
        (outcome_of codec limits [] (process [] (pos 0)))))

abbrev pub finished_files : Files
finished_files = write digest no_files "t1" finished

abbrev pub facts : Facts
facts = record {
  snapshot = snapshot;
  diff = "src/a.py" ∷ [];
  lease_free = true;
  resolve = λ p. p;
  resolve_strict = λ p. some p;
  is_symlink = λ p. false;
  is_file = λ p. true;
  read_text = λ p. "";
  now = "day 5";
}

abbrev pub report : VerificationReport
report = record {
  task_id = "t1";
  envelope_revision = 1;
  outcome = GateOutcome.completed;
  acceptances =
      record {
        acceptance_id = "tests-pass";
        status = AcceptanceStatus.passed;
        evidence_event_sequence = some 4;
      }
      ∷ [];
  issues = [];
  risk_reason = none;
}

abbrev pub completed : TaskRecord
completed =
    with_event finished TaskState.completed
      (next_event "day 5" finished "task.completed" (verification_data report))

abbrev pub completed_files : Files
completed_files = write digest finished_files "t1" completed
