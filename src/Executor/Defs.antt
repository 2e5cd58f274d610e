-- ===== src/Executor/Defs.antt =====
-- The records of core/executor.py, and what an execution observes of the host.
use adaptive_harness.Prelude.{ℕ, String, Bool, List, Option, ℤ}
use adaptive_harness.Paths.{PosixPath}
use adaptive_harness.Gateway.{WorkspaceSnapshot}
use adaptive_harness.Store.{Files}

-- The two times in seconds, which are only handed to the operating system, are left out.
pub record ExecutionLimits : Type 0 where
  pub max_output_bytes : ℕ
  pub summary_characters : ℕ

-- The texts that `status` takes.
pub data Status : Type 0 where
  environment_failure cancelled timed_out output_limit_exceeded succeeded command_failure : Status

abbrev pub status_name : Status → String
status_name Status.environment_failure = "environment_failure"
status_name Status.cancelled = "cancelled"
status_name Status.timed_out = "timed_out"
status_name Status.output_limit_exceeded = "output_limit_exceeded"
status_name Status.succeeded = "succeeded"
status_name Status.command_failure = "command_failure"

pub record CommandResult : Type 0 where
  pub task_id : String
  pub capability_id : String
  pub status : Status
  pub exit_code : Option ℤ
  pub timed_out : Bool
  pub cancelled : Bool
  pub output_truncated : Bool
  pub stdout_artifact : PosixPath
  pub stderr_artifact : PosixPath
  pub authorization_event_sequence : ℕ
  pub attempt : ℕ

-- The two pipes of a process.
pub data Stream : Type 0 where
  stdout stderr : Stream

-- One read of a ready pipe: its bytes; none at the end of the stream.
pub record Chunk : Type 0 where
  pub stream : Stream
  pub bytes : List ℕ

-- What one round of the capture loop observes: whether cancellation is set, whether the timeout has
-- passed, and the reads of the pipes that `select` found ready.
pub record Round : Type 0 where
  pub cancel_is_set : Bool
  pub deadline_passed : Bool
  pub reads : List Chunk

-- What `subprocess.Popen` leads to: an `OSError`, or a process that is captured for some rounds and
-- ends with a return code.
pub data Launch : Type 0 where
  os_error : String → Launch
  process : List Round → ℤ → Launch

pub data Platform : Type 0 where
  darwin linux other : Platform

pub data Kind : Type 0 where
  absent directory symlink file : Kind

-- The host, as one execution sees it.
pub record Host : Type 0 where
  pub platform : Platform
  pub which : String → Option String  -- `shutil.which`
  pub resolve : PosixPath → PosixPath  -- `Path.resolve`
  pub kind : PosixPath → Kind  -- what stands at a path, links not followed
  pub path_exists : PosixPath → Bool  -- `Path.exists`, links followed
  pub temporary_directory : PosixPath
  pub snapshot : WorkspaceSnapshot
  pub locked_snapshot : WorkspaceSnapshot
  pub lease_free : Bool  -- the lock on the lease file is granted
  pub launch : List String → Launch
  pub started_now : String
  pub finished_now : String

-- The texts of the artifact files.
abbrev pub Artifacts : Type 0
Artifacts = PosixPath → Option String

pub record World : Type 0 where
  pub records : Files
  pub artifacts : Artifacts
