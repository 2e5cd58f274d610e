-- ===== src/Verifier/Defs.antt =====
-- The records of core/verifier.py, and what a verification observes of the host.
use adaptive_harness.Prelude.{ℕ, String, Bool, List, Option}
use adaptive_harness.Paths.{PosixPath}
use adaptive_harness.Gateway.{WorkspaceSnapshot}

pub record VerificationIssue : Type 0 where
  pub code : String
  pub message : String
  pub waivable : Bool

pub data AcceptanceStatus : Type 0 where
  untrusted missing stale failed passed : AcceptanceStatus

abbrev pub acceptance_status_name : AcceptanceStatus → String
acceptance_status_name AcceptanceStatus.untrusted = "untrusted"
acceptance_status_name AcceptanceStatus.missing = "missing"
acceptance_status_name AcceptanceStatus.stale = "stale"
acceptance_status_name AcceptanceStatus.failed = "failed"
acceptance_status_name AcceptanceStatus.passed = "passed"

pub record AcceptanceResult : Type 0 where
  pub acceptance_id : String
  pub status : AcceptanceStatus
  pub evidence_event_sequence : Option ℕ

pub data GateOutcome : Type 0 where
  rejected completed accepted_with_risk : GateOutcome

pub record VerificationReport : Type 0 where
  pub task_id : String
  pub envelope_revision : ℕ
  pub outcome : GateOutcome
  pub acceptances : List AcceptanceResult
  pub issues : List VerificationIssue
  pub risk_reason : Option String

-- The host, as one verification sees it: the workspace and its diff, the lock on the lease file, and
-- the file system that holds the artifacts.
pub record Facts : Type 0 where
  pub snapshot : WorkspaceSnapshot
  pub diff : List String
  pub lease_free : Bool
  pub resolve : PosixPath → PosixPath  -- `Path.resolve()`
  pub resolve_strict : PosixPath → Option PosixPath  -- `resolve(strict=True)`, if the file is found
  pub is_symlink : PosixPath → Bool
  pub is_file : PosixPath → Bool
  pub read_text : PosixPath → String
  pub now : String
