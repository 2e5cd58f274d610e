-- ===== src/Envelope/Defs.antt =====
-- The records of core/envelope.py.
use adaptive_harness.Prelude.{ℕ, String, Bool, List, Option, ℤ}
use adaptive_harness.Paths.{PosixPath}

pub record Requirement : Type 0 where
  pub id : String
  pub text : String

pub record Acceptance : Type 0 where
  pub id : String
  pub required : Bool
  pub covers : List String
  pub command_id : String
  pub expected_exit_code : ℤ
  pub timeout_seconds : ℤ
  pub retry_budget : ℤ
  pub evidence_type : String

-- `int | float`; a float is `n / 2 ^ k` (infinities and NaN are not modelled).
pub data Number : Type 0 where
  int : ℤ → Number
  dyadic : ℤ → ℕ → Number

pub record TaskEnvelope : Type 0 where
  pub schema_version : String
  pub task_id : String
  pub repository_id : String
  pub base_sha : String
  pub worktree_path : PosixPath
  pub initial_dirty_state : List String
  pub harness_version : String
  pub config_version : String
  pub goal : String
  pub non_goals : List String
  pub requirements : List Requirement
  pub allowed_scope : List String
  pub acceptances : List Acceptance
  pub requested_capabilities : List String
  pub timeout_seconds : ℤ
  pub retry_budget : ℤ
  pub budget : List (String × Number)
  pub integration_mode : String
  pub revision : ℕ

-- The keyword arguments of `TaskEnvelope.amend`. `other_fields` names those given that are not
-- fields or that no amendment may touch.
pub record Changes : Type 0 where
  pub other_fields : List String
  pub base_sha : Option String
  pub worktree_path : Option PosixPath
  pub initial_dirty_state : Option (List String)
  pub harness_version : Option String
  pub config_version : Option String
  pub goal : Option String
  pub non_goals : Option (List String)
  pub requirements : Option (List Requirement)
  pub allowed_scope : Option (List String)
  pub acceptances : Option (List Acceptance)
  pub requested_capabilities : Option (List String)
  pub timeout_seconds : Option ℤ
  pub retry_budget : Option ℤ
  pub budget : Option (List (String × Number))
  pub integration_mode : Option String
