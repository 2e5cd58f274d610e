-- ===== src/Tests/Gateways.antt =====
-- A capability that writes, authorized for the task of the examples with an approval.
use adaptive_harness.Prelude.{String, ◌≡◌, refl, inl, inr, true, false, [], ◌∷◌, Option, pos, ok}
use adaptive_harness.Paths.{parse_path, is_relative_to, join_path}
use adaptive_harness.Store.{TaskRecord, write}
use adaptive_harness.Store.History.{with_event}
use adaptive_harness.Store.Progress.{next_event}
use adaptive_harness.Gateway.{
  NetworkAccess, SideEffect, ExecutionEnvironment, Capability, ScopedApproval, default_policy,
  approval_matches, authorize, authorization_data,
}
use adaptive_harness.Gateway.Rules.{BelowLimits, command_of}
use adaptive_harness.Gateway.Complete.{authorize_total}
use adaptive_harness.Tests.Data.{digest, created, created_files, envelope, capability, snapshot}
use adaptive_harness.Tests.Scenario.{created_loads}

abbrev writing : Capability
writing = record capability {
  write_paths = "src/build" ∷ [];
  side_effects = SideEffect.filesystem_write ∷ [];
}

abbrev approval : ScopedApproval
approval = record {
  id = "a1";
  task_id = "t1";
  capability_id = "run-tests";
  base_sha = snapshot.base_sha;
  worktree_path = snapshot.worktree_path;
  read_paths = "." ∷ [];
  write_paths = "src/build" ∷ [];
  side_effects = SideEffect.filesystem_write ∷ [];
  network = NetworkAccess.none;
  listener = false;
  environment = ExecutionEnvironment.test;
  max_uses = pos 1;
  expires_at = 12;
}

matches : approval_matches 5 created writing snapshot approval ≡ true
unfolding approval_matches adaptive_harness.Gateway.records_text adaptive_harness.Json.value_eq
matches = refl

below : is_relative_to (parse_path "src/build") (parse_path "src") ≡ true
unfolding parse_path
below = refl

limits : BelowLimits created writing
unfolding adaptive_harness.Gateway.records_text adaptive_harness.Json.value_eq
limits = record { executions = refl; attempts = refl; commands = refl }

abbrev authorized : Option String → TaskRecord
authorized approval_id = with_event created created.state (
    next_event "day 2" created "command.authorized"
      (authorization_data envelope writing (join_path snapshot.worktree_path ".") approval_id))

authorize_total_example :
    (approval_id : Option String) × (authorize digest
        (λ p. p)
        (writing ∷ [])
        default_policy
        "day 2"
        5
        snapshot
        created_files
        "t1"
        "run-tests"
        (approval ∷ [])
      ≡ ok (
        command_of "t1" writing (join_path snapshot.worktree_path ".") approval_id 2,
        write digest created_files "t1" (authorized approval_id),
      ))
authorize_total_example =
    authorize_total digest (λ p. p) (writing ∷ []) default_policy "day 2" 5 snapshot created_files
      "t1" "run-tests" (approval ∷ []) created writing created_loads refl refl refl refl
      (record { repository_id = refl; base_sha = refl; worktree_path = refl })
      (("src", inl refl, below), tt)
      (record {
        id = refl;
        declaration = refl;
        network = refl;
        listener = refl;
        environment = refl;
      })
      limits (inr (approval, inl refl, matches))
