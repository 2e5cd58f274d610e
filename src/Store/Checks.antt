-- ===== src/Store/Checks.antt =====
-- What the constructors of `TaskEvent` and `TaskRecord` check.
use adaptive_harness.Prelude.{
  ℕ, suc, String, Bool, true, not, ◌&&◌, List, [], ◌∷◌, map, leb, ◌==◌, ◌=ˢ◌, all, subset,
  same_list, if◌then◌else◌, Result, ok, err, record_corrupted,
}
use adaptive_harness.Paths.{same_path}
use adaptive_harness.Json.{Fields}
use adaptive_harness.Envelope.{TaskEnvelope, required_ids}
use adaptive_harness.Store.Defs.{TaskEvent, TaskRecord, envelope_revisions}

abbrev pub record_schema_version : String
record_schema_version = "1.0"

abbrev pub valid_event : TaskEvent → Bool
valid_event ev = leb 1 ev.sequence && not (ev.type =ˢ "") && not (ev.occurred_at =ˢ "")

-- `_new_event`, at the time `now`
unfoldable pub new_event : String → ℕ → String → Fields → Result TaskEvent
new_event now sequence type payload =
    let ev : TaskEvent = record {
      sequence = sequence;
      type = type;
      occurred_at = now;
      payload = payload;
    } in
    if valid_event ev then ok ev else err record_corrupted

-- `numbers == list(range(n, n + len(numbers)))`
abbrev pub numbered_from : ℕ → List ℕ → Bool
numbered_from n [] = true
numbered_from n (x ∷ xs) = x == n && numbered_from (suc n) xs

-- The test holds of every two neighbours, the first of them given.
abbrev pub all_pairs {ℓ} : {A : Type ℓ} → (A → A → Bool) → A → List A → Bool
all_pairs test x [] = true
all_pairs test x (y ∷ ys) = test x y && all_pairs test y ys

-- The values of `immutable_fields` are equal.
unfoldable pub same_immutables : TaskEnvelope → TaskEnvelope → Bool
same_immutables first e =
    e.schema_version =ˢ first.schema_version
    && e.repository_id =ˢ first.repository_id
    && e.base_sha =ˢ first.base_sha
    && same_path e.worktree_path first.worktree_path
    && same_list e.initial_dirty_state first.initial_dirty_state
    && e.harness_version =ˢ first.harness_version
    && e.config_version =ˢ first.config_version

-- No required acceptance, requested capability or allowed path is lost.
unfoldable pub only_widens : TaskEnvelope → TaskEnvelope → Bool
only_widens previous current =
    subset (required_ids previous.acceptances) (required_ids current.acceptances)
    && subset previous.requested_capabilities current.requested_capabilities
    && subset previous.allowed_scope current.allowed_scope

-- `TaskRecord.__post_init__` raises nothing.
unfoldable pub valid_record : TaskRecord → Bool
valid_record r =
    r.schema_version =ˢ record_schema_version
    && r.task_id =ˢ r.first_envelope.task_id
    && numbered_from 1 (map (λ e. e.revision) (envelope_revisions r))
    && all (λ e. e.task_id =ˢ r.task_id) (envelope_revisions r)
    && all (same_immutables r.first_envelope) r.later_envelopes
    && all_pairs only_widens r.first_envelope r.later_envelopes
    && numbered_from 1 (map (λ ev. ev.sequence) r.events)

-- `TaskRecord(...)`
abbrev pub make_record : TaskRecord → Result TaskRecord
make_record r = if valid_record r then ok r else err record_corrupted
