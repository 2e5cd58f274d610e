-- ===== src/Envelope/Checks.antt =====
-- What `__post_init__` of `Requirement`, `Acceptance` and `TaskEnvelope` checks.
use adaptive_harness.Prelude.{
  ℕ, String, Bool, true, false, not, ◌&&◌, ◌||◌, List, [], ◌∷◌, map, Option, none, some, leb, ◌==◌,
  ◌=ˢ◌, all, length, codes, contains, is_blank, is_nodup, if◌then◌else◌, is_positive, is_natural,
  Result, ok, err, envelope_invariant,
}
use adaptive_harness.Paths.{is_absolute}
use adaptive_harness.Envelope.Defs.{Requirement, Acceptance, TaskEnvelope, Number, int, dyadic}

-- `[A-Za-z0-9]`
abbrev is_word : ℕ → Bool
is_word c = leb b'a' c && leb c b'z' || leb b'A' c && leb c b'Z' || leb b'0' c && leb c b'9'

-- `[A-Za-z0-9._-]`
abbrev is_word_or_mark : ℕ → Bool
is_word_or_mark c = is_word c || c == b'.' || c == b'_' || c == b'-'

abbrev matches_identifier : List ℕ → Bool
matches_identifier [] = false
matches_identifier (c ∷ cs) = is_word c && all is_word_or_mark cs && leb (length cs) 127

-- `_IDENTIFIER.fullmatch`
unfoldable pub is_identifier : String → Bool
is_identifier s = matches_identifier (codes s)

abbrev is_hex : ℕ → Bool
is_hex c = leb b'0' c && leb c b'9' || leb b'a' c && leb c b'f'

-- `_FULL_GIT_SHA.fullmatch`
unfoldable pub is_full_sha : String → Bool
is_full_sha s = all is_hex (codes s) && (length (codes s) == 40 || length (codes s) == 64)

unfoldable pub valid_requirement : Requirement → Bool
valid_requirement r = is_identifier r.id && not (is_blank r.text)

abbrev pub is_nil {ℓ} : {A : Type ℓ} → List A → Bool
is_nil [] = true
is_nil (x ∷ xs) = false

unfoldable pub valid_acceptance : Acceptance → Bool
valid_acceptance a =
    is_identifier a.id
    && is_identifier a.command_id
    && not (is_nil a.covers)
    && all is_identifier a.covers
    && is_nodup a.covers
    && is_positive a.timeout_seconds
    && is_natural a.retry_budget
    && not (is_blank a.evidence_type)

abbrev pub requirement_ids : TaskEnvelope → List String
requirement_ids e = map (λ r. r.id) e.requirements

abbrev pub acceptance_ids : TaskEnvelope → List String
acceptance_ids e = map (λ a. a.id) e.acceptances

-- `budget_value >= 0`
abbrev not_negative : Number → Bool
not_negative (int z) = is_natural z
not_negative (dyadic z k) = is_natural z

-- `budget.get("max_commands")`
abbrev lookup : String → List (String × Number) → Option Number
lookup k [] = none
lookup k ((j, v) ∷ d) = if j =ˢ k then some v else lookup k d

abbrev pub max_commands : TaskEnvelope → Option Number
max_commands e = lookup "max_commands" e.budget

abbrev positive_integer : Option Number → Bool
positive_integer none = true
positive_integer (some (int z)) = is_positive z
positive_integer (some (dyadic z k)) = false

abbrev valid_budget : TaskEnvelope → Bool
valid_budget e =
    all (λ (k, v). not (k =ˢ "") && not_negative v) e.budget && positive_integer (max_commands e)

-- The checks on the parts that name one another.
abbrev valid_references : TaskEnvelope → Bool
valid_references e =
    is_nodup (requirement_ids e)
    && is_nodup (acceptance_ids e)
    && is_nodup e.allowed_scope
    && is_nodup e.requested_capabilities
    && all is_identifier e.requested_capabilities
    && all (λ a. all (contains (requirement_ids e)) a.covers) e.acceptances

-- `TaskEnvelope.__post_init__` raises nothing. An object is an instance of `Requirement` or of
-- `Acceptance` when its own constructor raised nothing.
unfoldable pub valid_envelope : TaskEnvelope → Bool
valid_envelope e =
    not (is_blank e.schema_version)
    && not (is_blank e.harness_version)
    && not (is_blank e.config_version)
    && is_identifier e.task_id
    && is_identifier e.repository_id
    && is_full_sha e.base_sha
    && is_absolute e.worktree_path
    && not (is_blank e.goal)
    && not (is_nil e.requirements)
    && all valid_requirement e.requirements
    && not (is_nil e.allowed_scope)
    && all (λ s. not (s =ˢ "")) e.allowed_scope
    && not (is_nil e.acceptances)
    && all valid_acceptance e.acceptances
    && is_positive e.timeout_seconds
    && is_natural e.retry_budget
    && (e.integration_mode =ˢ "observe" || e.integration_mode =ˢ "enforced")
    && leb 1 e.revision
    && valid_references e
    && valid_budget e

-- `TaskEnvelope(...)`
abbrev pub make_envelope : TaskEnvelope → Result TaskEnvelope
make_envelope e = if valid_envelope e then ok e else err envelope_invariant
