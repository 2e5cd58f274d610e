-- ===== src/Prelude/Results.antt =====
-- Exceptions as values. One constructor for each exception class of the modelled modules; of the
-- classes that are raised for many reasons, the reason is kept where callers or theorems need it.
use mathlib.Core.Path.{◌≡◌, refl}
use mathlib.Core.Logic.{◌⊎◌, inl, inr}
use mathlib.Core.Bool.{Bool, true, false}

-- Why `CapabilityDeniedError` is raised (core/gateway.py): its messages, without their operands.
pub data Denial : Type 0 where
  unknown_capability not_requested repository_changed base_sha_changed worktree_changed : Denial
  write_out_of_scope denied_by_policy denied_by_declaration network_denied : Denial
  listener_denied environment_denied execution_limit retry_budget_reached : Denial
  command_budget approval_required : Denial

pub data Error : Type 0 where
  envelope_invariant capability_invariant : Error
  capability_denied : Denial → Error
  task_store task_already_exists task_not_found record_corrupted invalid_task_state : Error
  execution_rejected lease_conflict value_error type_error key_error os_error : Error
  initialization plan_drift schema_validation : Error

-- What a call leads to: the exception that it raises, or the value that it returns.
pub data Result {ℓ} (Value : Type ℓ) : Type ℓ where
  err : Error → Result Value
  ok : Value → Result Value

pub ok_path : {A : Type 0} {a b : A} → ◌≡◌ {A = Result A} (ok a) (ok b) → a ≡ b
ok_path h = cc

pub Result-cases {ℓ} :
    {A : Type ℓ} (m : Result A) → ((a : A) × (m ≡ ok a)) ⊎ ((e : Error) × (m ≡ err e))
Result-cases (ok a) = inl (a, refl)
Result-cases (err e) = inr (e, refl)

-- `if not test: raise error`
abbrev pub guard : Bool → Error → Result (Unit {0})
guard false error = err error
guard true error = ok tt

-- Go on with the value; an exception is passed on.
infixl 5 ◌>>=◌
abbrev pub ◌>>=◌ {ℓ κ} : {A : Type ℓ} {B : Type κ} → Result A → (A → Result B) → Result B
err error >>= next = err error
ok value >>= next = next value

-- A chain that returns a value: its first call has returned one, and so has the rest.
pub >>=-eq-ok {κ ℓ} :
    {A : Type κ} {B : Type ℓ} (first : Result A) (next : A → Result B) {b : B}
    (returned : (first >>= next) ≡ ok b)
    → (a : A) × (first ≡ ok a) × (next a ≡ ok b)
>>=-eq-ok (err error) next returned = cc
>>=-eq-ok (ok value) next returned = (value, refl, returned)

infixl 5 ◌>>◌
abbrev pub ◌>>◌ {ℓ} : {B : Type ℓ} → Result (Unit {0}) → Result B → Result B
check >> rest = check >>= λ passed. rest

-- A guarded computation that succeeds has passed the guard.
pub guard-eq-ok {ℓ} :
    {B : Type ℓ} (test : Bool) (error : Error) (rest : Result B) {b : B}
    → (guard test error >> rest) ≡ ok b
    → (test ≡ true) × (rest ≡ ok b)
guard-eq-ok true error rest h = (refl, h)
guard-eq-ok false error rest h = cc
