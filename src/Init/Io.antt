-- ===== src/Init/Io.antt =====
-- Operations on the repository's files that may raise, and a process that may die at each of them. A
-- file stands at the components of its path below the repository's root.
use adaptive_harness.Prelude.{
  ℕ, suc, String, Bool, true, false, List, Option, none, some, same_list, Error, os_error,
  if◌then◌else◌,
}
use adaptive_harness.Paths.{is_prefix}

abbrev pub Bytes : Type 0
Bytes = List ℕ

abbrev pub Parts : Type 0
Parts = List String

abbrev pub Disk : Type 0
Disk = Parts → Option Bytes

abbrev pub put : Parts → Bytes → Disk → Disk
put p content disk q = if same_list p q then some content else disk q

abbrev pub remove : Parts → Disk → Disk
remove p disk q = if same_list p q then none else disk q

-- All files below the directory are gone.
abbrev pub remove_tree : Parts → Disk → Disk
remove_tree p disk q = if is_prefix p q then none else disk q

-- What becomes of one operation: it works, it raises `OSError` and has no effect, or the process dies.
pub data Fate : Type 0 where
  works fails dies : Fate

-- The files, and how many operations were made.
pub record State : Type 0 where
  pub clock : ℕ
  pub disk : Disk

pub data Ending (A : Type 0) : Type 0 where
  returned : A → Ending A
  raised : Error → Ending A
  died : Ending A

abbrev pub Io : Type 0 → Type 0
Io A = State → Ending A × State

abbrev pub pure : {A : Type 0} → A → Io A
pure a s = (returned a, s)

abbrev pub raise : {A : Type 0} → Error → Io A
raise e s = (raised e, s)

abbrev pub then_do : {A B : Type 0} → (A → Io B) → Ending A × State → Ending B × State
then_do next (returned a, s) = next a s
then_do next (raised e, s) = (raised e, s)
then_do next (died, s) = (died, s)

infixl 5 ◌>>=◌ ◌>>◌
abbrev pub ◌>>=◌ : {A B : Type 0} → Io A → (A → Io B) → Io B
◌>>=◌ first next s = then_do next (first s)

abbrev pub ◌>>◌ : {B : Type 0} → Io (Unit {0}) → Io B → Io B
first >> rest = first >>= λ u. rest

abbrev pub require : Bool → Error → Io (Unit {0})
require true e = pure tt
require false e = raise e

abbrev pub handled : {A : Type 0} → (Error → Io A) → Ending A × State → Ending A × State
handled handler (returned a, s) = (returned a, s)
handled handler (raised e, s) = handler e s
handled handler (died, s) = (died, s)

-- `try: ... except Exception: ...`
abbrev pub try_except : {A : Type 0} → Io A → (Error → Io A) → Io A
try_except body handler s = handled handler (body s)

abbrev pub tick : State → Disk → State
tick s disk = record { clock = suc s.clock; disk = disk }

module _ (fate : ℕ → Fate) where
  abbrev pub met : {A : Type 0} → Fate → A → Disk → State → Ending A × State
  met works a disk s = (returned a, tick s disk)
  met fails a disk s = (raised os_error, tick s s.disk)
  met dies a disk s = (died, tick s s.disk)

  -- One operation that changes the files at once.
  abbrev pub effect : (Disk → Disk) → Io (Unit {0})
  effect change s = met (fate s.clock) tt (change s.disk) s

  -- An operation whose errors are ignored.
  abbrev pub attempt : (Disk → Disk) → Io (Unit {0})
  attempt change = try_except (effect change) (λ e. pure tt)

  abbrev pub read_file : Parts → Io (Option Bytes)
  read_file p s = met (fate s.clock) (s.disk p) s.disk s
