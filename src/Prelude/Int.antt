-- ===== src/Prelude/Int.antt =====
-- Python's unbounded integers: exit codes, limits and JSON numbers.
use Prim.Native.Nat.{ℕ, suc}
use mathlib.Core.Path.{◌≡◌, ap}
use mathlib.Core.Logic.{◌↔◌}
use mathlib.Core.Bool.{Bool, true, false}
use native.Mathlib.Omega.{arith}
use adaptive_harness.Prelude.Tests.{leb, ◌==◌, ==_iff}

-- `negsuc n` is -(n + 1).
pub data ℤ : Type 0 where
  pos : ℕ → ℤ
  negsuc : ℕ → ℤ

infix 50 ◌=ℤ◌
abbrev pub ◌=ℤ◌ : ℤ → ℤ → Bool
pos a =ℤ pos b = a == b
negsuc a =ℤ negsuc b = a == b
pos a =ℤ negsuc b = false
negsuc a =ℤ pos b = false

pub =ℤ_iff : (a b : ℤ) → ((a =ℤ b) ≡ true) ↔ (a ≡ b)
=ℤ_iff (pos a) (pos b) = (λ h. ap pos ((==_iff a b).0 h), λ e. ground arith)
=ℤ_iff (negsuc a) (negsuc b) = (λ h. ap negsuc ((==_iff a b).0 h), λ e. ground arith)
=ℤ_iff (pos a) (negsuc b) = (λ h. cc, λ e. cc)
=ℤ_iff (negsuc a) (pos b) = (λ h. cc, λ e. cc)

-- `z >= 1`
abbrev pub is_positive : ℤ → Bool
is_positive (pos n) = leb 1 n
is_positive (negsuc n) = false

-- `z >= 0`
abbrev pub is_natural : ℤ → Bool
is_natural (pos n) = true
is_natural (negsuc n) = false

-- `n >= z`
abbrev pub at_least : ℕ → ℤ → Bool
at_least n (pos m) = leb m n
at_least n (negsuc m) = true

-- `n >= z + 1`
abbrev pub at_least_suc : ℕ → ℤ → Bool
at_least_suc n (pos m) = leb (suc m) n
at_least_suc n (negsuc m) = true
