-- ===== src/Prelude/Division.antt =====
-- Go's `/` on ints, which rounds towards 0 and panics on a divisor 0.
use universal_database_proxy.Prelude.Int.{ℤ, pos, negsuc, sub_ℕ, wrap64}
use universal_database_proxy.Prelude.Result.{Go, done, panic}
use mathlib.Core.Path.{◌≡◌, refl}
use mathlib.Core.Logic.{◌≢◌}
use Prim.Native.Nat.{ℕ, zero, suc, ◌-◌, ◌/◌}
use universal_database_proxy.Prelude.Tests.{◌==◌, if◌then◌else◌}

abbrev pub negate_ℕ : ℕ → ℤ
negate_ℕ n = sub_ℕ 0 n

abbrev pub quotient : ℤ → ℤ → Go ℤ
quotient a (pos zero) = panic
quotient (pos m) (pos (suc n)) = done (pos (m / suc n))
quotient (pos m) (negsuc n) = done (negate_ℕ (m / suc n))
quotient (negsuc m) (pos (suc n)) = done (negate_ℕ (suc m / suc n))
quotient (negsuc m) (negsuc n) = done (wrap64 (pos (suc m / suc n)))

-- A divisor other than 0 gives a quotient.
pub quotient-done : (a b : ℤ) → b ≢ pos 0 → (q : ℤ) × (quotient a b ≡ done q)
quotient-done a (pos zero) h = absurd (h refl)
quotient-done (pos m) (pos (suc n)) h = (_, refl)
quotient-done (pos m) (negsuc n) h = (_, refl)
quotient-done (negsuc m) (pos (suc n)) h = (_, refl)
quotient-done (negsuc m) (negsuc n) h = (_, refl)

-- `n / 2` on an int, which rounds towards 0
abbrev pub half_of : ℤ → ℤ
half_of (pos n) = pos (n / 2)
half_of (negsuc n) = if suc n / 2 == 0 then pos 0 else negsuc (suc n / 2 - 1)
