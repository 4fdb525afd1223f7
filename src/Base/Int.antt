-- ===== src/Base/Int.antt =====
-- Python's `int` where the program uses negative values.
use Prim.Native.Nat.{ℕ, zero, suc}
use oqlos.Base.Tests.{ltb, if◌then◌else◌}

-- `negsuc n` is -(n + 1)
pub data ℤ : Type 0 where
  pos : ℕ → ℤ
  negsuc : ℕ → ℤ

-- `n - 1`, for a length n
abbrev pub last_index : ℕ → ℤ
last_index zero = negsuc 0
last_index (suc n) = pos n

-- `max(m, n)` for a bound m that is not negative
abbrev pub at_least : ℕ → ℤ → ℕ
at_least m (pos n) = if ltb m n then n else m
at_least m (negsuc _) = m
