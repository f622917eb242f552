-- ===== src/Base/Int.antt =====
-- Signed integers, where the program counts below zero.
use Prim.Native.Nat.{ℕ, ◌+◌, ◌-◌}
use mathlib.Core.Bool.{Bool, true}
use i_transfer.Base.Tests.{eqb, if◌then◌else◌}

-- `negsuc n` is -(n + 1).
pub data ℤ : Type 0 where
  pos : ℕ → ℤ
  negsuc : ℕ → ℤ

-- -n
abbrev pub neg : ℕ → ℤ
neg n = if eqb n 0 then pos 0 else negsuc (n - 1)

-- `{ decrement: 1 }`
abbrev pub decrement : ℤ → ℤ
decrement (pos n) = if eqb n 0 then negsuc 0 else pos (n - 1)
decrement (negsuc n) = negsuc (n + 1)

-- `z <= 0`
abbrev pub is_exhausted : ℤ → Bool
is_exhausted (pos n) = eqb n 0
is_exhausted (negsuc n) = true
