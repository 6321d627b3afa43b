-- ===== src/Common/Ints.antt =====
-- Go's int where it may be negative, over the native numbers: `negsuc n` stands for the number n + 1
-- below zero. An operation adds what its operands have above and below zero, and takes the difference.
use zent_loop.Common.Tests.{ltb, leb, if◌then◌else◌}
use mathlib.Core.Bool.{Bool}
use Prim.Native.Nat.{ℕ, suc, ◌+◌, ◌-◌, ◌≤◌}

infixl 65 ◌+ℤ◌ ◌-ℤ◌
infix 50 ◌≤ℤ◌
pub data ℤ : Type 0 where
  pos negsuc : ℕ → ℤ

-- max(i, 0)
abbrev pub above_zero : ℤ → ℕ
above_zero (negsuc n) = 0
above_zero (pos n) = n

-- max(-i, 0)
abbrev pub below_zero : ℤ → ℕ
below_zero (negsuc n) = suc n
below_zero (pos n) = 0

abbrev pub difference : ℕ → ℕ → ℤ
difference up down = if ltb up down then negsuc (down - up - 1) else pos (up - down)

abbrev pub ◌+ℤ◌ : ℤ → ℤ → ℤ
i +ℤ j = difference (above_zero i + above_zero j) (below_zero i + below_zero j)

abbrev pub ◌-ℤ◌ : ℤ → ℤ → ℤ
i -ℤ j = difference (above_zero i + below_zero j) (below_zero i + above_zero j)

abbrev pub leb_ℤ : ℤ → ℤ → Bool
leb_ℤ i j = leb (above_zero i + below_zero j) (above_zero j + below_zero i)

abbrev pub ltb_ℤ : ℤ → ℤ → Bool
ltb_ℤ i j = ltb (above_zero i + below_zero j) (above_zero j + below_zero i)

abbrev pub ◌≤ℤ◌ : ℤ → ℤ → Type 0
i ≤ℤ j = above_zero i + below_zero j ≤ above_zero j + below_zero i
