-- ===== src/Base/Int.antt =====
-- The `i64` and `i32` of the source: integers by sign, their order, and saturating addition.
use Prim.Native.Nat.{ℕ, suc, ◌+◌, ◌-◌, ◌≤◌}
use mathlib.Core.Bool.{Bool}
use thingd.Base.Tests.{leb, if◌then◌else◌, i64_max}

-- `negsuc n` is -(n + 1).
pub data ℤ : Type 0 where
  pos : ℕ → ℤ
  negsuc : ℕ → ℤ

abbrev pub pos_part : ℤ → ℕ
pos_part (pos n) = n
pos_part (negsuc n) = 0

abbrev pub neg_part : ℤ → ℕ
neg_part (pos n) = 0
neg_part (negsuc n) = suc n

infix 50 ◌≤ℤ◌
abbrev pub ◌≤ℤ◌ : ℤ → ℤ → Type 0
a ≤ℤ b = pos_part a + neg_part b ≤ pos_part b + neg_part a

abbrev pub leb_ℤ : ℤ → ℤ → Bool
leb_ℤ a b = leb (pos_part a + neg_part b) (pos_part b + neg_part a)

-- `a.saturating_add(n)` on `i64` for an addend that is not negative.
unfoldable pub sat_add_i64 : ℤ → ℕ → ℤ
sat_add_i64 (pos a) n = if leb (a + n) i64_max then pos (a + n) else pos i64_max
sat_add_i64 (negsuc a) n =
    if leb n a
    then negsuc (a - n)
    else if leb (n - suc a) i64_max
    then pos (n - suc a)
    else pos i64_max
