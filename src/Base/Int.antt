-- ===== src/Base/Int.antt =====
-- Signed integers over the native numbers, and Go's int64 difference.
use Prim.Native.Nat.{ℕ, suc, ◌+◌, ◌-◌, ◌^◌, ◌≤◌}
use mathlib.Core.Bool.{Bool}
use drishti_server_migration.Base.Tests.{ltb, leb, if◌then◌else◌}

-- `negsuc n` is -(n + 1).
pub data ℤ : Type 0 where
  pos : ℕ → ℤ
  negsuc : ℕ → ℤ

abbrev pub pos_part : ℤ → ℕ
pos_part (pos n) = n
pos_part (negsuc n) = 0

abbrev pub neg_part : ℤ → ℕ
neg_part (pos n) = 0
neg_part (negsuc n) = suc n

-- a - b, as an integer.
abbrev pub sub_ℕ : ℕ → ℕ → ℤ
sub_ℕ a b = if leb b a then pos (a - b) else negsuc (b - a - 1)

infix 50 ◌≤ℤ◌
abbrev pub ◌≤ℤ◌ : ℤ → ℤ → Type 0
a ≤ℤ b = pos_part a + neg_part b ≤ pos_part b + neg_part a

abbrev pub ltb_ℤ : ℤ → ℤ → Bool
ltb_ℤ a b = ltb (pos_part a + neg_part b) (pos_part b + neg_part a)

abbrev pub leb_ℤ : ℤ → ℤ → Bool
leb_ℤ a b = leb (pos_part a + neg_part b) (pos_part b + neg_part a)

-- A sum or difference of two int64 values leaves the range by less than 2^64, so one turn of
-- 2^64 brings it back, as Go's arithmetic does.
abbrev pub wrap_int64 : ℤ → ℤ
wrap_int64 a =
    if leb (2 ^ 63) (pos_part a)
    then sub_ℕ (pos_part a) (2 ^ 64)
    else if ltb (2 ^ 63) (neg_part a)
    then sub_ℕ (2 ^ 64) (neg_part a)
    else a

-- `a - b` on int64.
abbrev pub sub_int64 : ℤ → ℤ → ℤ
sub_int64 a b = wrap_int64 (sub_ℕ (pos_part a + neg_part b) (neg_part a + pos_part b))
