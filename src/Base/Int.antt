-- ===== src/Base/Int.antt =====
-- Go's `int` (64 bits on the platforms that the build names): signed integers, and the increment
-- that wraps at the largest.
use Prim.Native.Nat.{ℕ, zero, suc, ◌+◌, ◌-◌, ◌^◌, ◌*◌, ◌%◌, ◌≤◌, ◌<◌}
use mathlib.Core.Bool.{Bool, true}
use mathlib.Core.Path.{◌≡◌}
use native.Mathlib.Omega.{arith}
use optimusdb.Base.Tests.{ltb, leb, ◌==◌, if◌then◌else◌}

-- `negsuc n` is -(n + 1).
pub data ℤ : Type 0 where
  pos : ℕ → ℤ
  negsuc : ℕ → ℤ

abbrev pub pos_part : ℤ → ℕ
pos_part (pos n) = n
pos_part (negsuc n) = 0

abbrev pub neg_part : ℤ → ℕ
neg_part (pos n) = 0
neg_part (negsuc n) = suc n

infix 50 ◌≤ℤ◌ ◌<ℤ◌
abbrev pub ◌≤ℤ◌ : ℤ → ℤ → Type 0
a ≤ℤ b = pos_part a + neg_part b ≤ pos_part b + neg_part a

abbrev pub ◌<ℤ◌ : ℤ → ℤ → Type 0
a <ℤ b = pos_part a + neg_part b < pos_part b + neg_part a

abbrev pub ltb_ℤ : ℤ → ℤ → Bool
ltb_ℤ a b = ltb (pos_part a + neg_part b) (pos_part b + neg_part a)

abbrev pub eqb_ℤ : ℤ → ℤ → Bool
eqb_ℤ a b = pos_part a + neg_part b == pos_part b + neg_part a

abbrev pub max_int : ℤ
max_int = pos (2 ^ 63 - 1)

abbrev pub min_int : ℤ
min_int = negsuc (2 ^ 63 - 1)

-- the integer of a 64-bit word
unfoldable pub of_word : ℕ → ℤ
of_word m = if ltb m (2 ^ 63) then pos m else negsuc (2 ^ 64 - 1 - m)

-- a * k on 64 bits
unfoldable pub times : ℤ → ℕ → ℤ
times (pos n) k = of_word (n * k % 2 ^ 64)
times (negsuc n) k = of_word ((2 ^ 64 - suc n * k % 2 ^ 64) % 2 ^ 64)

-- a + 1 on 64 bits
unfoldable pub inc : ℤ → ℤ
inc (pos n) = if leb (2 ^ 63 - 1) n then min_int else pos (suc n)
inc (negsuc zero) = pos 0
inc (negsuc (suc n)) = negsuc n

pub eqb_ℤ→eq : (a b : ℤ) → eqb_ℤ a b ≡ true → a ≡ b
eqb_ℤ→eq a b h = ground arith

pub eqb_ℤ_refl : (a : ℤ) → eqb_ℤ a a ≡ true
eqb_ℤ_refl a = ground arith

-- Below the largest integer the increment is one more.
pub lt-inc :
    (a : ℤ)
    → a <ℤ max_int
    → (a <ℤ inc a) × (pos_part (inc a) + neg_part a ≡ pos_part a + neg_part (inc a) + 1)
unfolding inc
lt-inc (pos n) h = ground arith
lt-inc (negsuc zero) h = ground arith
lt-inc (negsuc (suc n)) h = ground arith
