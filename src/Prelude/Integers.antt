-- ===== src/Prelude/Integers.antt =====
-- The signed integers over the native numbers.
use Prim.Native.Nat.{ℕ, suc, ◌+◌, ◌-◌, ◌*◌, ◌%◌, ◌≤◌, ◌<◌}
use mathlib.Core.Path.{◌≡◌}
use mathlib.Core.Bool.{Bool}
use native.Mathlib.Omega.{arith}
use riddle.Prelude.Tests.{ltb, leb, if◌then◌else◌}

-- `negsuc n` is -(n + 1).
pub data ℤ : Type 0 where
  pos negsuc : ℕ → ℤ

abbrev pub pos_part : ℤ → ℕ
pos_part (pos n) = n
pos_part (negsuc n) = 0

abbrev pub neg_part : ℤ → ℕ
neg_part (pos n) = 0
neg_part (negsuc n) = suc n

-- The integer a - b.
abbrev pub sub_ℕ : ℕ → ℕ → ℤ
sub_ℕ a b = if leb b a then pos (a - b) else negsuc (b - a - 1)

infixl 65 ◌+ℤ◌ ◌-ℤ◌
infixl 70 ◌*ℤ◌
infix 50 ◌≤ℤ◌ ◌<ℤ◌
unfoldable pub ◌+ℤ◌ : ℤ → ℤ → ℤ
a +ℤ b = sub_ℕ (pos_part a + pos_part b) (neg_part a + neg_part b)

unfoldable pub ◌-ℤ◌ : ℤ → ℤ → ℤ
a -ℤ b = sub_ℕ (pos_part a + neg_part b) (neg_part a + pos_part b)

unfoldable pub ◌*ℤ◌ : ℤ → ℤ → ℤ
a *ℤ b =
    sub_ℕ (pos_part a * pos_part b + neg_part a * neg_part b)
      (pos_part a * neg_part b + neg_part a * pos_part b)

abbrev pub ◌≤ℤ◌ : ℤ → ℤ → Type 0
a ≤ℤ b = pos_part a + neg_part b ≤ pos_part b + neg_part a

abbrev pub ◌<ℤ◌ : ℤ → ℤ → Type 0
a <ℤ b = pos_part a + neg_part b < pos_part b + neg_part a

abbrev pub ltb_ℤ : ℤ → ℤ → Bool
ltb_ℤ a b = ltb (pos_part a + neg_part b) (pos_part b + neg_part a)

abbrev pub leb_ℤ : ℤ → ℤ → Bool
leb_ℤ a b = leb (pos_part a + neg_part b) (pos_part b + neg_part a)

abbrev pub min_ℤ : ℤ → ℤ → ℤ
min_ℤ a b = if leb_ℤ a b then a else b

abbrev pub max_ℤ : ℤ → ℤ → ℤ
max_ℤ a b = if leb_ℤ a b then b else a

-- `i32::MIN`, `i32::MAX`
abbrev pub i32_min : ℤ
i32_min = negsuc 2147483647

abbrev pub i32_max : ℤ
i32_max = pos 2147483647

-- A result of `i32` arithmetic, wrapped around.
unfoldable pub wrap_i32 : ℤ → ℤ
wrap_i32 a =
    sub_ℕ ((pos_part a + 2147483648 + (4294967296 - neg_part a % 4294967296)) % 4294967296)
      2147483648

-- `as i64` of a u64, and a result of `i64` arithmetic, wrapped around.
abbrev pub as_i64 : ℕ → ℤ
as_i64 n = if ltb n 0x8000000000000000 then pos n else negsuc (0xFFFFFFFFFFFFFFFF - n)

abbrev pub wrap_i64 : ℤ → ℤ
wrap_i64 (pos n) = as_i64 (n % 0x10000000000000000)
wrap_i64 (negsuc n) = as_i64 (0xFFFFFFFFFFFFFFFF - n % 0x10000000000000000)

-- `i32::abs`
abbrev pub abs_i32 : ℤ → ℤ
abs_i32 a = wrap_i32 (pos (pos_part a + neg_part a))

-- A result of saturating `i32` arithmetic.
unfoldable pub clamp_i32 : ℤ → ℤ
clamp_i32 a = min_ℤ i32_max (max_ℤ i32_min a)

-- What `omega` needs to know of the operations.
pub +ℤ_parts :
    (a b : ℤ)
    → pos_part (a +ℤ b) + (neg_part a + neg_part b) ≡ neg_part (a +ℤ b) + (pos_part a + pos_part b)
unfolding ◌+ℤ◌
+ℤ_parts a b = ground arith

pub -ℤ_parts :
    (a b : ℤ)
    → pos_part (a -ℤ b) + (neg_part a + pos_part b) ≡ neg_part (a -ℤ b) + (pos_part a + neg_part b)
unfolding ◌-ℤ◌
-ℤ_parts a b = ground arith

-- An integer in range does not wrap.
pub wrap_i32-id : (a : ℤ) → i32_min ≤ℤ a → a ≤ℤ i32_max → wrap_i32 a ≡ a
unfolding wrap_i32
wrap_i32-id (pos n) h k = ground arith
wrap_i32-id (negsuc n) h k = ground arith

pub pos_add : (a b : ℕ) → pos a +ℤ pos b ≡ pos (a + b)
unfolding ◌+ℤ◌
pos_add a b = ground arith

pub pos_mul : (a b : ℕ) → pos a *ℤ pos b ≡ pos (a * b)
unfolding ◌*ℤ◌
pos_mul a b = let none_left : a * 0 + 0 * b ≡ 0 = omega arith in rw none_left (ground arith)
