-- ===== src/Base/Int.antt =====
-- Signed integers over the native numbers, under the library's names (its ℤ stands on the unary ℕ),
-- and the `i64` arithmetic that the program does on them.
use Prim.Native.Nat.{ℕ, suc, ◌+◌, ◌-◌, ◌^◌, ◌%◌, ◌≤◌, ◌<◌}
use mathlib.Core.Path.{◌≡◌}
use mathlib.Core.Bool.{Bool}
use native.Mathlib.Omega.{arith}
use redis_event_stream_modul.Base.Tests.{ltb, leb, if◌then◌else◌}

-- `negsuc n` is -(n + 1).
pub data ℤ : Type 0 where
  pos : ℕ → ℤ
  negsuc : ℕ → ℤ

abbrev pub pos_part : ℤ → ℕ
pos_part (pos n) = n
pos_part (negsuc n) = 0

abbrev pub neg_part : ℤ → ℕ
neg_part (pos n) = 0
neg_part (negsuc n) = suc n

-- a - b, as an integer.
abbrev pub sub_ℕ : ℕ → ℕ → ℤ
sub_ℕ a b = if leb b a then pos (a - b) else negsuc (b - a - 1)

infixl 65 ◌+ℤ◌ ◌-ℤ◌
infix 50 ◌≤ℤ◌
unfoldable pub ◌+ℤ◌ : ℤ → ℤ → ℤ
a +ℤ b = sub_ℕ (pos_part a + pos_part b) (neg_part a + neg_part b)

unfoldable pub ◌-ℤ◌ : ℤ → ℤ → ℤ
a -ℤ b = sub_ℕ (pos_part a + neg_part b) (neg_part a + pos_part b)

abbrev pub ◌≤ℤ◌ : ℤ → ℤ → Type 0
a ≤ℤ b = pos_part a + neg_part b ≤ pos_part b + neg_part a

abbrev pub leb_ℤ : ℤ → ℤ → Bool
leb_ℤ a b = leb (pos_part a + neg_part b) (pos_part b + neg_part a)

abbrev pub ltb_ℤ : ℤ → ℤ → Bool
ltb_ℤ a b = ltb (pos_part a + neg_part b) (pos_part b + neg_part a)

-- Into the range of an `i64`: what `saturating_sub` and `saturating_add` do with a result outside.
unfoldable pub saturate_i64 : ℤ → ℤ
saturate_i64 (pos n) = if ltb n (2 ^ 63) then pos n else pos (2 ^ 63 - 1)
saturate_i64 (negsuc n) = if ltb n (2 ^ 63) then negsuc n else negsuc (2 ^ 63 - 1)

-- The `i64` with the bit pattern `n % 2 ^ 64`.
unfoldable pub of_bits : ℕ → ℤ
of_bits n = if ltb (n % 2 ^ 64) (2 ^ 63) then pos (n % 2 ^ 64) else negsuc (2 ^ 64 - 1 - n % 2 ^ 64)

-- The bit pattern of an `i64`: `v as u64`.
unfoldable pub bits : ℤ → ℕ
bits (pos n) = n % 2 ^ 64
bits (negsuc n) = 2 ^ 64 - 1 - n % 2 ^ 64

-- `max` of `i64`.
unfoldable pub max_ℤ : ℤ → ℤ → ℤ
max_ℤ a b = if ltb_ℤ a b then b else a

-- `AtomicI64::fetch_add` and `fetch_sub` wrap around.
unfoldable pub add_i64 : ℤ → ℕ → ℤ
add_i64 a n = of_bits (bits a + n)

unfoldable pub sub_i64 : ℤ → ℕ → ℤ
sub_i64 a n = of_bits (bits a + (2 ^ 64 - n % 2 ^ 64))

-- Between numbers that an `i64` holds there is no wrap.
pub add_i64-pos : (a n : ℕ) → a + n < 2 ^ 63 → add_i64 (pos a) n ≡ pos (a + n)
unfolding add_i64 of_bits bits
add_i64-pos a n h = ground arith

pub sub_i64-pos : (a n : ℕ) → a < 2 ^ 63 → n ≤ a → sub_i64 (pos a) n ≡ pos (a - n)
unfolding sub_i64 of_bits bits
sub_i64-pos a n h k = ground arith
