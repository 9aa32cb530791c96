-- ===== src/Base/Decimal.antt =====
-- Integers in decimal: `to_string` and `str::parse` of the integer types that the program uses.
use Prim.Native.Nat.{ℕ, zero, suc, ◌+◌, ◌-◌, ◌*◌, ◌/◌, ◌%◌, ◌≤◌, ◌<◌}
use mathlib.Core.Path.{◌≡◌, refl}
use mathlib.Core.Logic.{inl, inr}
use mathlib.Core.Bool.{Bool, true, ◌&&◌, ◌||◌}
use mathlib.Core.Option.{Option, none, some}
use mathlib.Core.List.{[], ◌∷◌, ◌++◌}
use native.Mathlib.Omega.{arith}
use redis_event_stream_modul.Base.Tests.{ltb, leb, ◌==◌, if◌then◌else◌, Bool-cases}
use redis_event_stream_modul.Base.Lists.{All, All-append}
use redis_event_stream_modul.Base.Int.{ℤ, pos, negsuc, sub_ℕ}
use redis_event_stream_modul.Base.Text.{Str}

-- The digits of a number; the fuel `n` is enough for the digits of `n`.
unfoldable pub show_digits : ℕ → ℕ → Str
show_digits zero n = (b'0' + n % 10) ∷ []
show_digits (suc f) n =
    let high = show_digits f (n / 10) in
    if ltb n 10 then (b'0' + n) ∷ [] else high ++ (b'0' + n % 10) ∷ []

unfoldable pub show_nat : ℕ → Str
unfolding show_digits
show_nat n = show_digits n n

unfoldable pub show_int : ℤ → Str
unfolding show_nat
show_int (pos n) = show_nat n
show_int (negsuc n) = b'-' ∷ show_nat (suc n)

abbrev pub is_digit : ℕ → Bool
is_digit c = leb b'0' c && leb c b'9'

unfoldable pub read_digits : ℕ → Str → Option ℕ
read_digits acc [] = some acc
read_digits acc (c ∷ s) =
    let rest = read_digits (acc * 10 + (c - b'0')) s in if is_digit c then rest else none

-- A number of at least one digit, and at most `limit`.
unfoldable pub read_nat : ℕ → Str → Option ℕ
unfolding read_digits
read_nat limit [] = none
read_nat limit (c ∷ s) = elim (read_digits 0 (c ∷ s)) [
  | none ↦ none
  | some n ↦ if leb n limit then some n else none
]

-- `parse::<u32>()` and `parse::<u64>()`: an optional plus sign.
unfoldable pub parse_unsigned : ℕ → Str → Option ℕ
unfolding read_nat
parse_unsigned limit [] = none
parse_unsigned limit (c ∷ s) = if c == b'+' then read_nat limit s else read_nat limit (c ∷ s)

abbrev negated : Option ℕ → Option ℤ
negated none = none
negated (some n) = some (sub_ℕ 0 n)

abbrev positive : Option ℕ → Option ℤ
positive none = none
positive (some n) = some (pos n)

-- `parse::<i64>()` for `bound` = 2 ^ 63, `parse::<i32>()` for 2 ^ 31: an optional sign.
unfoldable pub parse_signed : ℕ → Str → Option ℤ
unfolding read_nat
parse_signed bound [] = none
parse_signed bound (c ∷ s) =
    if c == b'-'
    then negated (read_nat bound s)
    else if c == b'+'
    then positive (read_nat (bound - 1) s)
    else positive (read_nat (bound - 1) (c ∷ s))

read_digits-append :
    (acc : ℕ) (s : Str) (d n : ℕ)
    → d < 10
    → read_digits acc s ≡ some n
    → read_digits acc (s ++ (b'0' + d) ∷ []) ≡ some (n * 10 + d)
unfolding read_digits
read_digits-append acc [] d n hd h = ground arith
read_digits-append acc (c ∷ s) d n hd h =
    ground (arith, read_digits-append (acc * 10 + (c - b'0')) s d n)

read_digits-show_digits : (f n : ℕ) → n ≤ f → read_digits 0 (show_digits f n) ≡ some n
unfolding read_digits show_digits
read_digits-show_digits zero n h = ground arith
read_digits-show_digits (suc f) n h = ground (
  arith,
  read_digits-show_digits f (n / 10),
  read_digits-append 0 (show_digits f (n / 10)) (n % 10) (n / 10),
)

abbrev StartsWithDigit : Str → Type 0
StartsWithDigit [] = ⊥
StartsWithDigit (c ∷ s) = is_digit c ≡ true

StartsWithDigit-append : (s t : Str) → StartsWithDigit s → StartsWithDigit (s ++ t)
StartsWithDigit-append [] t h = elim h [ ]
StartsWithDigit-append (c ∷ s) t h = h

show_digits-StartsWithDigit : (f n : ℕ) → StartsWithDigit (show_digits f n)
unfolding show_digits
show_digits-StartsWithDigit zero n = ground arith
show_digits-StartsWithDigit (suc f) n = elim (Bool-cases (ltb n 10)) [
  | inl h ↦ rw h (ground arith)
  | inr h ↦
      rw h
        (StartsWithDigit-append (show_digits f (n / 10)) _ (show_digits-StartsWithDigit f (n / 10)))
]

read_nat_of_digits :
    (limit : ℕ) (s : Str) (n : ℕ)
    → StartsWithDigit s
    → read_digits 0 s ≡ some n
    → n ≤ limit
    → read_nat limit s ≡ some n
unfolding read_nat
read_nat_of_digits limit [] n d h k = elim d [ ]
read_nat_of_digits limit (c ∷ s) n d h k = rw (h, read_nat) (ground arith)

parse_signed_of_digits :
    (bound : ℕ) (s : Str) (n : ℕ)
    → StartsWithDigit s
    → read_nat (bound - 1) s ≡ some n
    → parse_signed bound s ≡ some (pos n)
unfolding parse_signed
parse_signed_of_digits bound [] n d h = elim d [ ]
parse_signed_of_digits bound (c ∷ s) n d h = ground arith

parse_unsigned_of_digits :
    (limit : ℕ) (s : Str) (n : ℕ)
    → StartsWithDigit s
    → read_nat limit s ≡ some n
    → parse_unsigned limit s ≡ some n
unfolding parse_unsigned
parse_unsigned_of_digits limit [] n d h = elim d [ ]
parse_unsigned_of_digits limit (c ∷ s) n d h = ground arith

read_nat-show_nat : (limit n : ℕ) → n ≤ limit → read_nat limit (show_nat n) ≡ some n
unfolding show_nat
read_nat-show_nat limit n h =
    read_nat_of_digits limit (show_digits n n) n (show_digits-StartsWithDigit n n)
      (read_digits-show_digits n n (omega arith)) h

pub parse_unsigned-show_nat : (limit n : ℕ) → n ≤ limit → parse_unsigned limit (show_nat n) ≡ some n
unfolding show_nat
parse_unsigned-show_nat limit n h =
    parse_unsigned_of_digits limit (show_nat n) n (show_digits-StartsWithDigit n n)
      (read_nat-show_nat limit n h)

pub parse_signed-show_nat :
    (bound n : ℕ) → n < bound → parse_signed bound (show_nat n) ≡ some (pos n)
unfolding show_nat
parse_signed-show_nat bound n h =
    parse_signed_of_digits bound (show_nat n) n (show_digits-StartsWithDigit n n)
      (read_nat-show_nat (bound - 1) n (omega arith))

-- The digits of a number are digits.
pub show_digits-digits : (f n : ℕ) → All (λ c. is_digit c ≡ true) (show_digits f n)
unfolding show_digits
show_digits-digits zero n = ground arith
show_digits-digits (suc f) n = elim (Bool-cases (ltb n 10)) [
  | inl h ↦ rw h (ground arith)
  | inr h ↦
      rw h (All-append _ (show_digits f (n / 10)) _ (show_digits-digits f (n / 10)) (ground arith))
]

parse_negative :
    (bound n : ℕ) → suc n ≤ bound → parse_signed bound (b'-' ∷ show_nat (suc n)) ≡ some (negsuc n)
unfolding parse_signed
parse_negative bound n h = ground (arith, read_nat-show_nat bound (suc n))

-- The range of a signed type with the bound `bound`.
abbrev pub InSigned : ℕ → ℤ → Type 0
InSigned bound (pos n) = n < bound
InSigned bound (negsuc n) = n < bound

-- A printed signed number reads back.
pub parse_signed-show_int :
    (bound : ℕ) (v : ℤ) → InSigned bound v → parse_signed bound (show_int v) ≡ some v
unfolding show_int
parse_signed-show_int bound (pos n) h = parse_signed-show_nat bound n h
parse_signed-show_int bound (negsuc n) h = parse_negative bound n h

digits-chars :
    (s : Str) → All (λ c. is_digit c ≡ true) s → All (λ c. (is_digit c || c == b'-') ≡ true) s
digits-chars [] h = tt
digits-chars (c ∷ s) h = (ground arith, digits-chars s h.1)

-- The chars of a printed number are digits and the sign.
pub show_int-chars : (v : ℤ) → All (λ c. (is_digit c || c == b'-') ≡ true) (show_int v)
unfolding show_int show_nat
show_int-chars (pos n) = digits-chars (show_digits n n) (show_digits-digits n n)
show_int-chars (negsuc n) =
    (refl, digits-chars (show_digits (suc n) (suc n)) (show_digits-digits (suc n) (suc n)))
