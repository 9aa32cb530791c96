-- ===== src/Base/Utf8.antt =====
-- `str::from_utf8`: strict UTF-8, a byte at a time.
use Prim.Native.Nat.{ℕ, zero, suc, ◌+◌, ◌-◌, ◌*◌, ◌/◌, ◌%◌, ◌≤◌, ◌<◌}
use mathlib.Core.Path.{◌≡◌, refl, ◌∙◌}
use mathlib.Core.Logic.{inl, inr}
use mathlib.Core.Bool.{Bool, true, not, ◌&&◌}
use mathlib.Core.Option.{Option, none, some}
use mathlib.Core.List.{[], ◌∷◌, ◌++◌}
use native.Mathlib.Omega.{arith}
use redis_event_stream_modul.Base.Tests.{ltb, leb, if◌then◌else◌, Bool-cases}
use redis_event_stream_modul.Base.Lists.{All}
use redis_event_stream_modul.Base.Text.{Str, Bytes, as_bytes, utf8_char}

abbrev pub is_scalar : ℕ → Bool
is_scalar c = ltb c 0x110000 && not (leb 0xD800 c && leb c 0xDFFF)

abbrev pub push_char : ℕ → Option Str → Option Str
push_char c none = none
push_char c (some s) = some (c ∷ s)

-- What the first byte of a char announces: the char itself, or a length with the first bits.
pub data Lead : Type 0 where
  one two three four : ℕ → Lead
  bad : Lead

unfoldable pub lead : ℕ → Lead
lead b =
    if ltb b 0x80
    then one b
    else if ltb b 0xC0
    then bad
    else if ltb b 0xE0
    then two (b - 0xC0)
    else if ltb b 0xF0
    then three (b - 0xE0)
    else if ltb b 0xF8
    then four (b - 0xF0)
    else bad

-- With `need` continuation bytes to come, the bits so far and the least char of that length.
unfoldable pub decode_utf8 : ℕ → ℕ → ℕ → Bytes → Option Str
decode_utf8 zero acc low [] = some []
decode_utf8 (suc need) acc low [] = none
decode_utf8 zero acc low (b ∷ r) = elim (lead b) [
  | one c ↦ push_char c (decode_utf8 zero 0 0 r)
  | two k ↦ decode_utf8 1 k 0x80 r
  | three k ↦ decode_utf8 2 k 0x800 r
  | four k ↦ decode_utf8 3 k 0x10000 r
  | bad ↦ none
]
decode_utf8 (suc zero) acc low (b ∷ r) =
    let c : ℕ = acc * 64 + (b - 0x80) in
    let rest = push_char c (decode_utf8 zero 0 0 r) in
    if leb 0x80 b && ltb b 0xC0 && leb low c && is_scalar c then rest else none
decode_utf8 (suc (suc need)) acc low (b ∷ r) =
    let rest = decode_utf8 (suc need) (acc * 64 + (b - 0x80)) low r in
    if leb 0x80 b && ltb b 0xC0 then rest else none

unfoldable pub from_utf8 : Bytes → Option Str
from_utf8 = decode_utf8 0 0 0

lead-two : (k : ℕ) → k < 32 → lead (0xC0 + k) ≡ two k
unfolding lead
lead-two k h = ground arith

lead-three : (k : ℕ) → k < 16 → lead (0xE0 + k) ≡ three k
unfolding lead
lead-three k h = ground arith

lead-four : (k : ℕ) → k < 8 → lead (0xF0 + k) ≡ four k
unfolding lead
lead-four k h = ground arith

lead-one : (c : ℕ) → c < 0x80 → lead c ≡ one c
unfolding lead
lead-one c h = ground arith

-- The byte that begins a char of two, three and four bytes.
decode_utf8-two :
    (k : ℕ) (r : Bytes) → k < 32 → decode_utf8 0 0 0 ((0xC0 + k) ∷ r) ≡ decode_utf8 1 k 0x80 r
unfolding decode_utf8
decode_utf8-two k r h = rw (lead-two k h, decode_utf8) refl

decode_utf8-three :
    (k : ℕ) (r : Bytes) → k < 16 → decode_utf8 0 0 0 ((0xE0 + k) ∷ r) ≡ decode_utf8 2 k 0x800 r
unfolding decode_utf8
decode_utf8-three k r h = rw (lead-three k h, decode_utf8) refl

decode_utf8-four :
    (k : ℕ) (r : Bytes) → k < 8 → decode_utf8 0 0 0 ((0xF0 + k) ∷ r) ≡ decode_utf8 3 k 0x10000 r
unfolding decode_utf8
decode_utf8-four k r h = rw (lead-four k h, decode_utf8) refl

-- A continuation byte that is not the last, and the last one.
decode_utf8-more :
    (need acc low d : ℕ) (r : Bytes)
    → d < 64
    → decode_utf8 (suc (suc need)) acc low ((0x80 + d) ∷ r)
      ≡ decode_utf8 (suc need) (acc * 64 + d) low r
unfolding decode_utf8
decode_utf8-more need acc low d r h = ground arith

decode_utf8-last :
    (c acc low d : ℕ) (r : Bytes)
    → d < 64
    → acc * 64 + d ≡ c
    → low ≤ c
    → is_scalar c ≡ true
    → decode_utf8 1 acc low ((0x80 + d) ∷ r) ≡ push_char c (decode_utf8 0 0 0 r)
unfolding decode_utf8
decode_utf8-last c acc low d r h e k t = ground arith

decode_utf8-one :
    (c : ℕ) (r : Bytes) → c < 0x80 → decode_utf8 0 0 0 (c ∷ r) ≡ push_char c (decode_utf8 0 0 0 r)
unfolding decode_utf8
decode_utf8-one c r h = rw (lead-one c h, decode_utf8) refl

scalar-lt : (c : ℕ) → is_scalar c ≡ true → c < 0x110000
scalar-lt c h = ground arith

decode_utf8-utf8_char :
    (c : ℕ) (r : Bytes)
    → is_scalar c ≡ true
    → decode_utf8 0 0 0 (utf8_char c ++ r) ≡ push_char c (decode_utf8 0 0 0 r)
unfolding utf8_char
decode_utf8-utf8_char c r h = elim (Bool-cases (ltb c 0x80)) [
  | inl e ↦ rw e (decode_utf8-one c r (ground arith))
  | inr e ↦ rw e (elim (Bool-cases (ltb c 0x800)) [
    | inl f ↦ rw f (
        decode_utf8-two (c / 64) _ (ground arith)
        ∙ decode_utf8-last c (c / 64) 0x80 (c % 64) r (omega arith) (omega arith) (ground arith) h)
    | inr f ↦ rw f (elim (Bool-cases (ltb c 0x10000)) [
      | inl g ↦ rw g (
          decode_utf8-three (c / 4096) _ (ground arith)
          ∙ decode_utf8-more 0 (c / 4096) 0x800 (c / 64 % 64) _ (omega arith)
          ∙ decode_utf8-last c _ 0x800 (c % 64) r (omega arith) (omega arith) (ground arith) h)
      | inr g ↦ rw g (
          decode_utf8-four (c / 262144) _ (omega (arith, scalar-lt c h))
          ∙ decode_utf8-more 1 (c / 262144) 0x10000 (c / 4096 % 64) _ (omega arith)
          ∙ decode_utf8-more 0 _ 0x10000 (c / 64 % 64) _ (omega arith)
          ∙ decode_utf8-last c _ 0x10000 (c % 64) r (omega arith) (omega arith) (ground arith) h)
    ])
  ])
]

-- The bytes of a text of chars decode to the text.
pub from_utf8-as_bytes :
    (s : Str) → All (λ c. is_scalar c ≡ true) s → from_utf8 (as_bytes s) ≡ some s
unfolding from_utf8 as_bytes
from_utf8-as_bytes [] h = unfold decode_utf8 in refl
from_utf8-as_bytes (c ∷ s) h =
    ground (arith, decode_utf8-utf8_char c (as_bytes s), from_utf8-as_bytes s h.1)
