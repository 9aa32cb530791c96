-- ===== src/Base/Text.antt =====
-- Rust's `str` as its list of chars (code points) and byte strings as lists of numbers below 256;
-- what the source uses of `str`: bytes, tests, trimming, splitting, numbers in decimal.
use Prim.Native.Nat.{ℕ, ◌+◌, ◌/◌, ◌%◌}
use Prim.Native.Char.{code}
use Prim.Native.String.{String}
use mathlib.Core.Path.{◌≡◌, refl, sym}
use mathlib.Core.Bool.{Bool, true, false, ◌&&◌, ◌||◌}
use mathlib.Core.Option.{Option, none, some}
use mathlib.Core.List.{List, [], ◌∷◌, ◌++◌, reverse, append_assoc}
use native.Mathlib.Omega.{arith}
use redis_event_stream_modul.Base.Tests.{ltb, leb, ◌==◌, if◌then◌else◌}

abbrev pub Str : Type 0
Str = List ℕ

abbrev pub Bytes : Type 0
Bytes = List ℕ

abbrev pub text : String → Str
text String.[] = []
text (String.◌∷◌ c s) = code c ∷ text s

-- The UTF-8 encoding of a char, and `as_bytes`.
unfoldable pub utf8_char : ℕ → Bytes
utf8_char c =
    if ltb c 0x80
    then c ∷ []
    else if ltb c 0x800
    then (0xC0 + c / 64) ∷ (0x80 + c % 64) ∷ []
    else if ltb c 0x10000
    then (0xE0 + c / 4096) ∷ (0x80 + c / 64 % 64) ∷ (0x80 + c % 64) ∷ []
    else (0xF0 + c / 262144) ∷ (0x80 + c / 4096 % 64) ∷ (0x80 + c / 64 % 64) ∷ (0x80 + c % 64) ∷ []

unfoldable pub as_bytes : Str → Bytes
unfolding utf8_char
as_bytes [] = []
as_bytes (c ∷ s) = utf8_char c ++ as_bytes s

infix 50 ◌=s=◌
-- Equality of strings, and of byte strings.
unfoldable pub ◌=s=◌ : Str → Str → Bool
[] =s= [] = true
[] =s= (d ∷ t) = false
(c ∷ s) =s= [] = false
(c ∷ s) =s= (d ∷ t) = c == d && s =s= t

unfoldable pub starts_with : Str → Str → Bool
starts_with s [] = true
starts_with [] (d ∷ p) = false
starts_with (c ∷ s) (d ∷ p) = c == d && starts_with s p

-- `contains` of a substring.
unfoldable pub contains : Str → Str → Bool
unfolding starts_with
contains [] p = starts_with [] p
contains (c ∷ s) p = starts_with (c ∷ s) p || contains s p

unfoldable pub is_empty : Str → Bool
is_empty [] = true
is_empty (c ∷ s) = false

-- `chars().any(p)`, `bytes.contains(b)`.
unfoldable pub any : (ℕ → Bool) → Str → Bool
any p [] = false
any p (c ∷ s) = p c || any p s

-- `chars().find(p)`.
unfoldable pub find : (ℕ → Bool) → Str → Option ℕ
find p [] = none
find p (c ∷ s) = if p c then some c else find p s

-- `char::is_whitespace`: the Unicode property White_Space.
unfoldable pub is_whitespace : ℕ → Bool
is_whitespace c =
    leb 9 c && leb c 13
    || c == 0x20
    || c == 0x85
    || c == 0xA0
    || c == 0x1680
    || leb 0x2000 c && leb c 0x200A
    || c == 0x2028
    || c == 0x2029
    || c == 0x202F
    || c == 0x205F
    || c == 0x3000

unfoldable pub trim_start : Str → Str
unfolding is_whitespace
trim_start [] = []
trim_start (c ∷ s) = let rest = trim_start s in if is_whitespace c then rest else c ∷ s

unfoldable pub trim : Str → Str
trim s = reverse (trim_start (reverse (trim_start s)))

-- The first piece of `split(sep)` and the pieces after it: there is always a first one.
unfoldable pub split_first : ℕ → Str → Str × List Str
split_first sep [] = ([], [])
split_first sep (c ∷ s) =
    let (piece, pieces) = split_first sep s in
    if c == sep then ([], piece ∷ pieces) else (c ∷ piece, pieces)

unfoldable pub split : ℕ → Str → List Str
unfolding split_first
split sep s = let (piece, pieces) = split_first sep s in piece ∷ pieces

-- `split_once(sep)`.
unfoldable pub split_once : ℕ → Str → Option (Str × Str)
split_once sep [] = none
split_once sep (c ∷ s) =
    if c == sep
    then some ([], s)
    else elim (split_once sep s) [ none ↦ none | some (a, b) ↦ some (c ∷ a, b) ]

pub =s=-refl : (s : Str) → (s =s= s) ≡ true
unfolding ◌=s=◌
=s=-refl [] = refl
=s=-refl (c ∷ s) = ground (arith, =s=-refl s)

pub =s=-eq : (s t : Str) → (s =s= t) ≡ true → s ≡ t
unfolding ◌=s=◌
=s=-eq [] [] h = refl
=s=-eq [] (d ∷ t) h = ground arith
=s=-eq (c ∷ s) [] h = ground arith
=s=-eq (c ∷ s) (d ∷ t) h = ground (arith, =s=-eq s t)

pub starts_with-append : (p s : Str) → starts_with (p ++ s) p ≡ true
unfolding starts_with
starts_with-append [] [] = refl
starts_with-append [] (c ∷ s) = refl
starts_with-append (d ∷ p) s = ground (arith, starts_with-append p s)

pub as_bytes-append : (s t : Str) → as_bytes (s ++ t) ≡ as_bytes s ++ as_bytes t
unfolding as_bytes
as_bytes-append [] t = refl
as_bytes-append (c ∷ s) t =
    rw (as_bytes-append s t) (sym (append_assoc (utf8_char c) (as_bytes s) (as_bytes t)))
