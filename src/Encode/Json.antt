-- ===== src/Encode/Json.antt =====
-- src/capture.rs: `json_escape_into`, and a reader of JSON strings as its specification.
use mathlib.Core.List.{append_assoc}
use redis_event_stream_modul.Base.{
  is_scalar, zero, suc, Str, ℕ, ◌+◌, ◌-◌, ◌*◌, ◌/◌, ◌%◌, ◌<◌, ltb, leb, ◌==◌, ◌&&◌, [], ◌∷◌, ◌++◌,
  Option, none, some, if◌then◌else◌, ◌≡◌, refl, ◌∙◌, arith,
}

abbrev pub backslash : ℕ
backslash = 92

abbrev pub quote : ℕ
quote = 34

-- A digit of `{:04x}`.
unfoldable pub hex_digit : ℕ → ℕ
hex_digit d = if ltb d 10 then b'0' + d else b'a' + (d - 10)

unfoldable pub escape_char : ℕ → Str
escape_char c =
    if c == quote
    then backslash ∷ quote ∷ []
    else if c == backslash
    then backslash ∷ backslash ∷ []
    else if c == 10
    then backslash ∷ b'n' ∷ []
    else if c == 13
    then backslash ∷ b'r' ∷ []
    else if c == 9
    then backslash ∷ b't' ∷ []
    else if ltb c 0x20
    then backslash ∷ b'u' ∷ b'0' ∷ b'0' ∷ hex_digit (c / 16) ∷ hex_digit (c % 16) ∷ []
    else c ∷ []

unfoldable pub escape : Str → Str
escape [] = []
escape (c ∷ s) = escape_char c ++ escape s

-- `json_escape_into s out`: the literal appended to `out`.
unfoldable pub json_escape_into : Str → Str → Str
json_escape_into s out = out ++ quote ∷ (escape s ++ quote ∷ [])

-- A hexadecimal digit read.
unfoldable pub read_hex : ℕ → Option ℕ
read_hex c =
    if leb b'0' c && leb c b'9'
    then some (c - b'0')
    else if leb b'a' c && leb c b'f'
    then some (c - b'a' + 10)
    else none

unfoldable pub read_escape : ℕ → Option ℕ
read_escape c =
    if c == b'n'
    then some 10
    else if c == b'r'
    then some 13
    else if c == b't'
    then some 9
    else if c == quote
    then some quote
    else if c == backslash
    then some backslash
    else none

-- A reader of JSON strings: in the text, behind a backslash, or with `k + 1` hexadecimal digits to come.
pub data Mode : Type 0 where
  plain escaped : Mode
  unicode : ℕ → ℕ → Mode

abbrev pub push : ℕ → Option (Str × Str) → Option (Str × Str)
push c none = none
push c (some (s, rest)) = some (c ∷ s, rest)

-- The string and the text behind its closing quote; the opening one has been read.
unfoldable pub read_string : Mode → Str → Option (Str × Str)
read_string mode [] = none
read_string plain (c ∷ s) =
    let escape = read_string escaped s in
    let rest = read_string plain s in
    if c == quote
    then some ([], s)
    else if c == backslash
    then escape
    else if ltb c 0x20
    then none
    else push c rest
read_string escaped (c ∷ s) =
    let hex = read_string (unicode 3 0) s in
    let rest = read_string plain s in
    if c == b'u' then hex else elim (read_escape c) [ none ↦ none | some d ↦ push d rest ]
read_string (unicode zero acc) (c ∷ s) =
    let rest = read_string plain s in
    elim (read_hex c) [
      | none ↦ none
      | some d ↦ if is_scalar (acc * 16 + d) then push (acc * 16 + d) rest else none
    ]
read_string (unicode (suc k) acc) (c ∷ s) = elim (read_hex c) [
  | none ↦ none
  | some d ↦ read_string (unicode k (acc * 16 + d)) s
]

read_hex-hex_digit : (d : ℕ) → d < 16 → read_hex (hex_digit d) ≡ some d
unfolding read_hex hex_digit
read_hex-hex_digit d h = ground arith

read_hex_zero : read_hex b'0' ≡ some 0
unfolding read_hex
read_hex_zero = refl

read_control :
    (c : ℕ) (s : Str)
    → c < 0x20
    → read_string plain
        (backslash ∷ b'u' ∷ b'0' ∷ b'0' ∷ hex_digit (c / 16) ∷ hex_digit (c % 16) ∷ s)
      ≡ push c (read_string plain s)
unfolding read_string
read_control c s h =
    ground (arith, read_hex_zero, read_hex-hex_digit (c / 16), read_hex-hex_digit (c % 16))

read_string-escape_char :
    (c : ℕ) (s : Str) → read_string plain (escape_char c ++ s) ≡ push c (read_string plain s)
unfolding read_string escape_char read_escape
read_string-escape_char c s = ground (arith, read_control c s)

-- The escaped text is one JSON string, and it reads back as the text, whatever its chars.
pub read_string-escape :
    (s rest : Str) → read_string plain (escape s ++ quote ∷ rest) ≡ some (s, rest)
unfolding escape read_string
read_string-escape [] rest = refl
read_string-escape (c ∷ s) rest =
    rw append_assoc
      (read_string-escape_char c (escape s ++ quote ∷ rest) ∙ rw (read_string-escape s rest) refl)
