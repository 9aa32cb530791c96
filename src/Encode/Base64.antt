-- ===== src/Encode/Base64.antt =====
-- src/capture.rs: `base64_into`, and a decoder (RFC 4648, with padding) as its specification.
use redis_event_stream_modul.Base.{
  ◌≢◌, ◌≤◌, Bool, Str, Bytes, ℕ, ◌+◌, ◌-◌, ◌*◌, ◌/◌, ◌%◌, ◌<◌, ltb, leb, ◌==◌, false, ◌&&◌, [], ◌∷◌,
  ◌++◌, Option, none, some, if◌then◌else◌, ◌≡◌, refl, arith, All,
}

-- `TABLE[i]`
unfoldable pub digit64 : ℕ → ℕ
digit64 i =
    if ltb i 26
    then b'A' + i
    else if ltb i 52
    then b'a' + (i - 26)
    else if ltb i 62
    then b'0' + (i - 52)
    else if i == 62
    then b'+'
    else b'/'

-- The `|` of the shifted bytes is a sum, since they do not overlap; `& 63` is `% 64`.
unfoldable pub chunk64 : ℕ → Str
chunk64 n =
    digit64 (n / 262144 % 64)
    ∷ digit64 (n / 4096 % 64)
    ∷ digit64 (n / 64 % 64)
    ∷ digit64 (n % 64)
    ∷ []

-- The text that `base64_into` appends, chunk by chunk.
unfoldable pub base64 : Bytes → Str
base64 [] = []
base64 (a ∷ []) =
    let n = a * 65536 in digit64 (n / 262144 % 64) ∷ digit64 (n / 4096 % 64) ∷ b'=' ∷ b'=' ∷ []
base64 (a ∷ b ∷ []) =
    let n = a * 65536 + b * 256 in
    digit64 (n / 262144 % 64) ∷ digit64 (n / 4096 % 64) ∷ digit64 (n / 64 % 64) ∷ b'=' ∷ []
base64 (a ∷ b ∷ c ∷ rest) = chunk64 (a * 65536 + b * 256 + c) ++ base64 rest

unfoldable pub base64_into : Bytes → Str → Str
base64_into bytes out = out ++ base64 bytes

unfoldable pub value64 : ℕ → Option ℕ
value64 c =
    if leb b'A' c && leb c b'Z'
    then some (c - b'A')
    else if leb b'a' c && leb c b'z'
    then some (c - b'a' + 26)
    else if leb b'0' c && leb c b'9'
    then some (c - b'0' + 52)
    else if c == b'+'
    then some 62
    else if c == b'/'
    then some 63
    else none

infixl 5 ◌>>=◌
abbrev ◌>>=◌ {ℓ κ} : {A : Type ℓ} {B : Type κ} → Option A → (A → Option B) → Option B
none >>= f = none
some a >>= f = f a

abbrev only_if : Bool → Bytes → Option Bytes
only_if b bytes = if b then some bytes else none

-- The bytes of a last group of four, which may be padded; the bits that the padding drops are zero.
unfoldable pub last_group : ℕ → ℕ → ℕ → ℕ → Option Bytes
last_group p q r s = do
  w ← value64 p
  x ← value64 q
  if r == b'=' && s == b'=' then only_if (x % 16 == 0) ((w * 4 + x / 16) ∷ []) else do
    y ← value64 r
    if s == b'=' then only_if (y % 4 == 0) ((w * 4 + x / 16) ∷ (x % 16 * 16 + y / 4) ∷ []) else do
      z ← value64 s
      some ((w * 4 + x / 16) ∷ (x % 16 * 16 + y / 4) ∷ (y % 4 * 64 + z) ∷ [])

unfoldable pub group : ℕ → ℕ → ℕ → ℕ → Option Bytes
group p q r s = do
  w ← value64 p
  x ← value64 q
  y ← value64 r
  z ← value64 s
  some ((w * 4 + x / 16) ∷ (x % 16 * 16 + y / 4) ∷ (y % 4 * 64 + z) ∷ [])

unfoldable pub decode64 : Str → Option Bytes
decode64 [] = some []
decode64 (p ∷ q ∷ r ∷ s ∷ []) = last_group p q r s
decode64 (p ∷ q ∷ r ∷ s ∷ t ∷ rest) = do
  bytes ← group p q r s
  more ← decode64 (t ∷ rest)
  some (bytes ++ more)
decode64 _ = none

value64-digit64 : (i : ℕ) → i < 64 → value64 (digit64 i) ≡ some i
unfolding value64 digit64
value64-digit64 i h = ground arith

digit64_ne : (i : ℕ) → i < 64 → (digit64 i == b'=') ≡ false
unfolding digit64
digit64_ne i h = ground arith

abbrev IsByte : ℕ → Type 0
IsByte b = b < 256

last_group-one :
    (a : ℕ)
    → a < 256
    → last_group (digit64 (a * 65536 / 262144 % 64)) (digit64 (a * 65536 / 4096 % 64)) b'=' b'='
      ≡ some (a ∷ [])
unfolding last_group
last_group-one a h =
    ground
      (arith, value64-digit64 (a * 65536 / 262144 % 64), value64-digit64 (a * 65536 / 4096 % 64))

last_group-two :
    (a b : ℕ)
    → a < 256
    → b < 256
    → (let n = a * 65536 + b * 256 in
        last_group
          (digit64 (n / 262144 % 64))
          (digit64 (n / 4096 % 64))
          (digit64 (n / 64 % 64))
          b'='
        ≡ some (a ∷ b ∷ []))
unfolding last_group
last_group-two a b h k =
    let n = a * 65536 + b * 256 in
    ground (
      arith,
      value64-digit64 (n / 262144 % 64),
      value64-digit64 (n / 4096 % 64),
      value64-digit64 (n / 64 % 64),
      digit64_ne (n / 64 % 64),
    )

module _ (a b c : ℕ) (ha : a < 256) (hb : b < 256) (hc : c < 256) where
  abbrev packed : ℕ
  packed = a * 65536 + b * 256 + c

  group-packed :
      group
        (digit64 (packed / 262144 % 64))
        (digit64 (packed / 4096 % 64))
        (digit64 (packed / 64 % 64))
        (digit64 (packed % 64))
      ≡ some (a ∷ b ∷ c ∷ [])
  unfolding group
  group-packed = ground (
    arith,
    value64-digit64 (packed / 262144 % 64),
    value64-digit64 (packed / 4096 % 64),
    value64-digit64 (packed / 64 % 64),
    value64-digit64 (packed % 64),
  )

  last_group-packed :
      last_group
        (digit64 (packed / 262144 % 64))
        (digit64 (packed / 4096 % 64))
        (digit64 (packed / 64 % 64))
        (digit64 (packed % 64))
      ≡ some (a ∷ b ∷ c ∷ [])
  unfolding last_group
  last_group-packed = ground (
    arith,
    value64-digit64 (packed / 262144 % 64),
    value64-digit64 (packed / 4096 % 64),
    value64-digit64 (packed / 64 % 64),
    value64-digit64 (packed % 64),
    digit64_ne (packed / 64 % 64),
    digit64_ne (packed % 64),
  )

base64-cons : (b : ℕ) (bs : Bytes) → (t : ℕ) × (u : Str) × (base64 (b ∷ bs) ≡ t ∷ u)
unfolding base64 chunk64
base64-cons a [] = (_, _, refl)
base64-cons a (b ∷ []) = (_, _, refl)
base64-cons a (b ∷ c ∷ rest) = (_, _, refl)

decode64-chunk64 :
    (a b c d : ℕ) (rest : Bytes)
    → a < 256
    → b < 256
    → c < 256
    → decode64 (base64 (d ∷ rest)) ≡ some (d ∷ rest)
    → decode64 (chunk64 (a * 65536 + b * 256 + c) ++ base64 (d ∷ rest))
      ≡ some (a ∷ b ∷ c ∷ d ∷ rest)
unfolding chunk64
decode64-chunk64 a b c d rest ha hb hc ih =
    let (t, u, e) = base64-cons d rest in
    rw e (unfold decode64 in rw (group-packed a b c ha hb hc) (rw (rw e at ih) refl))

-- The appended text decodes to the bytes, whatever bytes they are.
pub decode64-base64 : (bytes : Bytes) → All IsByte bytes → decode64 (base64 bytes) ≡ some bytes
unfolding base64
decode64-base64 [] h = unfold decode64 in refl
decode64-base64 (a ∷ []) h = unfold decode64 in last_group-one a h.0
decode64-base64 (a ∷ b ∷ []) h = unfold decode64 in last_group-two a b h.0 h.1.0
decode64-base64 (a ∷ b ∷ c ∷ []) h =
    unfold decode64 chunk64 in last_group-packed a b c h.0 h.1.0 h.1.1.0
decode64-base64 (a ∷ b ∷ c ∷ d ∷ rest) h =
    decode64-chunk64 a b c d rest h.0 h.1.0 h.1.1.0 (decode64-base64 (d ∷ rest) h.1.1.1)

digit64-IsPlain : (i : ℕ) → i < 64 → (digit64 i ≢ 34) × (digit64 i ≢ 92) × (32 ≤ digit64 i)
unfolding digit64
digit64-IsPlain i h = ground arith

abbrev IsPlain : ℕ → Type 0
IsPlain c = (c ≢ 34) × (c ≢ 92) × (32 ≤ c)

pad-IsPlain : IsPlain b'='
pad-IsPlain = ground arith

-- The text holds no quote, no backslash and no control char, so a JSON string may hold it as it is.
pub base64_chars : (bytes : Bytes) → All (λ c. (c ≢ 34) × (c ≢ 92) × (32 ≤ c)) (base64 bytes)
unfolding base64 chunk64
base64_chars [] = tt
base64_chars (a ∷ []) = (
  digit64-IsPlain _ (omega arith),
  (digit64-IsPlain _ (omega arith), (pad-IsPlain, (pad-IsPlain, tt))),
)
base64_chars (a ∷ b ∷ []) = (
  digit64-IsPlain _ (omega arith),
  (digit64-IsPlain _ (omega arith), (digit64-IsPlain _ (omega arith), (pad-IsPlain, tt))),
)
base64_chars (a ∷ b ∷ c ∷ rest) = (
  digit64-IsPlain _ (omega arith),
  (
    digit64-IsPlain _ (omega arith),
    (digit64-IsPlain _ (omega arith), (digit64-IsPlain _ (omega arith), base64_chars rest)),
  ),
)
