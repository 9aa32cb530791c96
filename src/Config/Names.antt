-- ===== src/Config/Names.antt =====
-- src/config.rs: the validators of names, `validate_prefix` and `validate_auto_group`.
use redis_event_stream_modul.Base.{
  utf8_char, ◌≢◌, Str, is_empty, find, as_bytes, length, ℕ, ◌≤◌, leb, ltb, ◌==◌, Bool, true, not,
  ◌&&◌, ◌||◌, [], ◌∷◌, Option, none, some, if◌then◌else◌, ◌≡◌, ◌↔◌, refl, arith, All,
}
use redis_event_stream_modul.Base.Result.{Result, ok, err}
use redis_event_stream_modul.Config.Error.{
  ConfigError, empty_prefix, prefix_too_long, bad_prefix_char, group_too_long, bad_group_char,
}

abbrev pub max_prefix_len : ℕ
max_prefix_len = 128

-- `A-Z a-z 0-9 : . _ -`, the alphabet of group names and of sanitized event names.
unfoldable pub is_name_char : ℕ → Bool
is_name_char c =
    leb b'A' c && leb c b'Z'
    || leb b'a' c && leb c b'z'
    || leb b'0' c && leb c b'9'
    || c == b':'
    || c == b'.'
    || c == b'_'
    || c == b'-'

-- That of stream prefixes has the braces too.
unfoldable pub is_prefix_char : ℕ → Bool
is_prefix_char c = is_name_char c || c == b'{' || c == b'}'

abbrev accept_unless : Option ℕ → (ℕ → ConfigError) → Result ConfigError (Unit {0})
accept_unless none e = ok tt
accept_unless (some bad) e = err (e bad)

unfoldable pub validate_prefix : Str → Result ConfigError (Unit {0})
validate_prefix prefix =
    if is_empty prefix
    then err empty_prefix
    else if ltb max_prefix_len (length (as_bytes prefix))
    then err prefix_too_long
    else accept_unless (find (λ c. not (is_prefix_char c)) prefix) bad_prefix_char

unfoldable pub validate_auto_group : Str → Result ConfigError (Unit {0})
validate_auto_group name =
    if is_empty name
    then ok tt
    else if ltb max_prefix_len (length (as_bytes name))
    then err group_too_long
    else accept_unless (find (λ c. not (is_name_char c)) name) bad_group_char

module _ (p : ℕ → Bool) where
  find_none→All : (s : Str) → find (λ c. not (p c)) s ≡ none → All (λ c. p c ≡ true) s
  unfolding find
  find_none→All [] h = tt
  find_none→All (c ∷ s) h = ground (arith, find_none→All s)

  All→find_none : (s : Str) → All (λ c. p c ≡ true) s → find (λ c. not (p c)) s ≡ none
  unfolding find
  All→find_none [] h = refl
  All→find_none (c ∷ s) h = ground (arith, All→find_none s)

-- A byte for each char: the names in the two alphabets are ASCII.
length-as_bytes : (s : Str) → All (λ c. is_prefix_char c ≡ true) s → length (as_bytes s) ≡ length s
unfolding as_bytes is_prefix_char is_name_char utf8_char
length-as_bytes [] h = refl
length-as_bytes (c ∷ s) h = ground (arith, length-as_bytes s)

All-is_name_char :
    (s : Str) → All (λ c. is_name_char c ≡ true) s → All (λ c. is_prefix_char c ≡ true) s
unfolding is_prefix_char
All-is_name_char [] h = tt
All-is_name_char (c ∷ s) h = (ground arith, All-is_name_char s h.1)

module _ (p : ℕ → Bool) (long : ConfigError) (bad : ℕ → ConfigError) (s : Str) (n : ℕ) where
  -- The two tests that the validators share, on a text of `n` bytes.
  abbrev checked : Result ConfigError (Unit {0})
  checked = if ltb max_prefix_len n then err long else accept_unless (find (λ c. not (p c)) s) bad

  checked_iff :
      (All (λ c. p c ≡ true) s → n ≡ length s)
      → (checked ≡ ok tt) ↔ ((length s ≤ 128) × All (λ c. p c ≡ true) s)
  checked_iff ascii = (
    λ h.
        (let a : All (λ c. p c ≡ true) s = find_none→All p s (ground arith) in
          (ground (arith, ascii a), a)),
    λ h. ground (arith, All→find_none p s h.1, ascii h.1),
  )

-- A stream prefix is accepted exactly when it is not empty, has at most 128 chars, and all of them
-- are in `A-Z a-z 0-9 : . _ - { }`.
pub validate_prefix_iff :
    (prefix : Str)
    → (validate_prefix prefix ≡ ok tt)
      ↔ ((prefix ≢ []) × (length prefix ≤ 128) × All (λ c. is_prefix_char c ≡ true) prefix)
unfolding validate_prefix is_empty
validate_prefix_iff [] = (λ h. absurd (cc h), λ h. absurd (h.0 refl))
validate_prefix_iff (c ∷ s) =
    let e =
      checked_iff is_prefix_char prefix_too_long bad_prefix_char (c ∷ s) _
        (length-as_bytes (c ∷ s)) in
    (λ h. (λ q. cc q, (e.0 h).0, (e.0 h).1), λ h. e.1 (h.1, h.2))

-- A group name is accepted exactly when it has at most 128 chars, all of them in
-- `A-Z a-z 0-9 : . _ -`; the empty name, which turns the feature off, is.
pub validate_auto_group_iff :
    (name : Str)
    → (validate_auto_group name ≡ ok tt)
      ↔ ((length name ≤ 128) × All (λ c. is_name_char c ≡ true) name)
unfolding validate_auto_group is_empty
validate_auto_group_iff [] = (λ h. (omega arith, tt), λ h. refl)
validate_auto_group_iff (c ∷ s) =
    checked_iff is_name_char group_too_long bad_group_char (c ∷ s) _
      (λ a. length-as_bytes (c ∷ s) (All-is_name_char (c ∷ s) a))
