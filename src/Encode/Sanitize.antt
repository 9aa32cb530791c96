-- ===== src/Encode/Sanitize.antt =====
-- src/capture.rs: `sanitize`, from an event name to the suffix of its stream.
use mathlib.Core.Path.{subst}
use redis_event_stream_modul.Base.{
  Str, length, take, take_all, length-take, length-map, ℕ, ◌≤◌, true, [], ◌∷◌, map, if◌then◌else◌,
  ◌≡◌, ◌≢◌, ◌↔◌, refl, arith, All,
}
use redis_event_stream_modul.Config.Names.{is_name_char}

abbrev pub max_event_name_len : ℕ
max_event_name_len = 128

unfoldable pub sanitize_char : ℕ → ℕ
sanitize_char c = if is_name_char c then c else b'_'

unfoldable pub sanitize : Str → Str
sanitize event = map sanitize_char (take max_event_name_len event)

is_name_char-sanitize_char : (c : ℕ) → is_name_char (sanitize_char c) ≡ true
unfolding sanitize_char is_name_char
is_name_char-sanitize_char c = ground arith

map-sanitize_char-All : (s : Str) → All (λ c. is_name_char c ≡ true) (map sanitize_char s)
map-sanitize_char-All [] = tt
map-sanitize_char-All (c ∷ s) = (is_name_char-sanitize_char c, map-sanitize_char-All s)

map-sanitize_char_id : (s : Str) → All (λ c. is_name_char c ≡ true) s → map sanitize_char s ≡ s
unfolding sanitize_char
map-sanitize_char_id [] h = refl
map-sanitize_char_id (c ∷ s) h = ground (arith, map-sanitize_char_id s h.1)

no_hash : (c : ℕ) → is_name_char c ≡ true → c ≢ b'#'
unfolding is_name_char
no_hash c h = ground arith

All-no_hash : (s : Str) → All (λ c. is_name_char c ≡ true) s → All (λ c. c ≢ b'#') s
All-no_hash [] h = tt
All-no_hash (c ∷ s) h = (no_hash c h.0, All-no_hash s h.1)

-- Whatever the event name, the suffix has at most 128 chars, all in `A-Z a-z 0-9 _ . : -`; so it
-- holds no `#` and cannot name one of the module's own streams.
pub sanitize-All :
    (event : Str)
    → (length (sanitize event) ≤ 128)
      × All (λ c. is_name_char c ≡ true) (sanitize event)
      × All (λ c. c ≢ b'#') (sanitize event)
unfolding sanitize
sanitize-All event = (
  omega (arith, length-map (take 128 event) sanitize_char, length-take 128 event),
  map-sanitize_char-All (take 128 event),
  All-no_hash _ (map-sanitize_char-All (take 128 event)),
)

-- A name passes through unchanged exactly when it is such a suffix already.
pub sanitize_iff :
    (event : Str)
    → (sanitize event ≡ event) ↔ ((length event ≤ 128) × All (λ c. is_name_char c ≡ true) event)
unfolding sanitize
sanitize_iff event = (
  λ e.
      let (short, fits, _) = sanitize-All event in
      (subst (λ s. length s ≤ 128) e short, subst (All (λ c. is_name_char c ≡ true)) e fits),
  λ (short, fits). rw (take_all 128 event short) (map-sanitize_char_id event fits),
)

-- Sanitizing twice is sanitizing once.
pub sanitize_idem : (event : Str) → sanitize (sanitize event) ≡ sanitize event
sanitize_idem event = let (short, fits, _) = sanitize-All event in (sanitize_iff _).1 (short, fits)
