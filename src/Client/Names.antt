-- ===== src/Client/Names.antt =====
-- crates/eventstream-client/src/lib.rs: `event_name` and `stream_tag`, and the names of the module's
-- streams under them.
use mathlib.Core.Path.{subst}
use mathlib.Core.List.{append_assoc}
use redis_event_stream_modul.Base.{
  any, is_digit, show_nat, show_digits-digits, Bool-cases, Option-cases, inl, inr, Str, text,
  split_once, ℕ, ◌==◌, true, false, [], ◌∷◌, ◌++◌, Option, none, some, if◌then◌else◌, ◌≡◌, ◌≢◌,
  refl, arith, All,
}
use redis_event_stream_modul.Redis.{Redis}
use redis_event_stream_modul.Cluster.Hash.{
  synthetic_tag, fallback_tag_for_slot, tag_index, table_fuel,
}
use redis_event_stream_modul.Cluster.Tags.{braced, usable, candidate_tag}
use redis_event_stream_modul.Config.Names.{is_name_char}
use redis_event_stream_modul.Encode.Sanitize.{sanitize, sanitize-All}

-- `str::strip_prefix`
unfoldable pub strip_prefix : Str → Str → Option Str
strip_prefix s [] = some s
strip_prefix [] (d ∷ p) = none
strip_prefix (c ∷ s) (d ∷ p) = let rest = strip_prefix s p in if c == d then rest else none

abbrev tail_of : Str → Option (Str × Str) → Str
tail_of rest none = rest
tail_of rest (some (_, r)) = r

-- Past the leading `{tag}`, where the name begins with one.
unfoldable pub without_tag : Str → Str
without_tag [] = []
without_tag (c ∷ rest) =
    if c == b'{' then tail_of (c ∷ rest) (split_once b'}' (c ∷ rest)) else c ∷ rest

abbrev pub map_some : {A B : Type 0} → (A → B) → Option A → Option B
map_some f none = none
map_some f (some a) = some (f a)

unfoldable pub event_name : Str → Str → Option Str
event_name prefix stream = map_some without_tag (strip_prefix stream prefix)

abbrev fst_of : Str × Str → Str
fst_of (tag, _) = tag

unfoldable pub tag_of : Option Str → Option Str
tag_of none = none
tag_of (some rest) = elim (strip_prefix rest (text "{")) [
  | none ↦ none
  | some r ↦ map_some fst_of (split_once b'}' r)
]

unfoldable pub stream_tag : Str → Str → Option Str
stream_tag prefix stream = tag_of (strip_prefix stream prefix)

pub strip_prefix-append : (p s : Str) → strip_prefix (p ++ s) p ≡ some s
unfolding strip_prefix
strip_prefix-append [] s = refl
strip_prefix-append (c ∷ p) s = ground (arith, strip_prefix-append p s)

split_once-append :
    (sep : ℕ) (a b : Str) → All (λ c. c ≢ sep) a → split_once sep (a ++ sep ∷ b) ≡ some (a, b)
unfolding split_once
split_once-append sep [] b h = ground arith
split_once-append sep (c ∷ a) b h = ground (arith, split_once-append sep a b h.1)

tagged_split :
    (tag suffix : Str)
    → All (λ c. c ≢ b'}') tag
    → split_once b'}' (braced tag ++ suffix) ≡ some (b'{' ∷ tag, suffix)
unfolding braced split_once
tagged_split tag suffix h =
    rw (append_assoc tag (b'}' ∷ []) suffix) (rw (split_once-append b'}' tag suffix h) refl)

event_name-braced :
    (prefix tag suffix : Str)
    → All (λ c. c ≢ b'}') tag
    → event_name prefix (prefix ++ (braced tag ++ suffix)) ≡ some suffix
unfolding event_name without_tag braced
event_name-braced prefix tag suffix h =
    rw (strip_prefix-append prefix (braced tag ++ suffix)) (rw (tagged_split tag suffix h) refl)

stream_tag-braced :
    (prefix tag suffix : Str)
    → All (λ c. c ≢ b'}') tag
    → stream_tag prefix (prefix ++ (braced tag ++ suffix)) ≡ some tag
unfolding stream_tag braced tag_of strip_prefix
stream_tag-braced prefix tag suffix h =
    rw (strip_prefix-append prefix (braced tag ++ suffix))
      (rw (append_assoc tag (b'}' ∷ []) suffix) (rw (split_once-append b'}' tag suffix h) refl))

abbrev NoBrace : Str → Type 0
NoBrace s = All (λ c. c ≢ b'}') s

any-NoBrace : (s : Str) → any (λ c. c == b'}') s ≡ false → NoBrace s
unfolding any
any-NoBrace [] h = tt
any-NoBrace (c ∷ s) h = (ground arith, any-NoBrace s (ground arith))

usable-NoBrace : (name tag : Str) → usable (some name) ≡ some tag → NoBrace tag
unfolding usable
usable-NoBrace name tag h = elim (Bool-cases (any (λ c. c == b'}') name)) [
  | inl e ↦ absurd (ground arith)
  | inr e ↦ subst NoBrace {x = name} {y = tag} (ground arith) (any-NoBrace name e)
]

digits-NoBrace : (s : Str) → All (λ c. is_digit c ≡ true) s → NoBrace s
digits-NoBrace [] h = tt
digits-NoBrace (c ∷ s) h = (ground arith, digits-NoBrace s h.1)

synthetic_tag-NoBrace : (i : ℕ) → NoBrace (synthetic_tag i)
unfolding synthetic_tag show_nat
synthetic_tag-NoBrace i = (ground arith, (ground arith, digits-NoBrace _ (show_digits-digits i i)))

fallback-NoBrace : (slot : ℕ) (tag : Str) → fallback_tag_for_slot slot ≡ some tag → NoBrace tag
unfolding fallback_tag_for_slot
fallback-NoBrace slot tag h = elim (Option-cases (tag_index table_fuel 0 slot)) [
  | inl e ↦ absurd (ground arith)
  | inr (i, e) ↦
      subst NoBrace {x = synthetic_tag i} {y = tag} (ground arith) (synthetic_tag-NoBrace i)
]

canonical-NoBrace : (name : Option Str) (tag : Str) → usable name ≡ some tag → NoBrace tag
unfolding usable
canonical-NoBrace none tag h = absurd (ground arith)
canonical-NoBrace (some name) tag h = usable-NoBrace name tag h

candidate_tag-NoBrace :
    {W : Type 0} (R : Redis W) (slot : ℕ) (tag : Str)
    → candidate_tag R slot ≡ some tag
    → NoBrace tag
unfolding candidate_tag
candidate_tag-NoBrace R slot tag h = elim (Option-cases R.canonical_name) [
  | inl e ↦ fallback-NoBrace slot tag (rw (e, candidate_tag) at h)
  | inr (canonical, e) ↦ canonical-NoBrace (canonical slot) tag (rw (e, candidate_tag) at h)
]

name-NoBrace : (s : Str) → All (λ c. is_name_char c ≡ true) s → without_tag s ≡ s
unfolding without_tag is_name_char
name-NoBrace [] h = refl
name-NoBrace (c ∷ s) h = ground arith

untagged-name : (s : Str) → All (λ c. is_name_char c ≡ true) s → tag_of (some s) ≡ none
unfolding tag_of strip_prefix is_name_char
untagged-name [] h = refl
untagged-name (c ∷ s) h = ground arith

-- The name that the module gives to the stream of an event reads back in the client: on a node that is
-- pinned to a tag that it may select, the tag and the suffix of the event; on one without a tag, no tag
-- and the suffix.
pub stream_tag-event_name :
    {W : Type 0} (R : Redis W) (slot : ℕ) (tag prefix event : Str)
    → candidate_tag R slot ≡ some tag
    → (stream_tag prefix (prefix ++ (braced tag ++ sanitize event)) ≡ some tag)
      × (event_name prefix (prefix ++ (braced tag ++ sanitize event)) ≡ some (sanitize event))
      × (stream_tag prefix (prefix ++ sanitize event) ≡ none)
      × (event_name prefix (prefix ++ sanitize event) ≡ some (sanitize event))
unfolding stream_tag event_name
stream_tag-event_name R slot tag prefix event h =
    let safe = (sanitize-All event).1 in
    (
      stream_tag-braced prefix tag (sanitize event) (candidate_tag-NoBrace R slot tag h),
      event_name-braced prefix tag (sanitize event) (candidate_tag-NoBrace R slot tag h),
      rw (strip_prefix-append prefix (sanitize event)) (untagged-name (sanitize event) safe),
      rw (strip_prefix-append prefix (sanitize event))
          (rw (name-NoBrace (sanitize event) safe) refl),
    )
