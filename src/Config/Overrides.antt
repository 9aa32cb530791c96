-- ===== src/Config/Overrides.antt =====
-- src/config.rs: the per-event caps, `parse_maxlen_overrides` and `effective_maxlen`.
use mathlib.Core.Path.{subst}
use redis_event_stream_modul.Base.{
  Bool-cases, inl, inr, inr, Bool-cases, inl, Str, trim, split, split_once, is_empty, parse_signed,
  ◌=s=◌, ◌^◌, ℤ, pos, negsuc, List, [], ◌∷◌, map, Option, none, some, if◌then◌else◌, ◌≡◌, refl,
  arith, All,
}
use redis_event_stream_modul.Base.Result.{
  Result, ok, err, for_each, ◌>>=◌, for_each-inv, Result-cases,
}
use redis_event_stream_modul.Config.Error.{
  ConfigError, empty_override_token, no_equals, no_event_name, not_a_cap, negative_cap,
}

-- `HashMap<String, i64>`: an insertion goes in front, and a lookup takes the first entry.
abbrev pub Overrides : Type 0
Overrides = List (Str × ℤ)

unfoldable pub lookup : Overrides → Str → Option ℤ
lookup [] k = none
lookup ((j, v) ∷ m) k = if j =s= k then some v else lookup m k

-- The cap after the `=`: an `i64` that is not negative.
unfoldable pub parse_cap : Str → Str → Result ConfigError ℤ
parse_cap name cap_s = elim (parse_signed (2 ^ 63) cap_s) [
  | none ↦ err (not_a_cap name)
  | some (pos n) ↦ ok (pos n)
  | some (negsuc n) ↦ err (negative_cap name (negsuc n))
]

-- A token as an event name and its cap.
unfoldable pub parse_override : Str → Result ConfigError (Str × ℤ)
parse_override token =
    if is_empty token then err empty_override_token else elim (split_once b'=' token) [
      | none ↦ err (no_equals token)
      | some (name, cap_s) ↦
          if is_empty (trim name)
          then err (no_event_name token)
          else (do cap ← parse_cap (trim name) (trim cap_s); ok (trim name, cap))
    ]

unfoldable pub override_token : Overrides → Str → Result ConfigError Overrides
override_token m token = do entry ← parse_override token; ok (entry ∷ m)

unfoldable pub parse_maxlen_overrides : Str → Result ConfigError Overrides
parse_maxlen_overrides s =
    if is_empty (trim s) then ok [] else for_each override_token [] (map trim (split b',' s))

unfoldable pub effective_maxlen : Overrides → Str → ℤ → ℤ
effective_maxlen overrides suffix global = elim (lookup overrides suffix) [
  | none ↦ global
  | some cap ↦ cap
]

abbrev pub IsNonneg : ℤ → Type 0
IsNonneg (pos n) = Unit {0}
IsNonneg (negsuc n) = ⊥

-- No cap of the map is negative.
abbrev pub IsCapped : Overrides → Type 0
IsCapped = All (λ e. IsNonneg e.1)

parse_cap-IsNonneg : (name s : Str) (c : ℤ) → parse_cap name s ≡ ok c → IsNonneg c
unfolding parse_cap
parse_cap-IsNonneg name s c h = ground arith

parse_override-IsNonneg : (token : Str) (e : Str × ℤ) → parse_override token ≡ ok e → IsNonneg e.1
unfolding parse_override
parse_override-IsNonneg token e h =
    elim (split_once b'=' token) as (λ o. split_once b'=' token ≡ o → IsNonneg e.1) [
      | none ↦ ground arith
      | some (name, cap_s) ↦ ground (arith, parse_cap-IsNonneg (trim name) (trim cap_s) e.1)
    ]
      refl

override_token-IsCapped :
    (m : Overrides) (token : Str) (m' : Overrides)
    → IsCapped m
    → override_token m token ≡ ok m'
    → IsCapped m'
unfolding override_token
override_token-IsCapped m token m' c h = elim (Result-cases (parse_override token)) [
  | inl (e, p) ↦
      subst IsCapped {x = e ∷ m} {y = m'} (ground arith) (parse_override-IsNonneg token e p, c)
  | inr (e, p) ↦ absurd (ground arith)
]

pub parse_maxlen_overrides-IsCapped :
    (s : Str) (m : Overrides) → parse_maxlen_overrides s ≡ ok m → IsCapped m
unfolding parse_maxlen_overrides
parse_maxlen_overrides-IsCapped s m h = elim (Bool-cases (is_empty (trim s))) [
  | inl e ↦ subst IsCapped {x = []} {y = m} (ground arith) tt
  | inr e ↦
      for_each-inv override_token IsCapped override_token-IsCapped [] (map trim (split b',' s)) m tt
        (rw e at h)
]

effective_maxlen-IsCapped :
    (m : Overrides) (suffix : Str) (global : ℤ)
    → IsCapped m
    → IsNonneg global
    → IsNonneg (effective_maxlen m suffix global)
unfolding effective_maxlen lookup
effective_maxlen-IsCapped [] suffix global c g = g
effective_maxlen-IsCapped ((j, v) ∷ m) suffix global c g =
    ground (arith, effective_maxlen-IsCapped m suffix global c.1 g)

-- With overrides that the parser accepted and a global cap that is not negative, the cap of every stream
-- is not negative.
pub effective_maxlen-IsNonneg :
    (s : Str) (m : Overrides) (suffix : Str) (global : ℤ)
    → parse_maxlen_overrides s ≡ ok m
    → IsNonneg global
    → IsNonneg (effective_maxlen m suffix global)
effective_maxlen-IsNonneg s m suffix global h g =
    effective_maxlen-IsCapped m suffix global (parse_maxlen_overrides-IsCapped s m h) g
