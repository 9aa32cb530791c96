-- ===== src/Config/KeyFilter.antt =====
-- src/config.rs: the key filter, `parse_key_filter` and `ParsedKeyFilter`.
use redis_event_stream_modul.Base.{
  Str, Bytes, text, trim, split, is_empty, as_bytes, ◌=s=◌, Bool, true, false, ◌||◌, List, [], ◌∷◌,
  ◌++◌, map, if◌then◌else◌, ◌≡◌, refl, arith,
}
use redis_event_stream_modul.Base.Result.{Result, ok, err, for_each, any_of, for_each-view}
use redis_event_stream_modul.Config.Error.{ConfigError, empty_key_pattern}
use redis_event_stream_modul.Config.Glob.{glob_match}

pub record ParsedKeyFilter : Type 0 where
  pub star : Bool
  pub patterns : List Bytes

unfoldable pub matches_key : ParsedKeyFilter → Bytes → Bool
matches_key f key = f.star || any_of (λ p. glob_match p key) f.patterns

abbrev pub default_key_filter : ParsedKeyFilter
default_key_filter = record { star = false; patterns = [] }

unfoldable pub key_token : ParsedKeyFilter → Str → Result ConfigError ParsedKeyFilter
key_token f token =
    if is_empty token
    then err empty_key_pattern
    else if token =s= text "*"
    then ok (record f { star = true })
    else ok (record f { patterns = f.patterns ++ as_bytes token ∷ [] })

unfoldable pub parse_key_filter : Str → Result ConfigError ParsedKeyFilter
parse_key_filter s = for_each key_token default_key_filter (map trim (split b',' s))

any_of-append {ℓ} :
    {A : Type ℓ} (p : A → Bool) (xs ys : List A)
    → any_of p (xs ++ ys) ≡ (any_of p xs || any_of p ys)
any_of-append p [] ys = refl
any_of-append p (x ∷ xs) ys = ground (arith, any_of-append p xs ys)

-- A bare `*` takes every key, and another token the keys that it matches as a glob.
unfoldable pub token_takes : Bytes → Str → Bool
token_takes key token = if token =s= text "*" then true else glob_match (as_bytes token) key

key_token-matches :
    (key : Bytes) (f : ParsedKeyFilter) (token : Str) (g : ParsedKeyFilter)
    → key_token f token ≡ ok g
    → matches_key g key ≡ (matches_key f key || token_takes key token)
unfolding key_token matches_key token_takes
key_token-matches key f token g h =
    ground (arith, any_of-append (λ p. glob_match p key) f.patterns (as_bytes token ∷ []))

-- An accepted key filter takes a key exactly when one of its trimmed tokens does: the patterns are
-- joined by or.
pub matches-parse_key_filter :
    (key : Bytes) (s : Str) (f : ParsedKeyFilter)
    → parse_key_filter s ≡ ok f
    → matches_key f key ≡ any_of (token_takes key) (map trim (split b',' s))
unfolding parse_key_filter matches_key
matches-parse_key_filter key s f h =
    for_each-view key_token (λ g. matches_key g key) (token_takes key) (key_token-matches key)
      default_key_filter (map trim (split b',' s)) f h
