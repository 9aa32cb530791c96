-- ===== src/Config/Filter/Laws.antt =====
-- src/config.rs: what an accepted event filter matches, and which texts are refused.
use redis_event_stream_modul.Base.{
  Str, text, trim, split, is_empty, is_whitespace, any, ◌=s=◌, Bool, true, false, ◌||◌, [], ◌∷◌,
  ◌++◌, map, Option, none, some, if◌then◌else◌, ◌≡◌, refl, arith,
}
use redis_event_stream_modul.Base.Result.{
  ok, error_of, any_of, first_error, for_each-view, for_each-error,
}
use redis_event_stream_modul.Config.Error.{
  ConfigError, empty_filter_token, uncapturable, unknown_class, whitespace_in_name,
}
use redis_event_stream_modul.Config.Filter.{
  Class, NotifyEvent, has_class, intersects, ParsedFilter, default_filter, has_name, matches,
  class_bit, uncapturable_class, strip_at, class_token, filter_token, parse_filter,
}

-- What the grammar says of one token: `*` names all events, `@class` those of the class, and any
-- other token the event of that name.
unfoldable pub token_names : NotifyEvent → Str → Str → Bool
token_names event_type event token = if token =s= text "*" then true else elim (strip_at token) [
  | some class ↦ elim (class_bit class) [ some bit ↦ has_class event_type bit | none ↦ false ]
  | none ↦ token =s= event
]

-- The error that a token deserves, if any.
unfoldable pub token_error : Str → Option ConfigError
token_error token =
    if is_empty token
    then some empty_filter_token
    else if token =s= text "*"
    then none
    else elim (strip_at token) [
      | some class ↦ elim (class_bit class) [
        | some bit ↦ none
        | none ↦
            if uncapturable_class class
            then some (uncapturable class)
            else some (unknown_class class)
      ]
      | none ↦ if any is_whitespace token then some (whitespace_in_name token) else none
    ]

intersects-append :
    (cs ds : NotifyEvent) (e : NotifyEvent)
    → intersects (cs ++ ds) e ≡ (intersects cs e || intersects ds e)
unfolding intersects
intersects-append [] ds e = refl
intersects-append (c ∷ cs) ds e = ground (arith, intersects-append cs ds e)

intersects-one : (c : Class) (e : NotifyEvent) → intersects (c ∷ []) e ≡ has_class e c
unfolding intersects
intersects-one c e = ground arith

module _ (event_type : NotifyEvent) (event : Str) where
  filter_token-matches :
      (f : ParsedFilter) (token : Str) (g : ParsedFilter)
      → filter_token f token ≡ ok g
      → matches g event_type event
        ≡ (matches f event_type event || token_names event_type event token)
  unfolding filter_token matches token_names has_name class_token
  filter_token-matches f token g h = grind (arith, intersects-append, intersects-one)

  -- An accepted filter matches an event exactly when one of its comma-separated, trimmed tokens
  -- names it.
  pub matches-parse_filter :
      (s : Str) (f : ParsedFilter)
      → parse_filter s ≡ ok f
      → matches f event_type event ≡ any_of (token_names event_type event) (map trim (split b',' s))
  unfolding parse_filter matches intersects has_name
  matches-parse_filter s f h =
      for_each-view filter_token (λ g. matches g event_type event) (token_names event_type event)
        filter_token-matches default_filter (map trim (split b',' s)) f h

filter_token-error :
    (f : ParsedFilter) (token : Str) → error_of (filter_token f token) ≡ token_error token
unfolding filter_token token_error class_token
filter_token-error f token = ground arith

-- `parse_filter` refuses a text exactly when one of its trimmed tokens is empty, names an unknown or
-- uncapturable class or is a name with whitespace, and its error is that of the first such token.
pub parse_filter-error :
    (s : Str) → error_of (parse_filter s) ≡ first_error token_error (map trim (split b',' s))
unfolding parse_filter
parse_filter-error s = for_each-error filter_token token_error filter_token-error default_filter _
