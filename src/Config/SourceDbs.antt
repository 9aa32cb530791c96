-- ===== src/Config/SourceDbs.antt =====
-- src/config.rs: the source database filter, `parse_source_dbs` and `ParsedDbFilter`.
use redis_event_stream_modul.Base.{
  refl, Str, text, trim, split, is_empty, parse_unsigned, ◌=s=◌, ℕ, ◌-◌, ◌^◌, ◌==◌, ℤ, pos, negsuc,
  Bool, true, false, ◌||◌, List, [], ◌∷◌, map, none, some, if◌then◌else◌, ◌≡◌, ◌∙◌, arith,
}
use redis_event_stream_modul.Base.Result.{Result, ok, err, for_each, any_of, for_each-view}
use redis_event_stream_modul.Config.Error.{ConfigError, empty_db_token, not_a_db}

pub record ParsedDbFilter : Type 0 where
  pub star : Bool
  pub dbs : List ℕ

unfoldable pub has_db : List ℕ → ℕ → Bool
has_db [] db = false
has_db (d ∷ ds) db = d == db || has_db ds db

-- The test `db >= 0`, and the cast to `u32`.
unfoldable pub matches_db : ParsedDbFilter → ℤ → Bool
matches_db f (pos db) = f.star || has_db f.dbs db
matches_db f (negsuc n) = f.star

abbrev pub default_db_filter : ParsedDbFilter
default_db_filter = record { star = false; dbs = [] }

abbrev pub u32_max : ℕ
u32_max = 2 ^ 32 - 1

unfoldable pub db_token : ParsedDbFilter → Str → Result ConfigError ParsedDbFilter
db_token f token =
    if is_empty token
    then err empty_db_token
    else if token =s= text "*"
    then ok (record f { star = true })
    else elim (parse_unsigned u32_max token) [
      | none ↦ err (not_a_db token)
      | some db ↦ ok (record f { dbs = db ∷ f.dbs })
    ]

unfoldable pub parse_source_dbs : Str → Result ConfigError ParsedDbFilter
parse_source_dbs s = for_each db_token default_db_filter (map trim (split b',' s))

-- A bare `*` takes every database, and another token the database whose index it is.
unfoldable pub token_takes_db : ℤ → Str → Bool
token_takes_db db token = if token =s= text "*" then true else elim (parse_unsigned u32_max token) [
  | none ↦ false
  | some index ↦ elim db [ pos n ↦ index == n | negsuc n ↦ false ]
]

db_token-matches :
    (db : ℤ) (f : ParsedDbFilter) (token : Str) (g : ParsedDbFilter)
    → db_token f token ≡ ok g
    → matches_db g db ≡ (matches_db f db || token_takes_db db token)
unfolding db_token matches_db token_takes_db has_db
db_token-matches (pos n) f token g h = grind arith
db_token-matches (negsuc n) f token g h = grind arith

matches_db-default : (db : ℤ) (b : Bool) → (matches_db default_db_filter db || b) ≡ b
unfolding matches_db has_db
matches_db-default (pos n) b = refl
matches_db-default (negsuc n) b = refl

-- An accepted database filter takes a database exactly when one of its trimmed tokens is `*` or its
-- index; a negative index is taken by `*` alone.
pub matches-parse_source_dbs :
    (db : ℤ) (s : Str) (f : ParsedDbFilter)
    → parse_source_dbs s ≡ ok f
    → matches_db f db ≡ any_of (token_takes_db db) (map trim (split b',' s))
unfolding parse_source_dbs
matches-parse_source_dbs db s f h =
    for_each-view db_token (λ g. matches_db g db) (token_takes_db db) (db_token-matches db)
      default_db_filter (map trim (split b',' s)) f h
    ∙ matches_db-default db _
