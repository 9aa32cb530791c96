-- ===== src/Examples/Config.antt =====
-- src/config.rs: the configuration theorems at concrete texts.
use redis_event_stream_modul.Base.{
  text, trim_start, is_whitespace, is_empty, split_first, split_once, any, parse_unsigned,
  parse_signed, read_nat, read_digits, ◌=s=◌, split, trim, as_bytes, length, pos, Bool, false, [],
  ◌∷◌, map, some, ◌≡◌, refl,
}
use redis_event_stream_modul.Base.Result.{for_each, ok, any_of, first_error, error_of}
use redis_event_stream_modul.Config.Filter.{
  ParsedFilter, matches, parse_filter, generic, string, filter_token, class_token, strip_at,
  class_bit,
}
use redis_event_stream_modul.Config.Filter.Laws.{
  matches-parse_filter, parse_filter-error, token_names, token_error,
}
use redis_event_stream_modul.Config.KeyFilter.{
  ParsedKeyFilter, matches_key, token_takes, parse_key_filter, key_token, matches-parse_key_filter,
}
use redis_event_stream_modul.Config.SourceDbs.{
  ParsedDbFilter, matches_db, token_takes_db, parse_source_dbs, db_token, matches-parse_source_dbs,
}
use redis_event_stream_modul.Config.Overrides.{
  override_token, parse_override, parse_cap, parse_maxlen_overrides, effective_maxlen, IsNonneg,
  effective_maxlen-IsNonneg,
}
use redis_event_stream_modul.Config.Glob.{glob_loop, glob_match-total}

abbrev some_filter : ParsedFilter
some_filter = record { star = false; classes = string ∷ []; names = text "del" ∷ [] }

parsed_filter : parse_filter (text "del,@string") ≡ ok some_filter
unfolding parse_filter for_each filter_token class_token strip_at class_bit split split_first trim
    trim_start is_whitespace is_empty any ◌=s=◌
parsed_filter = refl

matches-parse_filter_example :
    matches some_filter (generic ∷ []) (text "del")
    ≡ any_of (token_names (generic ∷ []) (text "del")) (map trim (split b',' (text "del,@string")))
matches-parse_filter_example =
    matches-parse_filter (generic ∷ []) (text "del") (text "del,@string") some_filter parsed_filter

parse_filter-error_example :
    error_of (parse_filter (text "del,@nope"))
    ≡ first_error token_error (map trim (split b',' (text "del,@nope")))
parse_filter-error_example = parse_filter-error (text "del,@nope")

abbrev some_key_filter : ParsedKeyFilter
some_key_filter = record { star = false; patterns = as_bytes (text "a*") ∷ [] }

parsed_key_filter : parse_key_filter (text "a*") ≡ ok some_key_filter
unfolding parse_key_filter for_each key_token split split_first trim trim_start is_whitespace
    is_empty any ◌=s=◌
parsed_key_filter = refl

matches-parse_key_filter_example :
    matches_key some_key_filter (text "ab")
    ≡ any_of (token_takes (text "ab")) (map trim (split b',' (text "a*")))
matches-parse_key_filter_example =
    matches-parse_key_filter (text "ab") (text "a*") some_key_filter parsed_key_filter

abbrev some_dbs : ParsedDbFilter
some_dbs = record { star = false; dbs = 7 ∷ [] }

parsed_dbs : parse_source_dbs (text "7") ≡ ok some_dbs
unfolding parse_source_dbs for_each db_token split split_first trim trim_start is_whitespace
    is_empty any ◌=s=◌ parse_unsigned read_nat read_digits
parsed_dbs = refl

matches-parse_source_dbs_example :
    matches_db some_dbs (pos 7) ≡ any_of (token_takes_db (pos 7)) (map trim (split b',' (text "7")))
matches-parse_source_dbs_example = matches-parse_source_dbs (pos 7) (text "7") some_dbs parsed_dbs

parsed_overrides : parse_maxlen_overrides (text "set=7") ≡ ok ((text "set", pos 7) ∷ [])
unfolding parse_maxlen_overrides for_each override_token parse_override parse_cap split split_first
    split_once trim trim_start is_whitespace is_empty any ◌=s=◌ parse_signed read_nat read_digits
parsed_overrides = refl

effective_maxlen-IsNonneg_example :
    IsNonneg (effective_maxlen ((text "set", pos 7) ∷ []) (text "set") (pos 100))
effective_maxlen-IsNonneg_example =
    effective_maxlen-IsNonneg (text "set=7") ((text "set", pos 7) ∷ []) (text "set") (pos 100)
      parsed_overrides tt

glob_match-total_example :
    (b k : Bool) × (glob_loop (length (text "a*[b-d]")) 0 (text "a*[b-d]") (text "axxc") false
      ≡ some (b, k))
glob_match-total_example = glob_match-total (text "a*[b-d]") (text "axxc")
