-- ===== src/Config/Error.antt =====
-- src/config.rs: the errors that a configuration setter returns, one constructor for each message,
-- with what the message shows.
use redis_event_stream_modul.Base.{Str, ℕ, ℤ, Bool}

pub data ConfigError : Type 0 where
  not_utf8 : ConfigError
  -- `parse_filter`
  empty_filter_token : ConfigError
  uncapturable unknown_class whitespace_in_name : Str → ConfigError
  -- `FilterConfig::set`: whether `@missed`, `@new` are named and not subscribed
  not_subscribed : Bool → Bool → ConfigError
  -- `parse_key_filter`, `parse_source_dbs`
  empty_key_pattern empty_db_token : ConfigError
  not_a_db : Str → ConfigError
  -- `parse_maxlen_overrides`
  empty_override_token : ConfigError
  no_equals no_event_name not_a_cap : Str → ConfigError
  negative_cap : Str → ℤ → ConfigError
  -- `validate_prefix`, `validate_auto_group`
  empty_prefix prefix_too_long group_too_long : ConfigError
  bad_prefix_char bad_group_char : ℕ → ConfigError
  -- the numeric settings and `cluster-streams`
  -- the name and the maximum of an asynchronous setting, and the value
  out_of_range : Str → ℤ → ℤ → ConfigError
  bad_checkpoint_ms negative_maxlen negative_max_streams negative_retention_ms : ℤ → ConfigError
  not_a_cluster_mode : Str → ConfigError
