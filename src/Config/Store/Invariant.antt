-- ===== src/Config/Store/Invariant.antt =====
-- src/config.rs: what every sequence of setter calls keeps.
use redis_event_stream_modul.Base.{
  as_bytes, utf8_char, Str, Bytes, text, split, split_first, trim, trim_start, is_whitespace, any,
  find, is_empty, ◌=s=◌, ℤ, pos, leb_ℤ, ltb_ℤ, true, false, not, ◌&&◌, ◌||◌, List, [], ◌∷◌, ◌≡◌,
  refl, inl, inr, arith,
}
use redis_event_stream_modul.Base.Result.{Result, ok, err, ◌>>=◌, Result-cases, for_each}
use redis_event_stream_modul.Config.Error.{ConfigError}
use redis_event_stream_modul.Config.Filter.{parse_filter, filter_token, strip_at}
use redis_event_stream_modul.Config.KeyFilter.{parse_key_filter, key_token}
use redis_event_stream_modul.Config.SourceDbs.{parse_source_dbs, db_token}
use redis_event_stream_modul.Config.Overrides.{parse_maxlen_overrides}
use redis_event_stream_modul.Config.Names.{
  validate_prefix, validate_auto_group, is_prefix_char, is_name_char,
}
use redis_event_stream_modul.Config.Store
use redis_event_stream_modul.Config.Store.{
  Configs, Change, apply, try_as_str, in_positive_range, async_positive, max_queue_capacity,
  max_batch_size, max_wait_ms, min_control_checkpoint_ms, max_control_checkpoint_ms, is_zero,
  set_control_checkpoint_ms, set_maxlen, set_max_streams, set_retention_ms, check_subscribed,
  set_filter, set_key_filter, set_source_dbs, set_maxlen_overrides, set_prefix, set_cluster_streams,
  set_auto_group, after, configure, default_configs,
}

-- The numeric settings are in their ranges.
abbrev pub InRanges : Configs → Type 0
InRanges c =
    (in_positive_range max_queue_capacity c.async_queue_capacity ≡ true)
    × (in_positive_range max_batch_size c.async_batch_size ≡ true)
    × (in_positive_range max_wait_ms c.async_max_wait_ms ≡ true)
    × ((is_zero c.control_checkpoint_ms
          || leb_ℤ min_control_checkpoint_ms c.control_checkpoint_ms
            && leb_ℤ c.control_checkpoint_ms max_control_checkpoint_ms)
        ≡ true)
    × (ltb_ℤ c.maxlen (pos 0) ≡ false)
    × (ltb_ℤ c.max_streams (pos 0) ≡ false)
    × (ltb_ℤ c.retention_ms (pos 0) ≡ false)

-- The parsed form of each setting is that of the text that `CONFIG GET` shows.
abbrev pub AreParsed : Configs → Type 0
AreParsed c =
    (parse_filter c.filter_raw ≡ ok c.filter)
    × (parse_key_filter c.key_filter_raw ≡ ok c.key_filter)
    × (parse_source_dbs c.source_dbs_raw ≡ ok c.source_dbs)
    × (parse_maxlen_overrides c.overrides_raw ≡ ok c.overrides)

-- The names are acceptable, and the gate of the auto group says whether there is one.
abbrev pub AreNamed : Configs → Type 0
AreNamed c =
    (validate_prefix c.prefix ≡ ok tt)
    × ((c.cluster_streams =s= text "refuse" || c.cluster_streams =s= text "per-node") ≡ true)
    × (validate_auto_group c.auto_group ≡ ok tt)
    × (c.auto_group_enabled ≡ not (is_empty c.auto_group))

-- The filter names no class that the subscription of the load lacks.
abbrev pub IsSubscribed : Configs → Type 0
IsSubscribed c = check_subscribed c.subscribed_extra c.filter ≡ ok tt

abbrev pub IsValid : Configs → Type 0
IsValid c = InRanges c × AreParsed c × AreNamed c × IsSubscribed c

-- A property of the settings that a setter leaves, if it accepts.
abbrev pub IfAccepted : Result ConfigError Configs → Type 0
IfAccepted (ok c) = IsValid c
IfAccepted (err e) = Unit

set_maxlen-IsValid : (v : ℤ) (c : Configs) → IsValid c → IfAccepted (set_maxlen v c)
unfolding set_maxlen
set_maxlen-IsValid v c h = ground arith

set_max_streams-IsValid : (v : ℤ) (c : Configs) → IsValid c → IfAccepted (set_max_streams v c)
unfolding set_max_streams
set_max_streams-IsValid v c h = ground arith

set_retention_ms-IsValid : (v : ℤ) (c : Configs) → IsValid c → IfAccepted (set_retention_ms v c)
unfolding set_retention_ms
set_retention_ms-IsValid v c h = ground arith

set_control_checkpoint_ms-IsValid :
    (v : ℤ) (c : Configs) → IsValid c → IfAccepted (set_control_checkpoint_ms v c)
unfolding set_control_checkpoint_ms
set_control_checkpoint_ms-IsValid v c h = ground arith

-- A setter of a text: the text is UTF-8, or the call is refused.
with_str :
    (val : Bytes) (f : Str → Result ConfigError Configs)
    → ((s : Str) → IfAccepted (f s))
    → IfAccepted (try_as_str val >>= f)
with_str val f h = elim (Result-cases (try_as_str val)) [
  | inl (s, e) ↦ rw e (h s)
  | inr (_, e) ↦ rw e tt
]

set_key_filter-IsValid : (val : Bytes) (c : Configs) → IsValid c → IfAccepted (set_key_filter val c)
unfolding set_key_filter
set_key_filter-IsValid val c h = with_str val _ (λ s. elim (Result-cases (parse_key_filter s)) [
  | inl (p, e) ↦ rw e (ground arith)
  | inr (_, e) ↦ rw e tt
])

set_source_dbs-IsValid : (val : Bytes) (c : Configs) → IsValid c → IfAccepted (set_source_dbs val c)
unfolding set_source_dbs
set_source_dbs-IsValid val c h = with_str val _ (λ s. elim (Result-cases (parse_source_dbs s)) [
  | inl (p, e) ↦ rw e (ground arith)
  | inr (_, e) ↦ rw e tt
])

set_maxlen_overrides-IsValid :
    (val : Bytes) (c : Configs) → IsValid c → IfAccepted (set_maxlen_overrides val c)
unfolding set_maxlen_overrides
set_maxlen_overrides-IsValid val c h = with_str val _ (λ s.
    elim (Result-cases (parse_maxlen_overrides s)) [
      | inl (p, e) ↦ rw e (ground arith)
      | inr (_, e) ↦ rw e tt
    ])

set_prefix-IsValid : (val : Bytes) (c : Configs) → IsValid c → IfAccepted (set_prefix val c)
unfolding set_prefix
set_prefix-IsValid val c h = with_str val _ (λ s. elim (Result-cases (validate_prefix s)) [
  | inl (p, e) ↦ rw e (ground arith)
  | inr (_, e) ↦ rw e tt
])

set_auto_group-IsValid : (val : Bytes) (c : Configs) → IsValid c → IfAccepted (set_auto_group val c)
unfolding set_auto_group
set_auto_group-IsValid val c h = with_str val _ (λ s. elim (Result-cases (validate_auto_group s)) [
  | inl (p, e) ↦ rw e (ground arith)
  | inr (_, e) ↦ rw e tt
])

set_cluster_streams-IsValid :
    (val : Bytes) (c : Configs) → IsValid c → IfAccepted (set_cluster_streams val c)
unfolding set_cluster_streams
set_cluster_streams-IsValid val c h = with_str val _ (λ s. ground arith)

set_filter-IsValid : (val : Bytes) (c : Configs) → IsValid c → IfAccepted (set_filter val c)
unfolding set_filter
set_filter-IsValid val c h = with_str val _ (λ s. elim (Result-cases (parse_filter s)) [
  | inl (p, e) ↦ rw e (elim (Result-cases (check_subscribed c.subscribed_extra p)) [
    | inl (u, k) ↦ rw k (ground arith)
    | inr (_, k) ↦ rw k tt
  ])
  | inr (_, e) ↦ rw e tt
])

apply-IfAccepted : (change : Change) (c : Configs) → IsValid c → IfAccepted (apply change c)
unfolding apply async_positive
apply-IfAccepted (Store.async_queue_capacity v) c h = ground arith
apply-IfAccepted (Store.async_batch_size v) c h = ground arith
apply-IfAccepted (Store.async_max_wait_ms v) c h = ground arith
apply-IfAccepted (Store.control_checkpoint_ms v) c h = set_control_checkpoint_ms-IsValid v c h
apply-IfAccepted (Store.maxlen v) c h = set_maxlen-IsValid v c h
apply-IfAccepted (Store.max_streams v) c h = set_max_streams-IsValid v c h
apply-IfAccepted (Store.retention_ms v) c h = set_retention_ms-IsValid v c h
apply-IfAccepted (Store.events val) c h = set_filter-IsValid val c h
apply-IfAccepted (Store.key_filter val) c h = set_key_filter-IsValid val c h
apply-IfAccepted (Store.source_dbs val) c h = set_source_dbs-IsValid val c h
apply-IfAccepted (Store.maxlen_overrides val) c h = set_maxlen_overrides-IsValid val c h
apply-IfAccepted (Store.stream_prefix val) c h = set_prefix-IsValid val c h
apply-IfAccepted (Store.cluster_streams val) c h = set_cluster_streams-IsValid val c h
apply-IfAccepted (Store.auto_group val) c h = set_auto_group-IsValid val c h

after-IsValid :
    (r : Result ConfigError Configs) (c : Configs) → IsValid c → IfAccepted r → IsValid (after r c)
unfolding after
after-IsValid (ok next) c h k = k
after-IsValid (err e) c h k = h

-- Whatever setters are called with whatever values, some of them refused, the settings stay valid: each
-- number is in its range, the parsed form of each filter is that of its text, the prefix, the cluster
-- mode and the group name are acceptable, the gate of the auto group is open exactly when there is a
-- group, and the event filter names no class that the load did not subscribe.
pub configure-IsValid :
    (changes : List Change) (c : Configs) → IsValid c → IsValid (configure changes c)
unfolding configure
configure-IsValid [] c h = h
configure-IsValid (change ∷ changes) c h =
    configure-IsValid changes (after (apply change c) c)
      (after-IsValid (apply change c) c h (apply-IfAccepted change c h))

pub default_configs-IsValid : IsValid default_configs
unfolding parse_filter for_each split split_first filter_token is_empty trim trim_start
    is_whitespace ◌=s=◌ strip_at any parse_key_filter key_token parse_source_dbs db_token
    parse_maxlen_overrides validate_prefix validate_auto_group find is_prefix_char is_name_char
    as_bytes utf8_char check_subscribed
default_configs-IsValid = (
  (refl, refl, refl, refl, refl, refl, refl),
  (refl, refl, refl, refl),
  (refl, refl, refl, refl),
  refl,
)
