-- ===== src/Config/Store.antt =====
-- src/config.rs: the settings and their setters, which `CONFIG SET` and the arguments of the load call.
pub mod Invariant
use redis_event_stream_modul.Base.{
  Str, Bytes, text, from_utf8, is_empty, ◌=s=◌, ℤ, pos, leb_ℤ, ltb_ℤ, Bool, true, false, not, ◌&&◌,
  ◌||◌, List, [], ◌∷◌, ◌++◌, Option, none, some, if◌then◌else◌,
}
use redis_event_stream_modul.Base.Result.{Result, ok, err, ◌>>=◌}
use redis_event_stream_modul.Config.Error.{
  ConfigError, not_utf8, not_subscribed, out_of_range, bad_checkpoint_ms, negative_maxlen,
  negative_max_streams, negative_retention_ms, not_a_cluster_mode,
}
use redis_event_stream_modul.Config.Filter.{
  NotifyEvent, ParsedFilter, parse_filter, has_class, missed, new,
}
use redis_event_stream_modul.Config.KeyFilter.{ParsedKeyFilter, parse_key_filter}
use redis_event_stream_modul.Config.SourceDbs.{ParsedDbFilter, parse_source_dbs}
use redis_event_stream_modul.Config.Overrides.{Overrides, parse_maxlen_overrides}
use redis_event_stream_modul.Config.Names.{validate_prefix, validate_auto_group}

-- The statics of the settings. `subscribed_extra` is `none` for `EXTRA_UNINIT`, and holds the classes
-- `MISSED` and `NEW` that the load subscribed otherwise; `notices` counts the notices that a change of
-- the retention logs.
pub record Configs : Type 0 where
  pub async_queue_capacity : ℤ
  pub async_batch_size : ℤ
  pub async_max_wait_ms : ℤ
  pub control_checkpoint_ms : ℤ
  pub maxlen : ℤ
  pub max_streams : ℤ
  pub retention_ms : ℤ
  pub subscribed_extra : Option NotifyEvent
  pub filter_raw : Str
  pub filter : ParsedFilter
  pub key_filter_raw : Str
  pub key_filter : ParsedKeyFilter
  pub source_dbs_raw : Str
  pub source_dbs : ParsedDbFilter
  pub overrides_raw : Str
  pub overrides : Overrides
  pub prefix : Str
  pub cluster_streams : Str
  pub auto_group : Str
  pub auto_group_enabled : Bool
  pub enabled : Bool
  pub last_enabled : Bool
  pub notices : List Str

-- `try_as_str`
unfoldable pub try_as_str : Bytes → Result ConfigError Str
try_as_str val = elim (from_utf8 val) [ none ↦ err not_utf8 | some s ↦ ok s ]

-- `(1..=max).contains(&val)`
abbrev pub in_positive_range : ℤ → ℤ → Bool
in_positive_range max_value val = leb_ℤ (pos 1) val && leb_ℤ val max_value

-- `AsyncPositiveConfig::set`: the value to store.
unfoldable pub async_positive : Str → ℤ → ℤ → Result ConfigError ℤ
async_positive name max_value val =
    if not (in_positive_range max_value val) then err (out_of_range name max_value val) else ok val

abbrev pub max_queue_capacity : ℤ
max_queue_capacity = pos 10000000

abbrev pub max_batch_size : ℤ
max_batch_size = pos 10000

abbrev pub max_wait_ms : ℤ
max_wait_ms = pos 60000

abbrev pub min_control_checkpoint_ms : ℤ
min_control_checkpoint_ms = pos 100

abbrev pub max_control_checkpoint_ms : ℤ
max_control_checkpoint_ms = pos 86400000

abbrev pub is_zero : ℤ → Bool
is_zero v = leb_ℤ v (pos 0) && leb_ℤ (pos 0) v

unfoldable pub set_control_checkpoint_ms : ℤ → Configs → Result ConfigError Configs
set_control_checkpoint_ms val c =
    if not (is_zero val)
      && not (leb_ℤ min_control_checkpoint_ms val && leb_ℤ val max_control_checkpoint_ms)
    then err (bad_checkpoint_ms val)
    else ok (record c { control_checkpoint_ms = val })

unfoldable pub set_maxlen : ℤ → Configs → Result ConfigError Configs
set_maxlen val c =
    if ltb_ℤ val (pos 0) then err (negative_maxlen val) else ok (record c { maxlen = val })

unfoldable pub set_max_streams : ℤ → Configs → Result ConfigError Configs
set_max_streams val c =
    if ltb_ℤ val (pos 0)
    then err (negative_max_streams val)
    else ok (record c { max_streams = val })

abbrev maxlen_ignored : Str
maxlen_ignored =
    text
      "eventstream: retention-ms > 0; maxlen is ignored, streams trim by MINID (time-based) instead (SPEC.md section 7)"

unfoldable pub set_retention_ms : ℤ → Configs → Result ConfigError Configs
set_retention_ms val c =
    if ltb_ℤ val (pos 0)
    then err (negative_retention_ms val)
    else ok (record c {
      retention_ms = val;
      notices =
          if ltb_ℤ (pos 0) val && ltb_ℤ (pos 0) c.maxlen
          then maxlen_ignored ∷ c.notices
          else c.notices;
    })

-- The classes `MISSED` and `NEW` that a filter names.
unfoldable pub extra_classes_named : ParsedFilter → NotifyEvent
extra_classes_named f =
    (if has_class f.classes missed then missed ∷ [] else [])
    ++ (if has_class f.classes new then new ∷ [] else [])

-- Whether the filter names the class and the subscription lacks it.
abbrev pub lacks_missed : NotifyEvent → ParsedFilter → Bool
lacks_missed subscribed f =
    has_class (extra_classes_named f) missed && not (has_class subscribed missed)

abbrev pub lacks_new : NotifyEvent → ParsedFilter → Bool
lacks_new subscribed f = has_class (extra_classes_named f) new && not (has_class subscribed new)

unfoldable pub check_subscribed : Option NotifyEvent → ParsedFilter → Result ConfigError (Unit {0})
check_subscribed none f = ok tt
check_subscribed (some subscribed) f =
    if lacks_missed subscribed f || lacks_new subscribed f
    then err (not_subscribed (lacks_missed subscribed f) (lacks_new subscribed f))
    else ok tt

unfoldable pub set_filter : Bytes → Configs → Result ConfigError Configs
set_filter val c = do
  s ← try_as_str val
  parsed ← parse_filter s
  _ ← check_subscribed c.subscribed_extra parsed
  ok (record c { filter = parsed; filter_raw = s })

unfoldable pub set_key_filter : Bytes → Configs → Result ConfigError Configs
set_key_filter val c = do
  s ← try_as_str val
  parsed ← parse_key_filter s
  ok (record c { key_filter = parsed; key_filter_raw = s })

unfoldable pub set_source_dbs : Bytes → Configs → Result ConfigError Configs
set_source_dbs val c = do
  s ← try_as_str val
  parsed ← parse_source_dbs s
  ok (record c { source_dbs = parsed; source_dbs_raw = s })

unfoldable pub set_maxlen_overrides : Bytes → Configs → Result ConfigError Configs
set_maxlen_overrides val c = do
  s ← try_as_str val
  parsed ← parse_maxlen_overrides s
  ok (record c { overrides = parsed; overrides_raw = s })

unfoldable pub set_prefix : Bytes → Configs → Result ConfigError Configs
set_prefix val c = do s ← try_as_str val; _ ← validate_prefix s; ok (record c { prefix = s })

unfoldable pub set_cluster_streams : Bytes → Configs → Result ConfigError Configs
set_cluster_streams val c = do
  s ← try_as_str val
  if not (s =s= text "refuse") && not (s =s= text "per-node")
      then err (not_a_cluster_mode s)
      else ok (record c { cluster_streams = s })

unfoldable pub is_per_node : Configs → Bool
is_per_node c = c.cluster_streams =s= text "per-node"

unfoldable pub set_auto_group : Bytes → Configs → Result ConfigError Configs
set_auto_group val c = do
  s ← try_as_str val
  _ ← validate_auto_group s
  ok (record c { auto_group_enabled = not (is_empty s); auto_group = s })

unfoldable pub group_name : Configs → Option Str
group_name c = if is_empty c.auto_group then none else some c.auto_group

unfoldable pub begin_generation : Configs → Configs
begin_generation c = record c { last_enabled = c.enabled }

unfoldable pub finish_generation : Configs → Configs
finish_generation c = record c { subscribed_extra = none }

-- One call of a setter.
pub data Change : Type 0 where
  async_queue_capacity async_batch_size async_max_wait_ms control_checkpoint_ms : ℤ → Change
  maxlen max_streams retention_ms : ℤ → Change
  events key_filter source_dbs maxlen_overrides stream_prefix : Bytes → Change
  cluster_streams auto_group : Bytes → Change

unfoldable pub apply : Change → Configs → Result ConfigError Configs
apply (async_queue_capacity v) c = do
  value ← async_positive (text "async-queue-capacity") max_queue_capacity v
  ok (record c { async_queue_capacity = value })
apply (async_batch_size v) c = do
  value ← async_positive (text "async-batch-size") max_batch_size v
  ok (record c { async_batch_size = value })
apply (async_max_wait_ms v) c = do
  value ← async_positive (text "async-max-wait-ms") max_wait_ms v
  ok (record c { async_max_wait_ms = value })
apply (control_checkpoint_ms v) c = set_control_checkpoint_ms v c
apply (maxlen v) c = set_maxlen v c
apply (max_streams v) c = set_max_streams v c
apply (retention_ms v) c = set_retention_ms v c
apply (events val) c = set_filter val c
apply (key_filter val) c = set_key_filter val c
apply (source_dbs val) c = set_source_dbs val c
apply (maxlen_overrides val) c = set_maxlen_overrides val c
apply (stream_prefix val) c = set_prefix val c
apply (cluster_streams val) c = set_cluster_streams val c
apply (auto_group val) c = set_auto_group val c

-- The settings after a call: one that is refused leaves them.
unfoldable pub after : Result ConfigError Configs → Configs → Configs
after (ok next) c = next
after (err e) c = c

unfoldable pub configure : List Change → Configs → Configs
configure [] c = c
configure (change ∷ changes) c = configure changes (after (apply change c) c)

-- The statics before the load.
abbrev pub default_configs : Configs
default_configs = record {
  async_queue_capacity = pos 65536;
  async_batch_size = pos 64;
  async_max_wait_ms = pos 1;
  control_checkpoint_ms = pos 0;
  maxlen = pos 10000;
  max_streams = pos 0;
  retention_ms = pos 0;
  subscribed_extra = none;
  filter_raw = text "expired";
  filter = record { star = false; classes = []; names = text "expired" ∷ [] };
  key_filter_raw = text "*";
  key_filter = record { star = true; patterns = [] };
  source_dbs_raw = text "*";
  source_dbs = record { star = true; dbs = [] };
  overrides_raw = [];
  overrides = [];
  prefix = text "events:";
  cluster_streams = text "refuse";
  auto_group = [];
  auto_group_enabled = false;
  enabled = true;
  last_enabled = true;
  notices = [];
}
