-- ===== src/State.antt =====
-- The statics of the module as one state, and the actions on it.
pub mod Actions
pub mod Keeps
use redis_event_stream_modul.Base.{Str, Bytes, ℕ, ℤ, Bool, List, Option}
use redis_event_stream_modul.Config.Filter.{ParsedFilter}
use redis_event_stream_modul.Config.KeyFilter.{ParsedKeyFilter}
use redis_event_stream_modul.Config.SourceDbs.{ParsedDbFilter}
use redis_event_stream_modul.Config.Overrides.{Overrides}
use redis_event_stream_modul.Encode.Event.{EntryFormat, WriteMode, PendingEvent}
use redis_event_stream_modul.Encode.Retention.{Retention}
use redis_event_stream_modul.Stats.Counters.{Counters, Latches}
use redis_event_stream_modul.Stats.Streams.{StatsMap}
use redis_event_stream_modul.Stats.Log.{LogLine}
use redis_event_stream_modul.Dispatch.Queue.{EventQueue}

-- src/config.rs: the values of the settings that the capture path reads.
pub record Settings : Type 0 where
  pub prefix : Str
  pub enabled : Bool
  pub filter : ParsedFilter
  pub key_filter : ParsedKeyFilter
  pub source_dbs : ParsedDbFilter
  pub maxlen : ℤ
  pub max_streams : ℤ
  pub retention_ms : ℤ
  pub overrides : Overrides
  pub firehose : Bool
  pub verify_oom : Bool
  pub entry_seq : Bool
  pub entry_format : EntryFormat
  -- `AUTO_GROUP_ENABLED` and `AUTO_GROUP`
  pub auto_group_enabled : Bool
  pub auto_group : Str
  pub control_checkpoint_ms : ℤ

-- src/markers.rs: a gap marker that waits to be written.
pub data PendingMarker : Type 0 where
  simple : Str → PendingMarker
  flushed : ℤ → PendingMarker

-- The closures that the module hands to `add_post_notification_job`.
pub data Job : Type 0 where
  event_job : PendingEvent → Job
  fallback_job : ℕ → PendingEvent → Job
  markers_job : List PendingMarker → Str → Retention → Job

pub record State (W : Type 0) : Type 0 where
  pub redis : W
  pub settings : Settings
  pub counters : Counters
  pub latches : Latches
  pub stream_stats : StatsMap
  pub current_streams : ℤ
  pub seq : ℕ
  -- `PER_NODE`, `NODE_TAG`, `PROBE_VERIFIED_TAG`
  pub per_node : Bool
  pub node_tag : Option Str
  pub verified_tag : Option Str
  -- `PENDING_MARKERS`, `MARKERS_DIRTY`, `GENERATION_ID`, `LAST_CHECKPOINT_MS`
  pub pending_markers : List PendingMarker
  pub markers_dirty : Bool
  pub generation : Str
  pub last_checkpoint_ms : ℤ
  -- The jobs that Redis has accepted and not run, first in first out.
  pub jobs : List Job
  -- The log, its last line first.
  pub log : List LogLine
  -- `ACTIVE_MODE`, `EVENT_QUEUE`, `NEXT_EVENT_ID`, `ASYNC_QUEUE_DEPTH`
  pub active_mode : WriteMode
  pub event_queue : Option EventQueue
  pub next_event_id : ℕ
  pub queue_depth : ℤ
