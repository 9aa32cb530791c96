-- ===== src/Encode/Event.antt =====
-- src/capture.rs: `PendingEvent` and `EntrySpec`; src/config.rs: `EntryFormat` and `WriteMode`.
use redis_event_stream_modul.Base.{Str, Bytes, ℕ, ℤ, Bool, Option, ◌==◌}
use redis_event_stream_modul.Config.Filter.{NotifyEvent}
use redis_event_stream_modul.Encode.Retention.{Retention}

pub data EntryFormat : Type 0 where
  fixed minimal verbose json : EntryFormat

pub data WriteMode : Type 0 where
  sync individual envelope : WriteMode

abbrev pub mode_index : WriteMode → ℕ
mode_index sync = 0
mode_index individual = 1
mode_index envelope = 2

abbrev pub mode_eq : WriteMode → WriteMode → Bool
mode_eq a b = mode_index a == mode_index b

pub record EntrySpec : Type 0 where
  pub format : EntryFormat
  pub event : Bytes
  pub key : Bytes
  pub db : Str
  pub class : NotifyEvent
  pub seq : Option ℕ

pub record PendingEvent : Type 0 where
  pub prefix : Str
  pub suffix : Str
  pub event : Str
  pub key : Bytes
  pub db : ℤ
  pub class : NotifyEvent
  pub data_retention : Retention
  pub control_retention : Retention
  pub firehose_retention : Retention
  pub max_streams : ℤ
  pub format : EntryFormat
  pub entry_seq : Bool
