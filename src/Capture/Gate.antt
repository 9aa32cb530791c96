-- ===== src/Capture/Gate.antt =====
-- src/capture.rs: `on_keyspace_event`, the gates that a notification passes before it is dispatched.
use redis_event_stream_modul.Base.{
  Str, text, Bytes, is_empty, starts_with, as_bytes, ℤ, not, ◌||◌, List, if◌then◌else◌,
}
use redis_event_stream_modul.Redis.{Flags, Redis}
use redis_event_stream_modul.Config.Filter.{NotifyEvent, matches}
use redis_event_stream_modul.Config.KeyFilter.{matches_key}
use redis_event_stream_modul.Config.SourceDbs.{matches_db}
use redis_event_stream_modul.Config.Overrides.{effective_maxlen}
use redis_event_stream_modul.Encode.Sanitize.{sanitize}
use redis_event_stream_modul.Encode.Event.{PendingEvent}
use redis_event_stream_modul.Dispatch.Queue.{Attempt}
use redis_event_stream_modul.Dispatch.Worker.{dispatch_pending_event}
use redis_event_stream_modul.Markers.Pending.{drain_pending_markers}
use redis_event_stream_modul.Stats.Counters.{
  Counter, skipped_self, skipped_filtered, skipped_key_filtered, skipped_db, skipped_invalid,
}
use redis_event_stream_modul.State.{State, Settings}
use redis_event_stream_modul.State.Actions.{Act, ◌>>=◌, ◌>>◌, gets, skip, when, fetch_add}

-- Where a notification ends: at a gate that returns, with its counter if it has one, or admitted from
-- database `db`.
pub data Verdict : Type 0 where
  returned : Verdict
  skipped : Counter → Verdict
  admitted : ℤ → Verdict

-- The gates 1 to 7 in their order.
unfoldable pub gate : Settings → Flags → ℤ → NotifyEvent → Str → Bytes → Verdict
gate c flags db event_type event key =
    if not c.enabled
    then returned
    else if starts_with key (as_bytes c.prefix)
    then skipped skipped_self
    else if not flags.master || flags.loading
    then returned
    else if not (matches c.filter event_type event)
    then skipped skipped_filtered
    else if not (matches_key c.key_filter key)
    then skipped skipped_key_filtered
    else if not (matches_db c.source_dbs db)
    then skipped skipped_db
    else if is_empty (sanitize event)
    then skipped skipped_invalid
    else admitted db

-- The snapshot that gate 8 dispatches.
unfoldable pub pending_of : Settings → NotifyEvent → Str → Bytes → ℤ → PendingEvent
pending_of c event_type event key db = record {
  prefix = c.prefix;
  suffix = sanitize event;
  event = event;
  key = key;
  db = db;
  class = event_type;
  data_retention = record {
    maxlen = effective_maxlen c.overrides (sanitize event) c.maxlen;
    retention_ms = c.retention_ms;
  };
  control_retention = record {
    maxlen = effective_maxlen c.overrides (text "#control") c.maxlen;
    retention_ms = c.retention_ms;
  };
  firehose_retention = record { maxlen = c.maxlen; retention_ms = c.retention_ms };
  max_streams = c.max_streams;
  format = c.entry_format;
  entry_seq = c.entry_seq;
}

module _ {W : Type 0} (R : Redis W) where
  -- What follows gate 0; `attempts` are the results of `try_lock` on the queue.
  unfoldable pub conclude : List Attempt → NotifyEvent → Str → Bytes → Verdict → Act W
  conclude attempts event_type event key returned = skip
  conclude attempts event_type event key (skipped counter) = fetch_add counter 1
  conclude attempts event_type event key (admitted db) = do
    settings ← gets (λ s. s.settings)
    dispatch_pending_event R attempts (pending_of settings event_type event key db)

  unfoldable pub verdict : NotifyEvent → Str → Bytes → State W → Verdict
  verdict event_type event key s =
      gate s.settings (R.flags s.redis) (R.selected_db s.redis) event_type event key

  unfoldable pub on_keyspace_event : List Attempt → NotifyEvent → Str → Bytes → Act W
  on_keyspace_event attempts event_type event key = do
    dirty ← gets (λ s. s.markers_dirty)
    when dirty (drain_pending_markers R)
    v ← gets (verdict event_type event key)
    conclude attempts event_type event key v
