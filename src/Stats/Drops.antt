-- ===== src/Stats/Drops.antt =====
-- src/stats.rs: `count_drop`, `count_stream_drop`, and what counts a lost event.
use redis_event_stream_modul.Base.{Str, ℕ, Option, none, some, ltb, if◌then◌else◌}
use redis_event_stream_modul.Redis.{Redis}
use redis_event_stream_modul.Stats.Counters.{Counter, events_lost, last_error_time, Latch}
use redis_event_stream_modul.Stats.Streams.{record_failure, entry_of}
use redis_event_stream_modul.Stats.Log.{Detail, warning, warning_after}
use redis_event_stream_modul.State.Actions.{
  Act, ◌>>=◌, ◌>>◌, gets, skip, fetch_add, store_counter, warn_once, set_entry, log_line,
}

module _ {W : Type 0} where
  -- The warning that the logging window lets through.
  unfoldable pub log_failure : Option ℕ → Detail → Act W
  log_failure none detail = skip
  log_failure (some suppressed) detail =
      if ltb 0 suppressed
      then log_line (warning_after suppressed detail)
      else log_line (warning detail)

module _ {W : Type 0} (R : Redis W) where
  unfoldable pub count_drop : Counter → Latch → Detail → Act W
  count_drop counter latch detail = do
    fetch_add counter 1
    now ← gets (λ s. R.unix_now s.redis)
    store_counter last_error_time now
    warn_once latch detail

  unfoldable pub count_events_lost : ℕ → Counter → Latch → Detail → Act W
  count_events_lost logical_count counter latch detail = do
    fetch_add events_lost logical_count
    count_drop counter latch detail

  unfoldable pub count_event_lost : Counter → Latch → Detail → Act W
  count_event_lost = count_events_lost 1

  unfoldable pub count_stream_drop : Str → Counter → Detail → Act W
  count_stream_drop stream counter detail = do
    fetch_add counter 1
    now ← gets (λ s. R.unix_now s.redis)
    store_counter last_error_time now
    entry ← gets (λ s. record_failure (entry_of s.stream_stats stream) now)
    set_entry stream entry.0
    log_failure entry.1 detail

  unfoldable pub count_events_lost_stream : ℕ → Str → Counter → Detail → Act W
  count_events_lost_stream logical_count stream counter detail = do
    fetch_add events_lost logical_count
    count_stream_drop stream counter detail

  unfoldable pub count_event_lost_stream : Str → Counter → Detail → Act W
  count_event_lost_stream = count_events_lost_stream 1
