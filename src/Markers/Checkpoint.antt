-- ===== src/Markers/Checkpoint.antt =====
-- src/markers.rs: `write_checkpoint`, `checkpoint_tick` and the gate of the cron.
use redis_event_stream_modul.Base.{
  Str, text, show_nat, show_int, ℕ, ℤ, pos, ◌+◌, ◌-◌, ◌^◌, min, ltb_ℤ, leb_ℤ, ◌-ℤ◌, saturate_i64,
  Bool, not, ◌&&◌, List, [], ◌∷◌, ◌++◌, Option, none, some, if◌then◌else◌,
}
use redis_event_stream_modul.Redis.{Redis}
use redis_event_stream_modul.Encode.Retention.{Retention}
use redis_event_stream_modul.Cluster.Tags.{tag_segment}
use redis_event_stream_modul.Markers.Control.{control_retention, write_control_entry}
use redis_event_stream_modul.Markers.Pending.{may_write, take_markers, write_markers}
use redis_event_stream_modul.Stats.Counters.{
  Counter, forwarded, events_lost, async_enqueued, async_drain_events, async_worker_errors,
  handler_panics, last_error_time, control_checkpoints,
}
use redis_event_stream_modul.Stats.Snapshot.{dropped_total}
use redis_event_stream_modul.State.{State}
use redis_event_stream_modul.State.Actions.{Act, ◌>>=◌, ◌>>◌, gets, skip, when}

-- `saturating_add` of `u64`.
unfoldable pub saturating_u64 : ℕ → ℕ → ℕ
saturating_u64 a b = min (a + b) (2 ^ 64 - 1)

module _ {W : Type 0} where
  unfoldable pub checkpoint_fields : State W → List (Str × Str)
  checkpoint_fields s =
      let load : Counter → Str = λ c. show_nat (s.counters c) in
      (text "reason", text "periodic")
      ∷ (text "checkpoint-ms", show_int s.settings.control_checkpoint_ms)
      ∷ (
        text "resolved-events",
        show_nat (saturating_u64 (s.counters forwarded) (s.counters events_lost)),
      )
      ∷ (text "forwarded", load forwarded)
      ∷ (text "events-lost", load events_lost)
      ∷ (text "dropped", show_nat (dropped_total s.counters))
      ∷ (text "async-enqueued", load async_enqueued)
      ∷ (text "async-queue-depth", show_int s.queue_depth)
      ∷ (text "async-drain-events", load async_drain_events)
      ∷ (text "async-worker-errors", load async_worker_errors)
      ∷ (text "handler-panics", load handler_panics)
      ∷ (text "last-error-time", load last_error_time)
      ∷ []

  unfoldable pub set_last_checkpoint : ℤ → Act W
  set_last_checkpoint now s = (tt, record s { last_checkpoint_ms = now })

module _ {W : Type 0} (R : Redis W) where
  unfoldable pub write_checkpoint : Str → Retention → Act W
  write_checkpoint control_stream retention = do
    extra ← gets checkpoint_fields
    write_control_entry R control_stream (text "checkpoint") retention extra control_checkpoints
        (text "control checkpoint")

  unfoldable pub tick_on : Option Str → Act W
  tick_on none = skip
  tick_on (some seg) = do
    prefix ← gets (λ s. s.settings.prefix)
    retention ← gets control_retention
    drained ← take_markers
    write_markers R (prefix ++ (seg ++ text "#control")) retention drained
    write_checkpoint (prefix ++ (seg ++ text "#control")) retention

  unfoldable pub checkpoint_tick : Act W
  checkpoint_tick = do
    flags ← gets (λ s. R.flags s.redis)
    if not (may_write flags) then skip else do seg ← tag_segment R; tick_on seg

  -- The time since the last checkpoint has reached the interval.
  unfoldable pub is_due : State W → Bool
  is_due s = not (
      ltb_ℤ (saturate_i64 (R.milliseconds s.redis -ℤ s.last_checkpoint_ms))
        s.settings.control_checkpoint_ms)

  abbrev is_off : State W → Bool
  is_off s =
      leb_ℤ s.settings.control_checkpoint_ms (pos 0)
      && leb_ℤ (pos 0) s.settings.control_checkpoint_ms

  unfoldable pub start_checkpoint_schedule : Act W
  start_checkpoint_schedule = do
    off ← gets is_off
    now ← gets (λ s. R.milliseconds s.redis)
    when (not off) (set_last_checkpoint now)

  -- The body of `raw_checkpoint_cron_event`.
  unfoldable pub checkpoint_cron : Act W
  checkpoint_cron = do
    off ← gets is_off
    due ← gets is_due
    now ← gets (λ s. R.milliseconds s.redis)
    when (not off && due) (do set_last_checkpoint now; checkpoint_tick)
