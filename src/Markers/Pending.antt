-- ===== src/Markers/Pending.antt =====
-- src/markers.rs: pending gap markers and their job.
use redis_event_stream_modul.Base.{
  Str, text, ℕ, ◌-◌, ltb, Bool, true, false, not, ◌&&◌, List, [], ◌∷◌, ◌++◌, length, Option, none,
  some, if◌then◌else◌,
}
use redis_event_stream_modul.Redis.{Flags, Redis}
use redis_event_stream_modul.Encode.Retention.{Retention}
use redis_event_stream_modul.Cluster.Tags.{tag_segment, count_no_slot_drop}
use redis_event_stream_modul.Dispatch.Worker.{add_job}
use redis_event_stream_modul.Markers.Control.{action, db, control_retention, write_marker}
use redis_event_stream_modul.Stats.Counters.{dropped_defer_error, logged_defer_error}
use redis_event_stream_modul.Stats.Log.{markers_defer_failed}
use redis_event_stream_modul.Stats.Drops.{count_drop}
use redis_event_stream_modul.State.{PendingMarker, markers_job}
use redis_event_stream_modul.State.Actions.{M, Act, ◌>>=◌, ◌>>◌, gets, skip, when, fetch_add}

-- The node is a master that is not loading.
abbrev pub may_write : Flags → Bool
may_write flags = flags.master && not flags.loading

-- `!drained.is_empty()`
abbrev has_markers : List PendingMarker → Bool
has_markers [] = false
has_markers (marker ∷ rest) = true

module _ {W : Type 0} where
  unfoldable pub record_pending_marker : PendingMarker → Act W
  record_pending_marker marker s =
      (tt, record s { pending_markers = s.pending_markers ++ marker ∷ []; markers_dirty = true })

  -- `mem::take` of the pending markers, which clears the dirty flag.
  unfoldable pub take_markers : M W (List PendingMarker)
  take_markers s = (s.pending_markers, record s { pending_markers = []; markers_dirty = false })

module _ {W : Type 0} (R : Redis W) where
  unfoldable pub write_markers : Str → Retention → List PendingMarker → Act W
  write_markers control_stream retention [] = skip
  write_markers control_stream retention (marker ∷ rest) = do
    write_marker R control_stream (action marker) (db marker) retention
    write_markers control_stream retention rest

  unfoldable pub drop_markers : List PendingMarker → Act W
  drop_markers [] = skip
  drop_markers (marker ∷ rest) = do count_no_slot_drop R false; drop_markers rest

  unfoldable pub markers_on : Option Str → List PendingMarker → Str → Retention → Act W
  markers_on none drained prefix retention = drop_markers drained
  markers_on (some seg) drained prefix retention =
      write_markers (prefix ++ (seg ++ text "#control")) retention drained

  -- The job that `drain_pending_markers` registers.
  unfoldable pub run_markers_job : List PendingMarker → Str → Retention → Act W
  run_markers_job drained prefix retention = do
    seg ← tag_segment R
    markers_on seg drained prefix retention

  unfoldable pub count_unregistered : ℕ → Act W
  count_unregistered dropped_count = do
    count_drop R dropped_defer_error logged_defer_error markers_defer_failed
    when (ltb 1 dropped_count) (fetch_add dropped_defer_error (dropped_count - 1))

  unfoldable pub register_markers : List PendingMarker → Act W
  register_markers drained = do
    prefix ← gets (λ s. s.settings.prefix)
    retention ← gets control_retention
    accepted ← add_job R (markers_job drained prefix retention)
    when (not accepted) (count_unregistered (length drained))

  unfoldable pub drain_pending_markers : Act W
  drain_pending_markers = do
    flags ← gets (λ s. R.flags s.redis)
    if not (may_write flags)
        then skip
        else do drained ← take_markers; when (has_markers drained) (register_markers drained)
