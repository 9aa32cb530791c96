-- ===== src/Capture/Boundary.antt =====
-- src/capture.rs, src/markers.rs: the markers of a flush and of a swap.
use redis_event_stream_modul.Base.{
  text, ℤ, pos, Bool, ◌&&◌, ◌||◌, [], ◌∷◌, ◌++◌, if◌then◌else◌, ◌≡◌, refl, arith, Bool-cases, inl,
  inr,
}
use redis_event_stream_modul.Redis.{Redis}
use redis_event_stream_modul.Capture.Flush.{clear_streams, is_zero, on_flush_started, on_swapdb}
use redis_event_stream_modul.Markers.Pending.{may_write, record_pending_marker}
use redis_event_stream_modul.State.{State, simple, flushed}
use redis_event_stream_modul.State.Actions.{◌>>=◌, gets, when, log_line}

-- The event of a swap concerns this node: it moves database 0 on a master that is not loading.
abbrev moves_streams : {W : Type 0} → Redis W → ℤ → ℤ → State W → Bool
moves_streams R first second s = (is_zero first || is_zero second) && may_write (R.flags s.redis)

module _ {W : Type 0} (R : Redis W) where
  -- A flush forgets the streams and sets the count of the cap to zero on every node; on a master that is
  -- not loading it appends a marker with the database and sets the flag, and on another node the markers
  -- stay as they are.
  pub on_flush_started-clears :
      (dbnum : ℤ) (s : State W)
      → (let t = (on_flush_started R dbnum s).1 in
          (t.stream_stats ≡ [])
          × (t.current_streams ≡ pos 0)
          × (t.pending_markers ≡ (
              if may_write (R.flags s.redis)
              then s.pending_markers ++ flushed dbnum ∷ []
              else s.pending_markers))
          × (t.markers_dirty ≡ (may_write (R.flags s.redis) || s.markers_dirty)))
  unfolding on_flush_started clear_streams record_pending_marker ◌>>=◌ gets when
  on_flush_started-clears dbnum s = ground arith

  -- A swap that moves database 0 on a master that is not loading forgets the streams, sets the count of
  -- the cap to zero, appends a marker and sets the flag; any other swap leaves all of these as they are.
  pub on_swapdb-clears :
      (first second : ℤ) (s : State W)
      → (let t = (on_swapdb R first second s).1 in
          let moved = moves_streams R first second s in
          (t.stream_stats ≡ (if moved then [] else s.stream_stats))
          × (t.current_streams ≡ (if moved then pos 0 else s.current_streams))
          × (t.pending_markers ≡ (
              if moved
              then s.pending_markers ++ simple (text "swapdb") ∷ []
              else s.pending_markers))
          × (t.markers_dirty ≡ (moved || s.markers_dirty)))
  unfolding on_swapdb clear_streams record_pending_marker log_line ◌>>=◌ gets when
  on_swapdb-clears first second s = elim (Bool-cases (moves_streams R first second s)) [
    | inl e ↦ rw e (refl, refl, refl, refl)
    | inr e ↦ rw e (refl, refl, refl, refl)
  ]
