-- ===== src/Examples/Markers.antt =====
-- src/markers.rs: the theorems of the markers at a concrete state.
use redis_event_stream_modul.Base.{List, ◌++◌, text, ℕ, pos, true, false, [], ◌∷◌, ◌≡◌, refl}
use redis_event_stream_modul.Redis.{Redis}
use redis_event_stream_modul.Stats.Counters.{dropped_defer_error, add_u64}
use redis_event_stream_modul.Markers.Pending.{drain_pending_markers}
use redis_event_stream_modul.Markers.Handover.{
  Handling, recorded, drained, handed, handle_all, markers_recorded, handle_all-handed,
  drain_pending_markers-refused,
}
use redis_event_stream_modul.State.{State, simple, flushed}
use redis_event_stream_modul.Examples.World.{server, fresh}

abbrev marked : State ℕ
marked = record fresh {
  pending_markers = flushed (pos 0) ∷ simple (text "enabled") ∷ [];
  markers_dirty = true;
}

abbrev full_server : Redis ℕ
full_server = record server { add_job = λ w. (false, w) }

-- A flush while two markers wait, a notification, and one more marker.
abbrev handlings : List Handling
handlings = recorded (flushed (pos 3)) ∷ drained ∷ recorded (simple (text "disabled")) ∷ []

handle_all-handed_example :
    handed (handle_all server handlings marked).jobs
      ++ (handle_all server handlings marked).pending_markers
    ≡ (handed marked.jobs ++ marked.pending_markers) ++ markers_recorded handlings
handle_all-handed_example = handle_all-handed server handlings marked (λ w. refl)

drain_pending_markers-refused_example :
    ((drain_pending_markers full_server marked).1.pending_markers ≡ [])
    × ((drain_pending_markers full_server marked).1.markers_dirty ≡ false)
    × ((drain_pending_markers full_server marked).1.jobs ≡ [])
    × ((drain_pending_markers full_server marked).1.counters dropped_defer_error ≡ add_u64 0 2)
drain_pending_markers-refused_example =
    drain_pending_markers-refused full_server marked (flushed (pos 0))
      (simple (text "enabled") ∷ []) refl refl refl
