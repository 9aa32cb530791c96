-- ===== src/Examples/Capture.antt =====
-- src/capture.rs: the theorems of the capture path at concrete states.
use redis_event_stream_modul.Base.{true, text, as_bytes, pos, [], ◌∷◌, ◌++◌, ◌↔◌, ◌≡◌, refl}
use redis_event_stream_modul.Config.Filter.{string}
use redis_event_stream_modul.Encode.Document.{encode_batch_fields}
use redis_event_stream_modul.Capture.Flush.{on_flush_started, on_swapdb}
use redis_event_stream_modul.Capture.Boundary.{on_flush_started-clears, on_swapdb-clears}
use redis_event_stream_modul.State.{simple, flushed}
use redis_event_stream_modul.Capture.Gate.{gate, admitted, on_keyspace_event}
use redis_event_stream_modul.Capture.Feedback.{IsAdmitted, gate_iff, on_keyspace_event_own}
use redis_event_stream_modul.Capture.Process.{process_pending_event, process_pending_envelope}
use redis_event_stream_modul.Accounting.Settle.{Settled}
use redis_event_stream_modul.Accounting.Process.{process_pending_event-Settled}
use redis_event_stream_modul.Accounting.Batch.{process_pending_envelope-Settled}
use redis_event_stream_modul.Stats.Counters.{skipped_self}
use redis_event_stream_modul.State.Actions.{fetch_add}
use redis_event_stream_modul.Examples.World.{server, settings, fresh, event_on}

process_pending_event-Settled_example :
    Settled 0 0 1 (process_pending_event server (event_on (text "k")) fresh).1
process_pending_event-Settled_example =
    process_pending_event-Settled server (event_on (text "k")) fresh

process_pending_envelope-Settled_example :
    Settled 0 0 2
      (process_pending_envelope server
        (event_on (text "k1") ∷ event_on (text "k2") ∷ [])
        (encode_batch_fields (event_on (text "k1") ∷ event_on (text "k2") ∷ []))
        fresh).1
process_pending_envelope-Settled_example =
    process_pending_envelope-Settled server (event_on (text "k1")) (event_on (text "k2") ∷ [])
      (encode_batch_fields (event_on (text "k1") ∷ event_on (text "k2") ∷ [])) fresh

gate_iff_example :
    (gate settings (server.flags 0) (pos 0) (string ∷ []) (text "set") (text "k")
      ≡ admitted (pos 0))
    ↔ IsAdmitted settings (server.flags 0) (pos 0) (string ∷ []) (text "set") (text "k")
gate_iff_example = gate_iff settings (server.flags 0) (pos 0) (string ∷ []) (text "set") (text "k")

on_keyspace_event_own_example :
    (on_keyspace_event server []
      (string ∷ [])
      (text "xadd")
      (as_bytes (text "es:") ++ text "set")
      fresh).1
    ≡ (fetch_add skipped_self 1 fresh).1
on_keyspace_event_own_example =
    on_keyspace_event_own server [] (string ∷ []) (text "xadd") (text "set") fresh refl

on_flush_started-clears_example :
    ((on_flush_started server (pos 2) fresh).1.stream_stats ≡ [])
    × ((on_flush_started server (pos 2) fresh).1.current_streams ≡ pos 0)
    × ((on_flush_started server (pos 2) fresh).1.pending_markers ≡ flushed (pos 2) ∷ [])
    × ((on_flush_started server (pos 2) fresh).1.markers_dirty ≡ true)
on_flush_started-clears_example = on_flush_started-clears server (pos 2) fresh

on_swapdb-clears_example :
    ((on_swapdb server (pos 0) (pos 1) fresh).1.stream_stats ≡ [])
    × ((on_swapdb server (pos 0) (pos 1) fresh).1.current_streams ≡ pos 0)
    × ((on_swapdb server (pos 0) (pos 1) fresh).1.pending_markers ≡ simple (text "swapdb") ∷ [])
    × ((on_swapdb server (pos 0) (pos 1) fresh).1.markers_dirty ≡ true)
on_swapdb-clears_example = on_swapdb-clears server (pos 0) (pos 1) fresh
