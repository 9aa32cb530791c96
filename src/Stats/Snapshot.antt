-- ===== src/Stats/Snapshot.antt =====
-- src/stats.rs: `dropped_total` and `stats_snapshot`, the counters as `INFO` and `EVENTSTREAM.STATS` show them.
use redis_event_stream_modul.Base.{
  Str, text, ℕ, ℤ, pos, of_bits, Bool, List, [], ◌∷◌, Option, none, some, if◌then◌else◌,
}
use redis_event_stream_modul.Stats.Counters
use redis_event_stream_modul.Stats.Counters.{Counter, Counters, add_u64, eviction_risk}
use redis_event_stream_modul.State.{State}

pub data StatValue : Type 0 where
  int : ℤ → StatValue
  text_value : Str → StatValue

unfoldable pub dropped_total : Counters → ℕ
dropped_total c =
    add_u64
      (add_u64
        (add_u64
          (add_u64 (add_u64 (c Counters.dropped_xadd_error) (c Counters.dropped_oom))
            (c Counters.dropped_defer_error))
          (c Counters.dropped_migrating))
        (c Counters.dropped_max_streams))
      (c Counters.dropped_encode_error)

abbrev of_bool : Bool → StatValue
of_bool b = int (pos (if b then 1 else 0))

abbrev or_empty : Option Str → Str
or_empty none = []
or_empty (some t) = t

unfoldable pub stats_snapshot : {W : Type 0} → State W → List (Str × StatValue)
stats_snapshot s =
    let load : Counter → StatValue = λ c. int (of_bits (s.counters c)) in
    (text "enabled", of_bool s.settings.enabled)
    ∷ (text "eviction_risk", of_bool (s.latches eviction_risk))
    ∷ (text "forwarded", load Counters.forwarded)
    ∷ (text "events_lost", load Counters.events_lost)
    ∷ (text "firehose_forwarded", load Counters.firehose_forwarded)
    ∷ (text "autogroup_created", load Counters.autogroup_created)
    ∷ (text "autogroup_failed", load Counters.autogroup_failed)
    ∷ (text "dropped", int (of_bits (dropped_total s.counters)))
    ∷ (text "dropped_xadd_error", load Counters.dropped_xadd_error)
    ∷ (text "dropped_oom", load Counters.dropped_oom)
    ∷ (text "dropped_defer_error", load Counters.dropped_defer_error)
    ∷ (text "dropped_max_streams", load Counters.dropped_max_streams)
    ∷ (text "dropped_encode_error", load Counters.dropped_encode_error)
    ∷ (text "skipped_self", load Counters.skipped_self)
    ∷ (text "skipped_filtered", load Counters.skipped_filtered)
    ∷ (text "skipped_key_filtered", load Counters.skipped_key_filtered)
    ∷ (text "skipped_db", load Counters.skipped_db)
    ∷ (text "skipped_invalid", load Counters.skipped_invalid)
    ∷ (text "active_streams", load Counters.active_streams)
    ∷ (text "registry_errors", load Counters.registry_errors)
    ∷ (text "control_markers", load Counters.control_markers)
    ∷ (text "control_checkpoints", load Counters.control_checkpoints)
    ∷ (text "handler_panics", load Counters.handler_panics)
    ∷ (text "async_enqueued", load Counters.async_enqueued)
    ∷ (text "async_fallbacks", load Counters.async_fallbacks)
    ∷ (text "async_queue_depth", int s.queue_depth)
    ∷ (text "async_queue_high_water", load Counters.async_queue_high_water)
    ∷ (text "async_drains", load Counters.async_drains)
    ∷ (text "async_drain_events", load Counters.async_drain_events)
    ∷ (text "async_envelopes", load Counters.async_envelopes)
    ∷ (text "async_envelope_events", load Counters.async_envelope_events)
    ∷ (text "async_worker_errors", load Counters.async_worker_errors)
    ∷ (text "dropped_no_owned_slot", load Counters.dropped_no_owned_slot)
    ∷ (text "dropped_migrating", load Counters.dropped_migrating)
    ∷ (text "repins", load Counters.repins)
    ∷ (text "repins_probe_detected", load Counters.repins_probe_detected)
    ∷ (text "cluster_per_node", of_bool s.per_node)
    ∷ (text "cluster_pinned_tag", text_value (or_empty s.node_tag))
    ∷ (text "last_error_time", load Counters.last_error_time)
    ∷ []
