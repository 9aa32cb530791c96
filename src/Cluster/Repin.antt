-- ===== src/Cluster/Repin.antt =====
-- src/cluster.rs: `repin_and_retry`.
use redis_event_stream_modul.Base.{Bool, Str, text, ℤ, ◌++◌, Option, none, some}
use redis_event_stream_modul.Redis.{Redis}
use redis_event_stream_modul.Encode.Event.{EntrySpec}
use redis_event_stream_modul.Encode.Retention.{Retention}
use redis_event_stream_modul.Cluster.Tags.{
  tag_segment, set_node_tag, set_verified_tag, count_no_slot_drop,
}
use redis_event_stream_modul.Capture.Mirror.{
  MirrorOutcome, written, slot_migrated, migrating, oom, failed, cap_refused, encode_error,
  mirror_entry,
}
use redis_event_stream_modul.Markers.Control.{write_marker}
use redis_event_stream_modul.Stats.Counters.{
  forwarded, dropped_oom, dropped_migrating, dropped_xadd_error, dropped_max_streams,
  dropped_encode_error, repins, logged_migrating, logged_max_streams, logged_encode_error,
}
use redis_event_stream_modul.Stats.Log.{
  not_local_after_repin, migrating_after_repin, cap_reached_after_repin, encode_failed_after_repin,
}
use redis_event_stream_modul.Stats.Drops.{count_event_lost, count_event_lost_stream}
use redis_event_stream_modul.State.Actions.{Act, ◌>>=◌, ◌>>◌, skip, fetch_add}

module _ {W : Type 0} (R : Redis W) where
  unfoldable pub settle_retry : MirrorOutcome → Act W
  settle_retry written = skip
  settle_retry (oom stream msg) = count_event_lost_stream R stream dropped_oom msg
  settle_retry slot_migrated =
      count_event_lost R dropped_migrating logged_migrating not_local_after_repin
  settle_retry (migrating msg) =
      count_event_lost R dropped_migrating logged_migrating (migrating_after_repin msg)
  settle_retry (failed stream msg) = count_event_lost_stream R stream dropped_xadd_error msg
  settle_retry (cap_refused stream) =
      count_event_lost R dropped_max_streams logged_max_streams (cap_reached_after_repin stream)
  settle_retry (encode_error stream reason) =
      count_event_lost R dropped_encode_error logged_encode_error
        (encode_failed_after_repin stream reason)

  unfoldable pub retry_on : Option Str → Str → Str → EntrySpec → Retention → Retention → ℤ → Act W
  retry_on none prefix suffix spec retention control max_streams = count_no_slot_drop R Bool.true
  retry_on (some seg) prefix suffix spec retention control max_streams = do
    write_marker R (prefix ++ (seg ++ text "#control")) (text "repinned") none control
    outcome ← mirror_entry R prefix seg suffix spec retention max_streams forwarded
    settle_retry outcome

  unfoldable pub repin_and_retry : Str → Str → EntrySpec → Retention → Retention → ℤ → Act W
  repin_and_retry prefix suffix spec retention control max_streams = do
    set_node_tag none
    set_verified_tag none
    fetch_add repins 1
    seg ← tag_segment R
    retry_on seg prefix suffix spec retention control max_streams
