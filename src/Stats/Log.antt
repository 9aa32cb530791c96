-- ===== src/Stats/Log.antt =====
-- The messages that the module logs: a constructor for each text, with what the text shows. A message of
-- level debug is not modelled.
use redis_event_stream_modul.Base.{Str, ℕ, ℤ, Bool}

pub data Detail : Type 0 where
  select_db_failed batch_select_db_failed no_owned_slot defer_failed markers_defer_failed : Detail
  firehose_not_local batch_not_local not_local_after_repin : Detail
  -- The destination stream, and the text of the server's error.
  refused_oom refused_migrating xadd_failed : Str → Str → Detail
  firehose_migrating batch_migrating migrating_after_repin : Detail → Detail
  -- The stream that was not created.
  cap_reached cap_reached_after_repin batch_cap_reached : Str → Detail
  -- The stream, and why its entry has no encoding.
  encode_failed encode_failed_after_repin firehose_encode_failed batch_encode_failed :
      Str → Str → Detail
  registry_sadd_failed group_failed : Str → Str → Str → Detail
  -- The kind of control entry, its action, and the text of the server's error.
  control_select_db_failed : Str → Detail
  control_oom control_failed : Str → Str → Str → Detail
  -- The stream, and the drops of the streak that ended.
  recovered : Str → ℕ → Detail
  registry_recovered : Str → Detail
  swapped : ℤ → ℤ → Detail
  enabled_set : Bool → Detail
  at_risk no_longer_at_risk : Str → Detail

pub data LogLine : Type 0 where
  warning notice : Detail → LogLine
  -- A warning that names the failures suppressed before it.
  warning_after : ℕ → Detail → LogLine
