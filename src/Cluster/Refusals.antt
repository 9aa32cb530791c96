-- ===== src/Cluster/Refusals.antt =====
-- src/cluster.rs: which error texts of an `XADD` are refusals of the cluster.
use redis_event_stream_modul.Base.{Str, text, contains, starts_with, ◌=s=◌, Bool, ◌||◌}

unfoldable pub is_slot_migrated : Str → Bool
is_slot_migrated msg = contains msg (text "non local key")

unfoldable pub is_migration_refusal : Str → Bool
is_migration_refusal msg =
    starts_with msg (text "TRYAGAIN ") || msg =s= text "TRYAGAIN" || starts_with msg (text "ASK ")

-- The test for a refusal under `maxmemory` (src/capture.rs, src/cluster.rs, src/markers.rs).
unfoldable pub is_oom : Str → Bool
is_oom msg = starts_with msg (text "OOM")
