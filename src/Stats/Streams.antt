-- ===== src/Stats/Streams.antt =====
-- src/stats.rs: `StreamStats`, its logging state machine, and the map `STREAM_STATS`.
use redis_event_stream_modul.Base.{
  Str, ◌=s=◌, ℕ, ◌-◌, ◌==◌, leb, Bool, false, ◌||◌, List, [], ◌∷◌, Option, none, some,
  if◌then◌else◌,
}
use redis_event_stream_modul.Stats.Counters.{add_u64}

pub record StreamStats : Type 0 where
  pub forwarded : ℕ
  pub dropped : ℕ
  pub counted : Bool
  pub registered : Bool
  pub registry_failed : Bool
  pub group_created : Bool
  pub failing_drops : ℕ
  pub last_warned : ℕ
  pub suppressed : ℕ

-- `StreamStats::default()`
abbrev pub default_stats : StreamStats
default_stats = record {
  forwarded = 0;
  dropped = 0;
  counted = false;
  registered = false;
  registry_failed = false;
  group_created = false;
  failing_drops = 0;
  last_warned = 0;
  suppressed = 0;
}

abbrev pub log_window_secs : ℕ
log_window_secs = 60

-- The record after a failure, and the number of suppressed failures if this one may log.
unfoldable pub record_failure : StreamStats → ℕ → StreamStats × Option ℕ
record_failure r now =
    let counted_drop = record r {
      dropped = add_u64 r.dropped 1;
      failing_drops = add_u64 r.failing_drops 1;
    } in
    if r.last_warned == 0 || leb log_window_secs (now - r.last_warned)
    then (record counted_drop { last_warned = now; suppressed = 0 }, some r.suppressed)
    else (record counted_drop { suppressed = add_u64 r.suppressed 1 }, none)

-- The record after a success, and the length of the failing streak that it ends.
unfoldable pub record_success : StreamStats → StreamStats × Option ℕ
record_success r =
    if r.failing_drops == 0
    then (r, none)
    else (record r { failing_drops = 0; last_warned = 0; suppressed = 0 }, some r.failing_drops)

abbrev pub StatsMap : Type 0
StatsMap = List (Str × StreamStats)

unfoldable pub lookup_stats : StatsMap → Str → Option StreamStats
lookup_stats [] k = none
lookup_stats ((j, v) ∷ m) k = if j =s= k then some v else lookup_stats m k

unfoldable pub put_stats : StatsMap → Str → StreamStats → StatsMap
put_stats [] k v = (k, v) ∷ []
put_stats ((j, w) ∷ m) k v = if j =s= k then (j, v) ∷ m else (j, w) ∷ put_stats m k v

abbrev or_default : Option StreamStats → StreamStats
or_default none = default_stats
or_default (some r) = r

-- The entry that `stats.get_mut(stream)` finds after an insertion of the default.
unfoldable pub entry_of : StatsMap → Str → StreamStats
entry_of m k = or_default (lookup_stats m k)
