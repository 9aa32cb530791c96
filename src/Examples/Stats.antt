-- ===== src/Examples/Stats.antt =====
-- src/stats.rs: the logging theorems at concrete records.
use redis_event_stream_modul.Base.{
  ℕ, ◌+◌, ◌≤◌, length, List, [], ◌∷◌, some, ◌≡◌, ◌↔◌, ◌⊎◌, refl, arith,
}
use redis_event_stream_modul.Stats.Streams.{default_stats, record_failure, record_success}
use redis_event_stream_modul.Stats.Logging.{
  failures, warnings, reported, last_warning, record_failure-warnings, record_success-failures,
}

abbrev three_times : List ℕ
three_times = 1000 ∷ 1001 ∷ 1002 ∷ []

record_success-failures_example :
    ((record_success (failures default_stats three_times)).1 ≡ some (length three_times))
    × ((record_failure (record_success (failures default_stats three_times)).0 1003).1 ≡ some 0)
record_success-failures_example =
    record_success-failures default_stats 1000 1003 (1001 ∷ 1002 ∷ []) refl (omega arith)

record_failure-warnings_example :
    ((record_failure (failures default_stats three_times) 1061).1 ≡ some 2) ↔ (
      (reported (warnings default_stats three_times) + 2
        ≡ default_stats.suppressed + length three_times)
      × ((last_warning default_stats.last_warned (warnings default_stats three_times) ≡ 0)
          ⊎ (last_warning default_stats.last_warned (warnings default_stats three_times) + 60
              ≤ 1061)))
record_failure-warnings_example =
    record_failure-warnings default_stats three_times 1061 2 (omega arith)
