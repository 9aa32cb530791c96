-- ===== src/Stats/Counters.antt =====
-- src/stats.rs, src/cluster.rs, src/markers.rs: the statics of type `AtomicU64` and `AtomicBool`.
use redis_event_stream_modul.Base.{ℕ, ◌+◌, ◌%◌, ◌^◌, ◌==◌, Bool, if◌then◌else◌}

pub data Counter : Type 0 where
  forwarded events_lost firehose_forwarded autogroup_created autogroup_failed : Counter
  dropped_xadd_error dropped_oom dropped_defer_error dropped_encode_error : Counter
  skipped_self skipped_filtered skipped_key_filtered skipped_db skipped_invalid : Counter
  dropped_max_streams active_streams registry_errors last_error_time handler_panics : Counter
  async_enqueued async_fallbacks async_queue_high_water async_drains async_drain_events : Counter
  async_envelopes async_envelope_events async_worker_errors : Counter
  dropped_no_owned_slot repins repins_probe_detected dropped_migrating : Counter
  control_markers control_checkpoints : Counter

abbrev pub counter_index : Counter → ℕ
counter_index forwarded = 0
counter_index events_lost = 1
counter_index firehose_forwarded = 2
counter_index autogroup_created = 3
counter_index autogroup_failed = 4
counter_index dropped_xadd_error = 5
counter_index dropped_oom = 6
counter_index dropped_defer_error = 7
counter_index dropped_encode_error = 8
counter_index skipped_self = 9
counter_index skipped_filtered = 10
counter_index skipped_key_filtered = 11
counter_index skipped_db = 12
counter_index skipped_invalid = 13
counter_index dropped_max_streams = 14
counter_index active_streams = 15
counter_index registry_errors = 16
counter_index last_error_time = 17
counter_index handler_panics = 18
counter_index async_enqueued = 19
counter_index async_fallbacks = 20
counter_index async_queue_high_water = 21
counter_index async_drains = 22
counter_index async_drain_events = 23
counter_index async_envelopes = 24
counter_index async_envelope_events = 25
counter_index async_worker_errors = 26
counter_index dropped_no_owned_slot = 27
counter_index repins = 28
counter_index repins_probe_detected = 29
counter_index dropped_migrating = 30
counter_index control_markers = 31
counter_index control_checkpoints = 32

abbrev pub counter_eq : Counter → Counter → Bool
counter_eq a b = counter_index a == counter_index b

abbrev pub Counters : Type 0
Counters = Counter → ℕ

-- `u64` addition: `fetch_add` and, in a release build, `+=`.
unfoldable pub add_u64 : ℕ → ℕ → ℕ
add_u64 a n = (a + n) % 2 ^ 64

unfoldable pub store : Counters → Counter → ℕ → Counters
store cs c v d = if counter_eq c d then v else cs d

unfoldable pub add_to : Counters → Counter → ℕ → Counters
add_to cs c n = store cs c (add_u64 (cs c) n)

pub data Latch : Type 0 where
  logged_max_streams logged_registry logged_xadd_error logged_defer_error logged_panic : Latch
  logged_encode_error logged_autogroup logged_no_owned_slot logged_migrating eviction_risk : Latch

abbrev pub latch_index : Latch → ℕ
latch_index logged_max_streams = 0
latch_index logged_registry = 1
latch_index logged_xadd_error = 2
latch_index logged_defer_error = 3
latch_index logged_panic = 4
latch_index logged_encode_error = 5
latch_index logged_autogroup = 6
latch_index logged_no_owned_slot = 7
latch_index logged_migrating = 8
latch_index eviction_risk = 9

abbrev pub Latches : Type 0
Latches = Latch → Bool

unfoldable pub store_latch : Latches → Latch → Bool → Latches
store_latch ls l v k = if latch_index l == latch_index k then v else ls k
