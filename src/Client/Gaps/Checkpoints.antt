-- ===== src/Client/Gaps/Checkpoints.antt =====
-- crates/eventstream-client/src/lib.rs and src/markers.rs: a checkpoint of the module under the client.
use redis_event_stream_modul.Base.{
  utf8_char, Str, text, as_bytes, show_nat, show_int, parse_unsigned-show_nat,
  parse_signed-show_int, InSigned, ◌=s=◌, ℕ, ◌-◌, ◌^◌, ◌<◌, ℤ, pos, Option, none, some, ◌≡◌, refl,
  ap, ◌∙◌, arith,
}
use redis_event_stream_modul.Redis.{Redis}
use redis_event_stream_modul.State.{State}
use redis_event_stream_modul.Stats.Counters.{
  Counter, forwarded, events_lost, async_enqueued, async_drain_events, async_worker_errors,
  handler_panics, last_error_time, add_u64,
}
use redis_event_stream_modul.Stats.Snapshot.{dropped_total}
use redis_event_stream_modul.Markers.Control.{control_fields, extra_args}
use redis_event_stream_modul.Markers.Checkpoint.{checkpoint_fields, saturating_u64}
use redis_event_stream_modul.Client.Entry.{Value, bulk_string, PhysicalEntry}
use redis_event_stream_modul.Client.Decode.{Crates, lossy_field}
use redis_event_stream_modul.Client.RoundTrip.{received, Holds}
use redis_event_stream_modul.Client.Batch.Chars.{Scalars, show_int-Scalars}
use redis_event_stream_modul.Client.Gaps.{GapMarker, u64_field, i64_field, gap_marker}

-- `from_utf8_lossy` keeps what is UTF-8.
abbrev pub ReadsUtf8 : Crates → Type 0
ReadsUtf8 C = (s : Str) → Scalars s → C.from_utf8_lossy (as_bytes s) ≡ s

module _ (C : Crates) (utf8 : ReadsUtf8 C) (entry : PhysicalEntry) (name : Str) where
  lossy_field-text :
      (s : Str)
      → entry.fields name ≡ some (bulk_string (as_bytes s))
      → Scalars s
      → lossy_field C entry.fields name ≡ some s
  unfolding lossy_field
  lossy_field-text s h k = rw (h, lossy_field) (ap some (utf8 s k))

  lossy_field-absent : entry.fields name ≡ none → lossy_field C entry.fields name ≡ none
  unfolding lossy_field
  lossy_field-absent h = rw (h, lossy_field) refl

  u64_field-show_nat :
      (n : ℕ)
      → entry.fields name ≡ some (bulk_string (as_bytes (show_nat n)))
      → n < 2 ^ 64
      → u64_field C entry.fields name ≡ some n
  unfolding u64_field show_int
  u64_field-show_nat n h k =
      rw (lossy_field-text (show_nat n) h (show_int-Scalars (pos n)))
        (parse_unsigned-show_nat (2 ^ 64 - 1) n (omega arith))

  i64_field-show_int :
      (v : ℤ)
      → entry.fields name ≡ some (bulk_string (as_bytes (show_int v)))
      → InSigned (2 ^ 63) v
      → i64_field C entry.fields name ≡ some v
  unfolding i64_field
  i64_field-show_int v h k =
      rw (lossy_field-text (show_int v) h (show_int-Scalars v)) (parse_signed-show_int (2 ^ 63) v k)

  i64_field-absent : entry.fields name ≡ none → i64_field C entry.fields name ≡ none
  unfolding i64_field
  i64_field-absent h = rw (lossy_field-absent h) refl

-- What a consumer should see of a checkpoint of the state.
unfoldable pub checkpoint_marker : {W : Type 0} → Redis W → State W → ℕ → PhysicalEntry → GapMarker
checkpoint_marker R s ms entry = record {
  stream = entry.stream;
  id = entry.id;
  action = text "checkpoint";
  db = none;
  module_version = some R.package_version;
  generation = some s.generation;
  reason = some (text "periodic");
  checkpoint_ms = some ms;
  resolved_events = some (saturating_u64 (s.counters forwarded) (s.counters events_lost));
  forwarded = some (s.counters forwarded);
  events_lost = some (s.counters events_lost);
  dropped = some (dropped_total s.counters);
  async_enqueued = some (s.counters async_enqueued);
  async_queue_depth = some s.queue_depth;
  async_drain_events = some (s.counters async_drain_events);
  async_worker_errors = some (s.counters async_worker_errors);
  handler_panics = some (s.counters handler_panics);
  last_error_time = some (s.counters last_error_time);
}

saturating_u64_le : (a b : ℕ) → saturating_u64 a b < 2 ^ 64
unfolding saturating_u64
saturating_u64_le a b = omega arith

dropped_total-lt : {W : Type 0} (s : State W) → dropped_total s.counters < 2 ^ 64
unfolding dropped_total add_u64
dropped_total-lt s = omega arith

module _ {W : Type 0} (C : Crates) (R : Redis W) (s : State W) (ms : ℕ) (entry : PhysicalEntry)
    (utf8 : ReadsUtf8 C)
    (holds : Holds (control_fields R (text "checkpoint") (checkpoint_fields s) s) entry) where
  abbrev written : Str → Option Value
  written = received (control_fields R (text "checkpoint") (checkpoint_fields s) s)

  counter_fields :
      ((c : Counter) → s.counters c < 2 ^ 64)
      → (u64_field C entry.fields (text "resolved-events")
          ≡ some (saturating_u64 (s.counters forwarded) (s.counters events_lost)))
        × (u64_field C entry.fields (text "forwarded") ≡ some (s.counters forwarded))
        × (u64_field C entry.fields (text "events-lost") ≡ some (s.counters events_lost))
        × (u64_field C entry.fields (text "dropped") ≡ some (dropped_total s.counters))
        × (u64_field C entry.fields (text "async-enqueued") ≡ some (s.counters async_enqueued))
        × (u64_field C entry.fields (text "async-drain-events")
            ≡ some (s.counters async_drain_events))
        × (u64_field C entry.fields (text "async-worker-errors")
            ≡ some (s.counters async_worker_errors))
        × (u64_field C entry.fields (text "handler-panics") ≡ some (s.counters handler_panics))
        × (u64_field C entry.fields (text "last-error-time") ≡ some (s.counters last_error_time))
  unfolding received control_fields checkpoint_fields extra_args ◌=s=◌ as_bytes utf8_char
  counter_fields bound = (
    u64_field-show_nat C utf8 entry (text "resolved-events") _ (holds (text "resolved-events"))
        (saturating_u64_le _ _),
    u64_field-show_nat C utf8 entry (text "forwarded") _ (holds (text "forwarded"))
        (bound forwarded),
    u64_field-show_nat C utf8 entry (text "events-lost") _ (holds (text "events-lost"))
        (bound events_lost),
    u64_field-show_nat C utf8 entry (text "dropped") _ (holds (text "dropped"))
        (dropped_total-lt s),
    u64_field-show_nat C utf8 entry (text "async-enqueued") _ (holds (text "async-enqueued"))
        (bound async_enqueued),
    u64_field-show_nat C utf8 entry (text "async-drain-events") _
        (holds (text "async-drain-events")) (bound async_drain_events),
    u64_field-show_nat C utf8 entry (text "async-worker-errors") _
        (holds (text "async-worker-errors")) (bound async_worker_errors),
    u64_field-show_nat C utf8 entry (text "handler-panics") _ (holds (text "handler-panics"))
        (bound handler_panics),
    u64_field-show_nat C utf8 entry (text "last-error-time") _ (holds (text "last-error-time"))
        (bound last_error_time),
  )

  text_fields :
      Scalars R.package_version
      → Scalars s.generation
      → (lossy_field C entry.fields (text "action") ≡ some (text "checkpoint"))
        × (lossy_field C entry.fields (text "module-version") ≡ some R.package_version)
        × (lossy_field C entry.fields (text "generation") ≡ some s.generation)
        × (lossy_field C entry.fields (text "reason") ≡ some (text "periodic"))
  unfolding received control_fields checkpoint_fields extra_args ◌=s=◌ as_bytes utf8_char
  text_fields v g = (
    lossy_field-text C utf8 entry (text "action") (text "checkpoint") (holds (text "action"))
        (ground arith),
    lossy_field-text C utf8 entry (text "module-version") R.package_version
        (holds (text "module-version")) v,
    lossy_field-text C utf8 entry (text "generation") s.generation (holds (text "generation")) g,
    lossy_field-text C utf8 entry (text "reason") (text "periodic") (holds (text "reason"))
        (ground arith),
  )

  signed_fields :
      s.settings.control_checkpoint_ms ≡ pos ms
      → ms < 2 ^ 64
      → InSigned (2 ^ 63) s.queue_depth
      → (i64_field C entry.fields (text "db") ≡ none)
        × (u64_field C entry.fields (text "checkpoint-ms") ≡ some ms)
        × (i64_field C entry.fields (text "async-queue-depth") ≡ some s.queue_depth)
  unfolding received control_fields checkpoint_fields extra_args ◌=s=◌ as_bytes utf8_char show_int
  signed_fields m l q = (
    i64_field-absent C utf8 entry (text "db") (holds (text "db")),
    u64_field-show_nat C utf8 entry (text "checkpoint-ms") ms
        (holds (text "checkpoint-ms") ∙ ap (λ v. some (bulk_string (as_bytes (show_int v)))) m) l,
    i64_field-show_int C utf8 entry (text "async-queue-depth") s.queue_depth
        (holds (text "async-queue-depth")) q,
  )

-- A checkpoint that the module writes reads back in the client: its action, the version and the
-- generation of the module, its reason and cadence, the number of resolved events, and each of the
-- counters and the depth of the queue as they were, where each is in the range of its type and the
-- texts are texts of chars; the marker has no database.
pub gap_marker-checkpoint_fields :
    {W : Type 0} (C : Crates) (R : Redis W) (s : State W) (ms : ℕ) (entry : PhysicalEntry)
    → ReadsUtf8 C
    → Holds (control_fields R (text "checkpoint") (checkpoint_fields s) s) entry
    → Scalars R.package_version
    → Scalars s.generation
    → s.settings.control_checkpoint_ms ≡ pos ms
    → ms < 2 ^ 64
    → InSigned (2 ^ 63) s.queue_depth
    → ((c : Counter) → s.counters c < 2 ^ 64)
    → gap_marker C entry ≡ checkpoint_marker R s ms entry
unfolding gap_marker checkpoint_marker
gap_marker-checkpoint_fields C R s ms entry utf8 holds v g m l q bound =
    let (resolved, ok_events, lost, dropped_sum, enqueued, drained, errors, panics, time) =
      counter_fields C R s ms entry utf8 holds bound in
    let (act, version, generation, reason) = text_fields C R s ms entry utf8 holds v g in
    let (db, cadence, depth) = signed_fields C R s ms entry utf8 holds m l q in
    rw
      (
        resolved, ok_events, lost, dropped_sum, enqueued, drained, errors, panics, time, act,
        version, generation, reason, db, cadence, depth,
      )
      refl
