-- ===== src/Client/Gaps.antt =====
-- crates/eventstream-client/src/lib.rs: gap markers and the restarts that they show.
pub mod Restarts
pub mod Histories
pub mod Checkpoints
use redis_event_stream_modul.Base.{
  Str, text, parse_signed, parse_unsigned, ◌=s=◌, ℕ, ◌-◌, ◌^◌, ℤ, Bool, true, false, not, List, [],
  ◌∷◌, ◌++◌, Option, none, some, if◌then◌else◌,
}
use redis_event_stream_modul.Client.Entry.{Value, PhysicalEntry}
use redis_event_stream_modul.Client.Decode.{Crates, lossy_field, or_default}

pub record GapMarker : Type 0 where
  pub stream : Str
  pub id : Str
  pub action : Str
  pub db : Option ℤ
  pub module_version : Option Str
  pub generation : Option Str
  pub reason : Option Str
  pub checkpoint_ms : Option ℕ
  pub resolved_events : Option ℕ
  pub forwarded : Option ℕ
  pub events_lost : Option ℕ
  pub dropped : Option ℕ
  pub async_enqueued : Option ℕ
  pub async_queue_depth : Option ℤ
  pub async_drain_events : Option ℕ
  pub async_worker_errors : Option ℕ
  pub handler_panics : Option ℕ
  pub last_error_time : Option ℕ

-- `and_then(|v| v.parse().ok())`
abbrev pub parsed : {A : Type 0} → (Str → Option A) → Option Str → Option A
parsed parse none = none
parsed parse (some v) = parse v

module _ (C : Crates) where
  unfoldable pub u64_field : (Str → Option Value) → Str → Option ℕ
  u64_field fields name = parsed (parse_unsigned (2 ^ 64 - 1)) (lossy_field C fields name)

  unfoldable pub i64_field : (Str → Option Value) → Str → Option ℤ
  i64_field fields name = parsed (parse_signed (2 ^ 63)) (lossy_field C fields name)

  -- The marker of one entry of a control stream.
  unfoldable pub gap_marker : PhysicalEntry → GapMarker
  gap_marker entry =
      let field = lossy_field C entry.fields in
      let u64_value = u64_field entry.fields in
      let i64_value = i64_field entry.fields in
      record {
        stream = entry.stream;
        id = entry.id;
        action = or_default (field (text "action"));
        db = i64_value (text "db");
        module_version = field (text "module-version");
        generation = field (text "generation");
        reason = field (text "reason");
        checkpoint_ms = u64_value (text "checkpoint-ms");
        resolved_events = u64_value (text "resolved-events");
        forwarded = u64_value (text "forwarded");
        events_lost = u64_value (text "events-lost");
        dropped = u64_value (text "dropped");
        async_enqueued = u64_value (text "async-enqueued");
        async_queue_depth = i64_value (text "async-queue-depth");
        async_drain_events = u64_value (text "async-drain-events");
        async_worker_errors = u64_value (text "async-worker-errors");
        handler_panics = u64_value (text "handler-panics");
        last_error_time = u64_value (text "last-error-time");
      }

pub data RestartBoundaryKind : Type 0 where
  graceful uncertain : RestartBoundaryKind

pub record RestartBoundary : Type 0 where
  pub stream : Str
  pub id : Str
  pub previous_generation : Str
  pub generation : Str
  pub kind : RestartBoundaryKind

-- The map of the streams to their generation and whether it closed.
abbrev pub Generations : Type 0
Generations = List (Str × (Str × Bool))

unfoldable pub get : Generations → Str → Option (Str × Bool)
get [] stream = none
get ((name, value) ∷ rest) stream = if name =s= stream then some value else get rest stream

-- `insert`, and a write through `get_mut`.
unfoldable pub put : Generations → Str → Str × Bool → Generations
put [] stream value = (stream, value) ∷ []
put ((name, old) ∷ rest) stream value =
    let kept = put rest stream value in
    if name =s= stream then (name, value) ∷ rest else (name, old) ∷ kept

-- The kind of a restart after a generation that closed or did not.
abbrev pub kind_of : Bool → RestartBoundaryKind
kind_of closed = if closed then graceful else uncertain

-- What the state of the stream and the marker show: a boundary, if there is one.
unfoldable pub boundary : Option (Str × Bool) → Str → GapMarker → List RestartBoundary
boundary none generation marker = []
boundary (some (previous, closed)) generation marker =
    if not (previous =s= generation)
    then if marker.action =s= text "loaded"
      then (record {
        stream = marker.stream;
        id = marker.id;
        previous_generation = previous;
        generation = generation;
        kind = kind_of closed;
      })
        ∷ []
      else []
    else []

-- The state of the stream after the `match`, and after the test for `unloading`.
unfoldable pub enter : Option (Str × Bool) → Str → Str × Bool
enter none generation = (generation, false)
enter (some (previous, closed)) generation =
    if not (previous =s= generation) then (generation, false) else (previous, closed)

unfoldable pub close : Str → Str → Str × Bool → Str × Bool
close act generation (current, closed) =
    if act =s= text "unloading"
    then if current =s= generation then (current, true) else (current, closed)
    else (current, closed)

-- One round of the loop: the boundary that it pushes, and the state.
unfoldable pub observe : Option Str → GapMarker → Generations → List RestartBoundary × Generations
observe none marker state = ([], state)
observe (some generation) marker state = (
  boundary (get state marker.stream) generation marker,
  put state marker.stream
      (close marker.action generation (enter (get state marker.stream) generation)),
)

unfoldable pub assess_from : Generations → List GapMarker → List RestartBoundary
assess_from state [] = []
assess_from state (marker ∷ markers) =
    let (out, next) = observe marker.generation marker state in out ++ assess_from next markers

unfoldable pub assess_restart_boundaries : List GapMarker → List RestartBoundary
assess_restart_boundaries markers = assess_from [] markers
