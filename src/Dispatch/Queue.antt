-- ===== src/Dispatch/Queue.antt =====
-- src/dispatch.rs: `EventQueue`, the bounded FIFO of the asynchronous write modes, with its mutex held.
use redis_event_stream_modul.Base.{
  ◌=s=◌, Bytes, ℕ, ℤ, zero, suc, ◌-◌, ◌==◌, ltb, leb, leb_ℤ, Bool, false, ◌&&◌, List, [], ◌∷◌, ◌++◌,
  map, length, take, drop, get_elem?, Option, none, some, if◌then◌else◌,
}
use redis_event_stream_modul.Encode.Event.{PendingEvent}
use redis_event_stream_modul.Encode.Retention.{Retention}
use redis_event_stream_modul.Encode.Document.{encode_batch_fields}

-- `enqueued_at` is left out: only `wait_until_ready` reads it.
pub record QueuedEvent : Type 0 where
  pub id : ℕ
  pub event : PendingEvent

pub record EventQueue : Type 0 where
  pub capacity : ℕ
  pub events : List QueuedEvent

-- What one `try_lock` of the mutex of the queue returns.
pub data Attempt : Type 0 where
  acquired poisoned would_block : Attempt

-- The branch that holds the mutex: the new queue and its depth, unless it is full.
unfoldable pub push_back : EventQueue → ℕ → PendingEvent → Option (ℕ × EventQueue)
push_back q id event =
    if leb q.capacity (length q.events)
    then none
    else some (
      suc (length q.events),
      record q { events = q.events ++ record { id = id; event = event } ∷ [] },
    )

-- `attempts` are the results of at most `QUEUE_LOCK_SPINS` calls of `try_lock`.
unfoldable pub try_push : List Attempt → EventQueue → ℕ → PendingEvent → Option (ℕ × EventQueue)
try_push [] q id event = none
try_push (acquired ∷ rest) q id event = push_back q id event
try_push (poisoned ∷ rest) q id event = none
try_push (would_block ∷ rest) q id event = try_push rest q id event

unfoldable pub drain : ℕ → List QueuedEvent → List QueuedEvent × List QueuedEvent
drain limit events = (take limit events, drop limit events)

-- `take_while`, and the events that stay.
unfoldable pub drain_before : ℕ → List QueuedEvent → List QueuedEvent × List QueuedEvent
drain_before id [] = ([], [])
drain_before id (e ∷ rest) =
    let later = drain_before id rest in
    if ltb e.id id then (e ∷ later.0, later.1) else ([], e ∷ rest)

abbrev eq_ℤ : ℤ → ℤ → Bool
eq_ℤ a b = leb_ℤ a b && leb_ℤ b a

abbrev eq_retention : Retention → Retention → Bool
eq_retention a b = eq_ℤ a.maxlen b.maxlen && eq_ℤ a.retention_ms b.retention_ms

unfoldable pub envelope_compatible : PendingEvent → PendingEvent → Bool
envelope_compatible left right =
    left.prefix =s= right.prefix
    && left.suffix =s= right.suffix
    && eq_retention left.data_retention right.data_retention
    && eq_ℤ left.max_streams right.max_streams

pub record PreparedGroup : Type 0 where
  pub len : ℕ
  pub fields : List Bytes

-- The inner loop: the events from the second on that go with the first, and the rest.
unfoldable pub run_with : PendingEvent → List PendingEvent → List PendingEvent × List PendingEvent
run_with first [] = ([], [])
run_with first (e ∷ rest) =
    let later = run_with first rest in
    if envelope_compatible first e then (e ∷ later.0, later.1) else ([], e ∷ rest)

unfoldable pub prepared : List PendingEvent → PreparedGroup
prepared events = record { len = length events; fields = encode_batch_fields events }

-- The outer loop on fuel: `fuel` events at most are left.
unfoldable pub prepare_groups : ℕ → List PendingEvent → List PreparedGroup
prepare_groups zero selected = []
prepare_groups (suc fuel) [] = []
prepare_groups (suc fuel) (e ∷ rest) =
    let (same, others) = run_with e rest in prepared (e ∷ same) ∷ prepare_groups fuel others

pub record EnvelopeSnapshot : Type 0 where
  pub first_id : ℕ
  pub last_id : ℕ
  pub count : ℕ
  pub events : List PendingEvent
  pub groups : List PreparedGroup

abbrev pub id_at : List QueuedEvent → ℕ → Option ℕ
id_at events i = elim (get_elem? events i) [ none ↦ none | some e ↦ some e.id ]

abbrev pub events_of : List QueuedEvent → List PendingEvent
events_of queued = map (λ e. e.event) queued

abbrev pub snapshot_of : List QueuedEvent → Option ℕ → Option ℕ → Option EnvelopeSnapshot
snapshot_of selected (some first_id) (some last_id) = some record {
  first_id = first_id;
  last_id = last_id;
  count = length selected;
  events = events_of selected;
  groups = prepare_groups (length selected) (events_of selected);
}
snapshot_of selected _ _ = none

unfoldable pub prepare_envelopes : ℕ → List QueuedEvent → Option EnvelopeSnapshot
prepare_envelopes limit events =
    let selected = take limit events in
    snapshot_of selected (id_at selected 0) (id_at selected (length selected - 1))

abbrev pub is_id : Option ℕ → ℕ → Bool
is_id none id = false
is_id (some n) id = n == id

-- The queue without the events of the snapshot, if they still are its prefix.
unfoldable pub drain_snapshot : EnvelopeSnapshot → List QueuedEvent → Option (List QueuedEvent)
drain_snapshot snapshot events =
    if is_id (id_at events 0) snapshot.first_id
      && is_id (id_at events (snapshot.count - 1)) snapshot.last_id
    then some (drop snapshot.count events)
    else none
