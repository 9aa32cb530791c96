-- ===== src/Examples/Dispatch.antt =====
-- src/dispatch.rs: the theorems of the queue at concrete queues.
use redis_event_stream_modul.Base.{
  text, length, ◌≤◌, List, [], ◌∷◌, ◌++◌, take, drop, none, some, ◌≡◌, refl, arith,
}
use redis_event_stream_modul.Encode.Event.{PendingEvent}
use redis_event_stream_modul.Dispatch.Queue.{
  QueuedEvent, EventQueue, acquired, would_block, push_back, try_push, EnvelopeSnapshot,
  prepare_groups, prepare_envelopes, drain_snapshot, events_of,
}
use redis_event_stream_modul.Dispatch.Order.{
  Line, push, fall_back, Reach, here, next, empty_line, IsOrdered,
}
use redis_event_stream_modul.Dispatch.Fifo.{try_push-append, Reach-IsOrdered}
use redis_event_stream_modul.Dispatch.Envelope.{AreSlices, prepare_envelopes-AreSlices}
use redis_event_stream_modul.Dispatch.Stale.{drain_snapshot-current}
use redis_event_stream_modul.Examples.World.{event_on}

abbrev first : PendingEvent
first = event_on (text "k1")

abbrev second : PendingEvent
second = event_on (text "k2")

abbrev third : PendingEvent
third = event_on (text "k3")

abbrev full_queue : EventQueue
full_queue = record { capacity = 1; events = record { id = 0; event = first } ∷ [] }

abbrev one_queued : Line
one_queued = record (empty_line 1) {
  queue = full_queue;
  next_id = 1;
  accepted = record { id = 0; event = first } ∷ [];
}

abbrev one_deferred : Line
one_deferred = record one_queued {
  jobs = record { id = 1; event = second } ∷ [];
  next_id = 2;
  accepted = record { id = 0; event = first } ∷ record { id = 1; event = second } ∷ [];
}

is_pushed :
    try_push (would_block ∷ acquired ∷ []) (record { capacity = 1; events = [] }) 0 first
    ≡ some (1, full_queue)
unfolding try_push push_back
is_pushed = refl

is_full : try_push (acquired ∷ []) full_queue 1 second ≡ none
unfolding try_push push_back
is_full = refl

reached : Reach (empty_line 1) one_deferred
reached =
    next
      (next here (push (empty_line 1) first (would_block ∷ acquired ∷ []) 1 full_queue is_pushed))
      (fall_back one_queued second (acquired ∷ []) is_full)

Reach-IsOrdered_example : IsOrdered one_deferred
Reach-IsOrdered_example = Reach-IsOrdered 1 one_deferred reached

try_push-append_example :
    (full_queue.events ≡ record { id = 0; event = first } ∷ [])
    × (full_queue.capacity ≡ 1)
    × (1 ≡ length full_queue.events)
    × (length full_queue.events ≤ full_queue.capacity)
try_push-append_example =
    try_push-append (would_block ∷ acquired ∷ []) (record { capacity = 1; events = [] }) 0 first 1
      full_queue is_pushed

abbrev two_queued : List QueuedEvent
two_queued = record { id = 0; event = first } ∷ record { id = 1; event = second } ∷ []

abbrev new_event : List QueuedEvent
new_event = record { id = 2; event = third } ∷ []

abbrev snapshot : EnvelopeSnapshot
snapshot = record {
  first_id = 0;
  last_id = 1;
  count = 2;
  events = first ∷ second ∷ [];
  groups = prepare_groups 2 (first ∷ second ∷ []);
}

is_prepared : prepare_envelopes 2 two_queued ≡ some snapshot
unfolding prepare_envelopes
is_prepared = refl

prepare_envelopes-AreSlices_example :
    (snapshot.events ≡ events_of (take 2 two_queued)) × AreSlices snapshot.events snapshot.groups
prepare_envelopes-AreSlices_example = prepare_envelopes-AreSlices 2 two_queued snapshot is_prepared

is_drained : drain_snapshot snapshot (two_queued ++ new_event) ≡ some new_event
unfolding drain_snapshot
is_drained = refl

drain_snapshot-current_example :
    (events_of (take snapshot.count (two_queued ++ new_event)) ≡ snapshot.events)
    × (new_event ≡ drop snapshot.count (two_queued ++ new_event))
drain_snapshot-current_example =
    drain_snapshot-current 2 0 0 3 two_queued new_event new_event snapshot
      (omega arith, (omega arith, (omega arith, omega arith))) is_prepared is_drained
