-- ===== src/Accounting/Batch.antt =====
-- src/capture.rs, src/cluster.rs: the processing of a batch of events.
use mathlib.Core.Path.{subst}
use redis_event_stream_modul.Base.{
  Str, Bytes, ℕ, zero, suc, List, ◌∷◌, length, Option, none, some, ◌≡◌, refl, arith,
}
use redis_event_stream_modul.Redis.{Redis}
use redis_event_stream_modul.Encode.Event.{PendingEvent}
use redis_event_stream_modul.Stats.Counters.{
  forwarded, events_lost, async_envelopes, add_u64, dropped_xadd_error, dropped_oom,
  dropped_migrating, dropped_max_streams, dropped_encode_error, logged_xadd_error,
}
use redis_event_stream_modul.Stats.Log.{batch_select_db_failed}
use redis_event_stream_modul.Stats.Drops.{count_events_lost}
use redis_event_stream_modul.Capture.Mirror.{
  MirrorOutcome, written, slot_migrated, migrating, oom, failed, cap_refused, encode_error,
}
use redis_event_stream_modul.Capture.Process.{
  settle_batch, repeat_no_slot, batch_on, process_pending_envelope,
}
use redis_event_stream_modul.State.{State}
use redis_event_stream_modul.State.Keeps.{
  Keeps, Keeps-skip, leads_rules, Leads, Keeps-Leads, Leads-bind,
}
use redis_event_stream_modul.Accounting.Auxiliary.{IsAuxiliary, Canonical, primitive_rules}
use redis_event_stream_modul.Accounting.Tags.{tag_segment-Canonical}
use redis_event_stream_modul.Accounting.Mirror.{After, mirror_fields-forwarded}
use redis_event_stream_modul.Accounting.Settle.{
  Settled, as_forwarded, as_lost, count_events_lost-lost, count_events_lost_stream-lost,
  count_no_slot_drop-lost,
}

aux-envelopes : IsAuxiliary async_envelopes
aux-envelopes = (refl, refl)

add_u64-add_u64 : (x n : ℕ) → add_u64 (add_u64 x 1) (suc n) ≡ add_u64 x (suc (suc n))
unfolding add_u64
add_u64-add_u64 x n = omega arith

module _ {W : Type 0} {f : ℕ} (R : Redis W) where
  counted : (l n : ℕ) → Keeps (Canonical f l) (settle_batch R n written)
  unfolding settle_batch
  counted l n = search (primitive_rules, aux-envelopes)

  repeat_no_slot-lost :
      (n x : ℕ)
      → Leads (Canonical f x) (repeat_no_slot R (suc n)) (λ _. Canonical f (add_u64 x (suc n)))
  unfolding repeat_no_slot
  repeat_no_slot-lost zero x = Leads-bind (count_no_slot_drop-lost R) (λ _. Keeps-Leads Keeps-skip)
  repeat_no_slot-lost (suc n) x = Leads-bind (count_no_slot_drop-lost R) (λ _.
      subst (λ y. Leads (Canonical f (add_u64 x 1)) (repeat_no_slot R (suc n)) (λ _. Canonical f y))
        (add_u64-add_u64 x n) (repeat_no_slot-lost n (add_u64 x 1)))

module _ {W : Type 0} {f l : ℕ} (R : Redis W) where
  settle_batch-Settled :
      (n : ℕ) (o : MirrorOutcome) → Leads (After f l n o) (settle_batch R n o) (λ _. Settled f l n)
  unfolding settle_batch
  settle_batch-Settled n written = record { runs = λ s h. as_forwarded ((counted R _ n).at s h) }
  settle_batch-Settled n (oom k d) = count_events_lost_stream-lost R n k dropped_oom d (refl, refl)
  settle_batch-Settled n slot_migrated =
      count_events_lost-lost R n dropped_migrating _ _ (refl, refl)
  settle_batch-Settled n (migrating d) =
      count_events_lost-lost R n dropped_migrating _ _ (refl, refl)
  settle_batch-Settled n (failed k d) =
      count_events_lost_stream-lost R n k dropped_xadd_error d (refl, refl)
  settle_batch-Settled n (cap_refused k) =
      count_events_lost-lost R n dropped_max_streams _ _ (refl, refl)
  settle_batch-Settled n (encode_error k d) =
      count_events_lost-lost R n dropped_encode_error _ _ (refl, refl)

  batch_on-Settled :
      (e : PendingEvent) (n : ℕ) (fields : List Bytes) (t : Option Str)
      → Leads (Canonical f l) (batch_on R e (suc n) fields t) (λ _. Settled f l (suc n))
  unfolding batch_on
  batch_on-Settled e n fields none = record {
    runs = λ s h. as_lost ((repeat_no_slot-lost R n l).runs s h);
  }
  batch_on-Settled e n fields (some seg) =
      Leads-bind (mirror_fields-forwarded R _ seg _ fields _ _ (suc n))
        (settle_batch-Settled (suc n))

  select_lost :
      (n : ℕ)
      → Leads
          (Canonical f l)
          (count_events_lost R n dropped_xadd_error logged_xadd_error batch_select_db_failed)
          (λ _. Settled f l n)
  select_lost n = count_events_lost-lost R n dropped_xadd_error _ _ (refl, refl)

  batch-Settled :
      (e : PendingEvent) (es : List PendingEvent) (fields : List Bytes)
      → Leads
          (Canonical f l)
          (process_pending_envelope R (e ∷ es) fields)
          (λ _. Settled f l (length (e ∷ es)))
  unfolding process_pending_envelope
  batch-Settled e es fields =
      search (primitive_rules, leads_rules, tag_segment-Canonical, batch_on-Settled, select_lost)
        depth 14

-- Processing a batch adds the number of its events either to `FORWARDED` or to `EVENTS_LOST`, modulo 2^64,
-- and leaves the other as it was, whatever the server answers to each call.
pub process_pending_envelope-Settled :
    {W : Type 0} (R : Redis W) (e : PendingEvent) (es : List PendingEvent) (fields : List Bytes)
    (s : State W)
    → Settled
        (s.counters forwarded)
        (s.counters events_lost)
        (length (e ∷ es))
        (process_pending_envelope R (e ∷ es) fields s).1
process_pending_envelope-Settled R e es fields s =
    (batch-Settled R e es fields).runs s record { forwarded_is = refl; lost_is = refl }
