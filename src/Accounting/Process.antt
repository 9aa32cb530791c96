-- ===== src/Accounting/Process.antt =====
-- src/capture.rs, src/cluster.rs: the processing of an event.
use redis_event_stream_modul.Base.{Str, ℕ, ℤ, Bool, true, false, Option, none, some, refl}
use redis_event_stream_modul.Redis.{Redis}
use redis_event_stream_modul.Encode.Event.{EntrySpec, PendingEvent}
use redis_event_stream_modul.Encode.Retention.{Retention}
use redis_event_stream_modul.Stats.Counters.{
  Counter, Latch, forwarded, events_lost, firehose_forwarded, dropped_xadd_error, dropped_oom,
  dropped_no_owned_slot, dropped_migrating, dropped_max_streams, dropped_encode_error, repins,
  repins_probe_detected, logged_xadd_error,
}
use redis_event_stream_modul.Stats.Log.{Detail, select_db_failed}
use redis_event_stream_modul.Stats.Drops.{count_event_lost, count_event_lost_stream}
use redis_event_stream_modul.Cluster.Tags.{count_no_slot_drop}
use redis_event_stream_modul.Cluster.Repin.{settle_retry, retry_on, repin_and_retry}
use redis_event_stream_modul.Capture.Mirror.{
  MirrorOutcome, written, slot_migrated, migrating, oom, failed, cap_refused, encode_error,
  mirror_entry,
}
use redis_event_stream_modul.Capture.Process.{
  spec_of, next_seq, settle_firehose, firehose_on, mirror_firehose, settle_event, write_event,
  process_on, process_pending_event,
}
use redis_event_stream_modul.State.{State}
use redis_event_stream_modul.State.Actions.{M, ◌>>=◌, gets, skip, when}
use redis_event_stream_modul.State.Keeps.{
  Keeps, keeps_rules, leads_rules, Leads, Keeps-Leads, Leads-bind, Leads-after, Leads-if,
}
use redis_event_stream_modul.Accounting.Auxiliary.{
  IsAuxiliary, Canonical, primitive_rules, fetch_add-Canonical, count_drop-Canonical,
  count_stream_drop-Canonical,
}
use redis_event_stream_modul.Accounting.Tags.{
  tag_segment-Canonical, pinned_tag_lost_by_probe-Canonical,
}
use redis_event_stream_modul.Accounting.Mirror.{
  After, mirror_entry-forwarded, mirror_entry-Canonical,
}
use redis_event_stream_modul.Accounting.Settle.{
  Settled, as_forwarded, as_lost, count_events_lost-lost, count_events_lost_stream-lost,
  count_no_slot_drop-lost, write_marker-Canonical,
}

aux-repins : IsAuxiliary repins
aux-repins = (refl, refl)

module _ {W : Type 0} {f l : ℕ} (R : Redis W) where
  event_lost :
      (c : Counter) (k : Latch) (d : Detail)
      → IsAuxiliary c
      → Leads (Canonical f l) (count_event_lost R c k d) (λ _. Settled f l 1)
  unfolding count_event_lost
  event_lost = count_events_lost-lost R 1

  event_lost_stream :
      (k : Str) (c : Counter) (d : Detail)
      → IsAuxiliary c
      → Leads (Canonical f l) (count_event_lost_stream R k c d) (λ _. Settled f l 1)
  unfolding count_event_lost_stream
  event_lost_stream = count_events_lost_stream-lost R 1

  no_slot_lost : Leads (Canonical f l) (count_no_slot_drop R true) (λ _. Settled f l 1)
  no_slot_lost = record { runs = λ s h. as_lost ((count_no_slot_drop-lost R).runs s h) }

  settle_retry-Settled :
      (o : MirrorOutcome) → Leads (After f l 1 o) (settle_retry R o) (λ _. Settled f l 1)
  unfolding settle_retry skip
  settle_retry-Settled written = record { runs = λ s h. as_forwarded h }
  settle_retry-Settled (oom k d) = event_lost_stream k dropped_oom d (refl, refl)
  settle_retry-Settled slot_migrated = event_lost dropped_migrating _ _ (refl, refl)
  settle_retry-Settled (migrating d) = event_lost dropped_migrating _ _ (refl, refl)
  settle_retry-Settled (failed k d) = event_lost_stream k dropped_xadd_error d (refl, refl)
  settle_retry-Settled (cap_refused k) = event_lost dropped_max_streams _ _ (refl, refl)
  settle_retry-Settled (encode_error k d) = event_lost dropped_encode_error _ _ (refl, refl)

  retry_on-Settled :
      (t : Option Str) (p x : Str) (spec : EntrySpec) (q c : Retention) (cap : ℤ)
      → Leads (Canonical f l) (retry_on R t p x spec q c cap) (λ _. Settled f l 1)
  unfolding retry_on
  retry_on-Settled none p x spec q c cap = no_slot_lost
  retry_on-Settled (some seg) p x spec q c cap =
      Leads-after _ _ (write_marker-Canonical R _ _ _ _)
        (λ _. Leads-bind (mirror_entry-forwarded R p seg x spec q cap) settle_retry-Settled)

  repin_and_retry-Settled :
      (p x : Str) (spec : EntrySpec) (q c : Retention) (cap : ℤ)
      → Leads (Canonical f l) (repin_and_retry R p x spec q c cap) (λ _. Settled f l 1)
  unfolding repin_and_retry
  repin_and_retry-Settled p x spec q c cap =
      search (primitive_rules, leads_rules, tag_segment-Canonical, aux-repins, retry_on-Settled)
        depth 14

  settle_firehose-Canonical : (o : MirrorOutcome) → Keeps (Canonical f l) (settle_firehose R o)
  unfolding settle_firehose
  settle_firehose-Canonical written = search keeps_rules
  settle_firehose-Canonical (oom k d) = count_stream_drop-Canonical R k dropped_oom d (refl, refl)
  settle_firehose-Canonical slot_migrated =
      count_drop-Canonical R dropped_migrating _ _ (refl, refl)
  settle_firehose-Canonical (migrating d) =
      count_drop-Canonical R dropped_migrating _ _ (refl, refl)
  settle_firehose-Canonical (failed k d) =
      count_stream_drop-Canonical R k dropped_xadd_error d (refl, refl)
  settle_firehose-Canonical (cap_refused k) = search keeps_rules
  settle_firehose-Canonical (encode_error k d) =
      count_drop-Canonical R dropped_encode_error _ _ (refl, refl)

  quiet_no_slot-Canonical : Keeps (Canonical f l) (count_no_slot_drop R false)
  unfolding count_no_slot_drop ◌>>=◌ when
  quiet_no_slot-Canonical = record {
    at = λ s h. (count_drop-Canonical R dropped_no_owned_slot _ _ (refl, refl)).at s h;
  }

  firehose_entry :
      (p g x : Str) (spec : EntrySpec) (q : Retention) (cap : ℤ)
      → Keeps (Canonical f l) (mirror_entry R p g x spec q cap firehose_forwarded)
  firehose_entry = mirror_entry-Canonical R firehose_forwarded (refl, refl)

  firehose_on-Canonical :
      (t : Option Str) (p : Str) (spec : EntrySpec) (q : Retention)
      → Keeps (Canonical f l) (firehose_on R t p spec q)
  unfolding firehose_on
  firehose_on-Canonical none p spec q = quiet_no_slot-Canonical
  firehose_on-Canonical (some seg) p spec q =
      search (keeps_rules, firehose_entry, settle_firehose-Canonical)

  mirror_firehose-Canonical :
      (p : Str) (spec : EntrySpec) (q : Retention)
      → Keeps (Canonical f l) (mirror_firehose R p spec q)
  unfolding mirror_firehose
  mirror_firehose-Canonical p spec q =
      search (keeps_rules, tag_segment-Canonical, firehose_on-Canonical)

module _ {W A : Type 0} {m : M W A} where
  Settled-Keeps : ((f l : ℕ) → Keeps (Canonical f l) m) → {f l n : ℕ} → Keeps (Settled f l n) m
  Settled-Keeps k = record {
    at = λ s h. elim h [
      | as_forwarded c ↦ as_forwarded ((k _ _).at s c)
      | as_lost c ↦ as_lost ((k _ _).at s c)
    ];
  }

module _ {W : Type 0} (R : Redis W) where
  copied :
      (f l : ℕ) (e : PendingEvent) (spec : EntrySpec)
      → Keeps (Canonical f l) (do
        firehose ← gets (λ s. s.settings.firehose)
        when firehose (mirror_firehose R e.prefix spec e.firehose_retention))
  copied f l e spec = search (keeps_rules, mirror_firehose-Canonical)

module _ {W : Type 0} {f l : ℕ} (R : Redis W) where
  repin :
      (e : PendingEvent) (spec : EntrySpec)
      → Leads
          (Canonical f l)
          (repin_and_retry R e.prefix e.suffix spec e.data_retention e.control_retention
            e.max_streams)
          (λ _. Settled f l 1)
  repin e spec = repin_and_retry-Settled R _ _ spec _ _ _

  settle_event-Settled :
      (e : PendingEvent) (spec : EntrySpec) (o : MirrorOutcome)
      → Leads (After f l 1 o) (settle_event R e spec o) (λ _. Settled f l 1)
  unfolding settle_event skip
  settle_event-Settled e spec written = record { runs = λ s h. as_forwarded h }
  settle_event-Settled e spec (oom k d) = event_lost_stream R k dropped_oom d (refl, refl)
  settle_event-Settled e spec slot_migrated = repin e spec
  settle_event-Settled e spec (migrating d) = repin e spec
  settle_event-Settled e spec (failed k d) =
      Leads-after _ _ (pinned_tag_lost_by_probe-Canonical R) (λ lost.
        Leads-if _ _ _ (event_lost_stream R k dropped_xadd_error d (refl, refl)) (
          Leads-after _ _ (fetch_add-Canonical repins_probe_detected 1 (refl, refl))
            (λ _. repin e spec)))
  settle_event-Settled e spec (cap_refused k) = event_lost R dropped_max_streams _ _ (refl, refl)
  settle_event-Settled e spec (encode_error k d) =
      event_lost R dropped_encode_error _ _ (refl, refl)

  write_event-Settled :
      (e : PendingEvent) (spec : EntrySpec) (seg : Str)
      → Leads (Canonical f l) (write_event R e spec seg) (λ _. Settled f l 1)
  unfolding write_event
  write_event-Settled e spec seg =
      Leads-bind (mirror_entry-forwarded R _ seg _ spec _ _) (settle_event-Settled e spec)

  next_seq-Canonical : (b : Bool) → Keeps {W = W} (Canonical f l) (next_seq b)
  unfolding next_seq
  next_seq-Canonical true = record {
    at = λ s k. record { forwarded_is = k.forwarded_is; lost_is = k.lost_is };
  }
  next_seq-Canonical false = record { at = λ s k. k }

  select_lost :
      Leads
        (Canonical f l)
        (count_event_lost R dropped_xadd_error logged_xadd_error select_db_failed)
        (λ _. Settled f l 1)
  select_lost = event_lost R dropped_xadd_error _ _ (refl, refl)

  process_on-Settled :
      (e : PendingEvent) (t : Option Str)
      → Leads (Canonical f l) (process_on R e t) (λ _. Settled f l 1)
  unfolding process_on
  process_on-Settled e none = no_slot_lost R
  process_on-Settled e (some seg) = Leads-after _ _ (next_seq-Canonical e.entry_seq) (λ seq.
      Leads-bind (write_event-Settled e _ seg)
        (λ _. Keeps-Leads (Settled-Keeps (λ f l. copied R f l e (spec_of e seq)))))

  event-Settled :
      (e : PendingEvent) → Leads (Canonical f l) (process_pending_event R e) (λ _. Settled f l 1)
  unfolding process_pending_event
  event-Settled e =
      search (primitive_rules, leads_rules, tag_segment-Canonical, process_on-Settled, select_lost)
        depth 14

-- Processing an event adds 1 either to `FORWARDED` or to `EVENTS_LOST`, modulo 2^64, and leaves the other
-- as it was, whatever the server answers to each call.
pub process_pending_event-Settled :
    {W : Type 0} (R : Redis W) (e : PendingEvent) (s : State W)
    → Settled (s.counters forwarded) (s.counters events_lost) 1 (process_pending_event R e s).1
process_pending_event-Settled R e s =
    (event-Settled R e).runs s record { forwarded_is = refl; lost_is = refl }
