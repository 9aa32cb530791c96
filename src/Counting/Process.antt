-- ===== src/Counting/Process.antt =====
-- src/capture.rs, src/cluster.rs, src/markers.rs: `CURRENT_STREAMS` along the jobs.
use redis_event_stream_modul.Base.{
  Str, Bytes, ℕ, zero, suc, ℤ, Bool, true, false, List, [], ◌∷◌, Option, none, some,
}
use redis_event_stream_modul.Base.Result.{Result, ok, err}
use redis_event_stream_modul.Redis.{Value, Redis}
use redis_event_stream_modul.Encode.Event.{EntrySpec, PendingEvent}
use redis_event_stream_modul.Encode.Retention.{Retention}
use redis_event_stream_modul.Stats.Counters.{Counter}
use redis_event_stream_modul.Cluster.Tags.{
  tag_segment, pinned_tag_lost_by_probe, count_no_slot_drop,
}
use redis_event_stream_modul.Cluster.Repin.{settle_retry, retry_on, repin_and_retry}
use redis_event_stream_modul.Capture.Mirror.{
  MirrorOutcome, written, slot_migrated, migrating, oom, failed, cap_refused, encode_error,
}
use redis_event_stream_modul.Capture.Process.{
  next_seq, settle_firehose, firehose_on, mirror_firehose, settle_event, write_event, process_on,
  process_pending_event, settle_batch, repeat_no_slot, batch_on, process_pending_envelope,
}
use redis_event_stream_modul.Markers.Control.{
  recover_known, control_reply, write_control_entry, write_marker,
}
use redis_event_stream_modul.Markers.Pending.{
  write_markers, drop_markers, markers_on, run_markers_job,
}
use redis_event_stream_modul.State.{PendingMarker}
use redis_event_stream_modul.State.Keeps.{Keeps, Keeps-when, Keeps-bind}
use redis_event_stream_modul.Accounting.Tags.{tag_segment-Keeps, pinned_tag_lost_by_probe-Keeps}
use redis_event_stream_modul.Counting.Primitive.{
  Counts, counts_rules, call-Counts, set_node_tag-Counts, set_verified_tag-Counts,
}
use redis_event_stream_modul.Counting.Write.{
  recover-Counts, count_drop-Counts, count_event_lost-Counts, count_events_lost-Counts,
  count_stream_drop-Counts, count_event_lost_stream-Counts, count_events_lost_stream-Counts,
  mirror_entry-Counts, mirror_fields-Counts,
}

ruleset drop_rules = (
  counts_rules, count_drop-Counts, count_event_lost-Counts, count_events_lost-Counts,
  count_stream_drop-Counts, count_event_lost_stream-Counts, count_events_lost_stream-Counts,
)

module _ {W : Type 0} (R : Redis W) where
  tag_segment-Counts : Keeps Counts (tag_segment R)
  tag_segment-Counts =
      tag_segment-Keeps R (call-Counts R) set_node_tag-Counts set_verified_tag-Counts

  probe-Counts : Keeps Counts (pinned_tag_lost_by_probe R)
  probe-Counts =
      pinned_tag_lost_by_probe-Keeps R (call-Counts R) set_node_tag-Counts set_verified_tag-Counts

  count_no_slot_drop-Counts : (b : Bool) → Keeps Counts (count_no_slot_drop R b)
  unfolding count_no_slot_drop
  count_no_slot_drop-Counts b = search drop_rules depth 10

  recover_known-Counts : (k : Str) → Keeps {W = W} Counts (recover_known k)
  unfolding recover_known
  recover_known-Counts k = record { at = λ s h. (Keeps-when _ _ (recover-Counts k)).at s h }

  control_reply-Counts :
      (k a : Str) (c : Counter) (m : Str) (r : Result Str Value)
      → Keeps Counts (control_reply R k a c m r)
  unfolding control_reply
  control_reply-Counts k a c m (ok v) = search (drop_rules, recover_known-Counts) depth 10
  control_reply-Counts k a c m (err e) = search drop_rules depth 10

  pub write_control_entry-Counts :
      (k a : Str) (q : Retention) (extra : List (Str × Str)) (c : Counter) (m : Str)
      → Keeps Counts (write_control_entry R k a q extra c m)
  unfolding write_control_entry
  write_control_entry-Counts k a q extra c m = search (drop_rules, control_reply-Counts) depth 16

  write_marker-Counts :
      (k a : Str) (db : Option ℤ) (q : Retention) → Keeps Counts (write_marker R k a db q)
  unfolding write_marker
  write_marker-Counts k a db q = write_control_entry-Counts k a q _ _ _

  write_markers-Counts :
      (k : Str) (q : Retention) (ms : List PendingMarker) → Keeps Counts (write_markers R k q ms)
  unfolding write_markers
  write_markers-Counts k q [] = search counts_rules
  write_markers-Counts k q (m ∷ ms) =
      Keeps-bind _ _ (write_marker-Counts k _ _ q) (λ _. write_markers-Counts k q ms)

  drop_markers-Counts : (ms : List PendingMarker) → Keeps Counts (drop_markers R ms)
  unfolding drop_markers
  drop_markers-Counts [] = search counts_rules
  drop_markers-Counts (m ∷ ms) =
      Keeps-bind _ _ (count_no_slot_drop-Counts false) (λ _. drop_markers-Counts ms)

  markers_on-Counts :
      (t : Option Str) (ms : List PendingMarker) (p : Str) (q : Retention)
      → Keeps Counts (markers_on R t ms p q)
  unfolding markers_on
  markers_on-Counts none ms p q = drop_markers-Counts ms
  markers_on-Counts (some seg) ms p q = write_markers-Counts _ q ms

  pub run_markers_job-Counts :
      (ms : List PendingMarker) (p : Str) (q : Retention) → Keeps Counts (run_markers_job R ms p q)
  unfolding run_markers_job
  run_markers_job-Counts ms p q = search (counts_rules, tag_segment-Counts, markers_on-Counts)

  settle_retry-Counts : (o : MirrorOutcome) → Keeps Counts (settle_retry R o)
  unfolding settle_retry
  settle_retry-Counts written = search drop_rules
  settle_retry-Counts (oom k d) = search drop_rules
  settle_retry-Counts slot_migrated = search drop_rules
  settle_retry-Counts (migrating d) = search drop_rules
  settle_retry-Counts (failed k d) = search drop_rules
  settle_retry-Counts (cap_refused k) = search drop_rules
  settle_retry-Counts (encode_error k d) = search drop_rules

  retry_on-Counts :
      (t : Option Str) (p x : Str) (spec : EntrySpec) (q c : Retention) (cap : ℤ)
      → Keeps Counts (retry_on R t p x spec q c cap)
  unfolding retry_on
  retry_on-Counts none p x spec q c cap = count_no_slot_drop-Counts true
  retry_on-Counts (some seg) p x spec q c cap =
      search (counts_rules, write_marker-Counts, mirror_entry-Counts, settle_retry-Counts) depth 10

  repin_and_retry-Counts :
      (p x : Str) (spec : EntrySpec) (q c : Retention) (cap : ℤ)
      → Keeps Counts (repin_and_retry R p x spec q c cap)
  unfolding repin_and_retry
  repin_and_retry-Counts p x spec q c cap =
      search (counts_rules, tag_segment-Counts, retry_on-Counts) depth 12

  settle_firehose-Counts : (o : MirrorOutcome) → Keeps Counts (settle_firehose R o)
  unfolding settle_firehose
  settle_firehose-Counts written = search drop_rules
  settle_firehose-Counts (oom k d) = search drop_rules
  settle_firehose-Counts slot_migrated = search drop_rules
  settle_firehose-Counts (migrating d) = search drop_rules
  settle_firehose-Counts (failed k d) = search drop_rules
  settle_firehose-Counts (cap_refused k) = search drop_rules
  settle_firehose-Counts (encode_error k d) = search drop_rules

  firehose_on-Counts :
      (t : Option Str) (p : Str) (spec : EntrySpec) (q : Retention)
      → Keeps Counts (firehose_on R t p spec q)
  unfolding firehose_on
  firehose_on-Counts none p spec q = count_no_slot_drop-Counts false
  firehose_on-Counts (some seg) p spec q =
      search (counts_rules, mirror_entry-Counts, settle_firehose-Counts) depth 8

  mirror_firehose-Counts :
      (p : Str) (spec : EntrySpec) (q : Retention) → Keeps Counts (mirror_firehose R p spec q)
  unfolding mirror_firehose
  mirror_firehose-Counts p spec q = search (counts_rules, tag_segment-Counts, firehose_on-Counts)

  settle_event-Counts :
      (e : PendingEvent) (spec : EntrySpec) (o : MirrorOutcome)
      → Keeps Counts (settle_event R e spec o)
  unfolding settle_event
  settle_event-Counts e spec written = search drop_rules
  settle_event-Counts e spec (oom k d) = search drop_rules
  settle_event-Counts e spec slot_migrated = search (drop_rules, repin_and_retry-Counts)
  settle_event-Counts e spec (migrating d) = search (drop_rules, repin_and_retry-Counts)
  settle_event-Counts e spec (failed k d) =
      search (drop_rules, probe-Counts, repin_and_retry-Counts) depth 10
  settle_event-Counts e spec (cap_refused k) = search drop_rules
  settle_event-Counts e spec (encode_error k d) = search drop_rules

  write_event-Counts :
      (e : PendingEvent) (spec : EntrySpec) (seg : Str) → Keeps Counts (write_event R e spec seg)
  unfolding write_event
  write_event-Counts e spec seg = search (counts_rules, mirror_entry-Counts, settle_event-Counts)

  next_seq-Counts : (b : Bool) → Keeps {W = W} Counts (next_seq b)
  unfolding next_seq
  next_seq-Counts true = record { at = λ s h. record { count_is = h.count_is } }
  next_seq-Counts false = record { at = λ s h. h }

  process_on-Counts : (e : PendingEvent) (t : Option Str) → Keeps Counts (process_on R e t)
  unfolding process_on
  process_on-Counts e none = count_no_slot_drop-Counts true
  process_on-Counts e (some seg) =
      search (counts_rules, next_seq-Counts, write_event-Counts, mirror_firehose-Counts) depth 12

  pub process_pending_event-Counts : (e : PendingEvent) → Keeps Counts (process_pending_event R e)
  unfolding process_pending_event
  process_pending_event-Counts e =
      search (drop_rules, tag_segment-Counts, process_on-Counts) depth 12

  settle_batch-Counts : (n : ℕ) (o : MirrorOutcome) → Keeps Counts (settle_batch R n o)
  unfolding settle_batch
  settle_batch-Counts n written = search drop_rules
  settle_batch-Counts n (oom k d) = search drop_rules
  settle_batch-Counts n slot_migrated = search drop_rules
  settle_batch-Counts n (migrating d) = search drop_rules
  settle_batch-Counts n (failed k d) = search drop_rules
  settle_batch-Counts n (cap_refused k) = search drop_rules
  settle_batch-Counts n (encode_error k d) = search drop_rules

  repeat_no_slot-Counts : (n : ℕ) → Keeps Counts (repeat_no_slot R n)
  unfolding repeat_no_slot
  repeat_no_slot-Counts zero = search counts_rules
  repeat_no_slot-Counts (suc n) =
      Keeps-bind _ _ (count_no_slot_drop-Counts true) (λ _. repeat_no_slot-Counts n)

  batch_on-Counts :
      (e : PendingEvent) (n : ℕ) (fields : List Bytes) (t : Option Str)
      → Keeps Counts (batch_on R e n fields t)
  unfolding batch_on
  batch_on-Counts e n fields none = repeat_no_slot-Counts n
  batch_on-Counts e n fields (some seg) =
      search (counts_rules, mirror_fields-Counts, settle_batch-Counts) depth 8

  pub process_pending_envelope-Counts :
      (es : List PendingEvent) (fields : List Bytes)
      → Keeps Counts (process_pending_envelope R es fields)
  unfolding process_pending_envelope
  process_pending_envelope-Counts [] fields = search counts_rules
  process_pending_envelope-Counts (e ∷ es) fields =
      search (drop_rules, tag_segment-Counts, batch_on-Counts) depth 12
