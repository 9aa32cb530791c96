-- ===== src/Capture/Process.antt =====
-- src/capture.rs: `process_pending_event`, `process_pending_envelope` and `mirror_firehose`.
use redis_event_stream_modul.Base.{
  Str, Bytes, text, as_bytes, show_int, length, ℕ, zero, suc, pos, Bool, true, false, not, List, [],
  ◌∷◌, Option, none, some, if◌then◌else◌,
}
use redis_event_stream_modul.Redis.{Redis}
use redis_event_stream_modul.Encode.Event.{EntrySpec, PendingEvent}
use redis_event_stream_modul.Encode.Retention.{Retention}
use redis_event_stream_modul.Cluster.Tags.{
  tag_segment, pinned_tag_lost_by_probe, count_no_slot_drop,
}
use redis_event_stream_modul.Cluster.Repin.{repin_and_retry}
use redis_event_stream_modul.Capture.Mirror.{
  MirrorOutcome, written, slot_migrated, migrating, oom, failed, cap_refused, encode_error,
  mirror_entry, mirror_fields,
}
use redis_event_stream_modul.Stats.Counters.{
  add_u64, forwarded, firehose_forwarded, dropped_oom, dropped_migrating, dropped_xadd_error,
  dropped_max_streams, dropped_encode_error, repins_probe_detected, async_envelopes,
  async_envelope_events, logged_xadd_error, logged_migrating, logged_max_streams,
  logged_encode_error,
}
use redis_event_stream_modul.Stats.Log.{
  select_db_failed, batch_select_db_failed, firehose_not_local, firehose_migrating,
  firehose_encode_failed, cap_reached, encode_failed, batch_not_local, batch_migrating,
  batch_cap_reached, batch_encode_failed,
}
use redis_event_stream_modul.Stats.Drops.{
  count_drop, count_stream_drop, count_event_lost, count_event_lost_stream, count_events_lost,
  count_events_lost_stream,
}
use redis_event_stream_modul.State.Actions.{
  M, Act, ◌>>=◌, ◌>>◌, gets, skip, when, fetch_add, select_db,
}

module _ {W : Type 0} where
  -- `SEQ.fetch_add(1)`, when the entries carry a sequence number.
  unfoldable pub next_seq : Bool → M W (Option ℕ)
  next_seq false s = (none, s)
  next_seq true s = (some s.seq, record s { seq = add_u64 s.seq 1 })

abbrev pub spec_of : PendingEvent → Option ℕ → EntrySpec
spec_of e seq = record {
  format = e.format;
  event = as_bytes e.event;
  key = e.key;
  db = show_int e.db;
  class = e.class;
  seq = seq;
}

module _ {W : Type 0} (R : Redis W) where
  -- The outcome of the firehose copy.
  unfoldable pub settle_firehose : MirrorOutcome → Act W
  settle_firehose written = skip
  settle_firehose (oom stream msg) = count_stream_drop R stream dropped_oom msg
  settle_firehose slot_migrated = count_drop R dropped_migrating logged_migrating firehose_not_local
  settle_firehose (migrating msg) =
      count_drop R dropped_migrating logged_migrating (firehose_migrating msg)
  settle_firehose (failed stream msg) = count_stream_drop R stream dropped_xadd_error msg
  settle_firehose (cap_refused stream) = skip
  settle_firehose (encode_error stream reason) =
      count_drop R dropped_encode_error logged_encode_error (firehose_encode_failed stream reason)

  unfoldable pub firehose_on : Option Str → Str → EntrySpec → Retention → Act W
  firehose_on none prefix spec retention = count_no_slot_drop R false
  firehose_on (some seg) prefix spec retention = do
    outcome ← mirror_entry R prefix seg (text "#firehose") spec retention (pos 0) firehose_forwarded
    settle_firehose outcome

  unfoldable pub mirror_firehose : Str → EntrySpec → Retention → Act W
  mirror_firehose prefix spec retention = do
    seg ← tag_segment R
    firehose_on seg prefix spec retention

  -- The outcome of the canonical write.
  unfoldable pub settle_event : PendingEvent → EntrySpec → MirrorOutcome → Act W
  settle_event e spec written = skip
  settle_event e spec (oom stream msg) = count_event_lost_stream R stream dropped_oom msg
  settle_event e spec slot_migrated =
      repin_and_retry R e.prefix e.suffix spec e.data_retention e.control_retention e.max_streams
  settle_event e spec (migrating msg) =
      repin_and_retry R e.prefix e.suffix spec e.data_retention e.control_retention e.max_streams
  settle_event e spec (failed stream msg) = do
    lost ← pinned_tag_lost_by_probe R
    if not lost then count_event_lost_stream R stream dropped_xadd_error msg else do
      fetch_add repins_probe_detected 1
      repin_and_retry R e.prefix e.suffix spec e.data_retention e.control_retention e.max_streams
  settle_event e spec (cap_refused stream) =
      count_event_lost R dropped_max_streams logged_max_streams (cap_reached stream)
  settle_event e spec (encode_error stream reason) =
      count_event_lost R dropped_encode_error logged_encode_error (encode_failed stream reason)

  -- The canonical write and its settlement.
  unfoldable pub write_event : PendingEvent → EntrySpec → Str → Act W
  write_event e spec seg = do
    outcome ← mirror_entry R e.prefix seg e.suffix spec e.data_retention e.max_streams forwarded
    settle_event e spec outcome

  unfoldable pub process_on : PendingEvent → Option Str → Act W
  process_on e none = count_no_slot_drop R true
  process_on e (some seg) = do
    seq ← next_seq e.entry_seq
    write_event e (spec_of e seq) seg
    firehose ← gets (λ s. s.settings.firehose)
    when firehose (mirror_firehose e.prefix (spec_of e seq) e.firehose_retention)

  unfoldable pub process_pending_event : PendingEvent → Act W
  process_pending_event e = do
    selected ← select_db R (pos 0)
    if not selected
        then count_event_lost R dropped_xadd_error logged_xadd_error select_db_failed
        else do seg ← tag_segment R; process_on e seg

  -- The outcome of a batch of `n` events.
  unfoldable pub settle_batch : ℕ → MirrorOutcome → Act W
  settle_batch n written = do fetch_add async_envelopes 1; fetch_add async_envelope_events n
  settle_batch n (oom stream msg) = count_events_lost_stream R n stream dropped_oom msg
  settle_batch n slot_migrated =
      count_events_lost R n dropped_migrating logged_migrating batch_not_local
  settle_batch n (migrating msg) =
      count_events_lost R n dropped_migrating logged_migrating (batch_migrating msg)
  settle_batch n (failed stream msg) = count_events_lost_stream R n stream dropped_xadd_error msg
  settle_batch n (cap_refused stream) =
      count_events_lost R n dropped_max_streams logged_max_streams (batch_cap_reached stream)
  settle_batch n (encode_error stream reason) =
      count_events_lost R n dropped_encode_error logged_encode_error
        (batch_encode_failed stream reason)

  unfoldable pub repeat_no_slot : ℕ → Act W
  repeat_no_slot zero = skip
  repeat_no_slot (suc n) = do count_no_slot_drop R true; repeat_no_slot n

  unfoldable pub batch_on : PendingEvent → ℕ → List Bytes → Option Str → Act W
  batch_on e n fields none = repeat_no_slot n
  batch_on e n fields (some seg) = do
    outcome ←
        mirror_fields R e.prefix seg e.suffix fields e.data_retention e.max_streams forwarded n
    settle_batch n outcome

  unfoldable pub process_pending_envelope : List PendingEvent → List Bytes → Act W
  process_pending_envelope [] fields = skip
  process_pending_envelope (e ∷ es) fields = do
    let n = length (e ∷ es)
    selected ← select_db R (pos 0)
    if not selected
        then count_events_lost R n dropped_xadd_error logged_xadd_error batch_select_db_failed
        else do seg ← tag_segment R; batch_on e n fields seg
