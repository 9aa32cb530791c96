-- ===== src/Counting/Write.antt =====
-- src/capture.rs, src/stats.rs: `CURRENT_STREAMS` along the write of one entry.
use redis_event_stream_modul.Base.{
  Bool, Str, Bytes, ℕ, ℤ, List, Option, none, some, ◌≡◌, refl, sym, ap, ◌∙◌, inl, inr, Bool-cases,
  true, false, add_i64, of_bits, arith,
}
use redis_event_stream_modul.Base.Result.{Result, ok, err}
use redis_event_stream_modul.Redis.{Value, Redis}
use redis_event_stream_modul.Encode.Event.{EntrySpec}
use redis_event_stream_modul.Encode.Retention.{Retention}
use redis_event_stream_modul.Stats.Counters.{Counter, Latch, active_streams}
use redis_event_stream_modul.Stats.Streams.{StreamStats, entry_of, record_failure, record_success}
use redis_event_stream_modul.Stats.Log.{Detail}
use redis_event_stream_modul.Stats.Drops.{
  log_failure, count_drop, count_events_lost, count_event_lost, count_stream_drop,
  count_events_lost_stream, count_event_lost_stream,
}
use redis_event_stream_modul.Capture.Mirror.{
  log_recovery, count_forwarded, recover, count_stream, clear_verified, registered_by, register,
  group_reply, create_auto_group, provision_group, entry_written, after_xadd, mirror_fields,
  mirror_encoded, mirror_entry,
}
use redis_event_stream_modul.State.Actions.{set_entry, gets, when, ◌>>=◌, ◌>>◌}
use redis_event_stream_modul.State.Keeps.{Keeps, Keeps-when}
use redis_event_stream_modul.Counting.Primitive.{
  Counts, counted_streams, add_i64-of_bits, set_entry-Counts, update-Counts, counts_rules,
  set_verified_tag-Counts, fetch_add-Counts, put_stats_taken,
}

record_failure_same : (r : StreamStats) (now : ℕ) → (record_failure r now).0.counted ≡ r.counted
unfolding record_failure
record_failure_same r now = ground arith

record_success_same : (r : StreamStats) → (record_success r).0.counted ≡ r.counted
unfolding record_success
record_success_same r = ground arith

module _ {W : Type 0} where
  log_failure-Counts : (o : Option ℕ) (d : Detail) → Keeps {W = W} Counts (log_failure o d)
  unfolding log_failure
  log_failure-Counts none d = search counts_rules
  log_failure-Counts (some n) d = search counts_rules

  log_recovery-Counts : (k : Str) (o : Option ℕ) → Keeps {W = W} Counts (log_recovery k o)
  log_recovery-Counts k none = search counts_rules
  log_recovery-Counts k (some n) = search counts_rules

  count_forwarded-Counts : (k : Str) (n : ℕ) → Keeps {W = W} Counts (count_forwarded k n)
  unfolding count_forwarded
  count_forwarded-Counts k n = record { at = λ s h. set_entry-Counts k _ s refl h }

  pub recover-Counts : (k : Str) → Keeps {W = W} Counts (recover k)
  unfolding recover
  recover-Counts k =
      update-Counts k record_success (λ e. e.0) (λ e. log_recovery k e.1) record_success_same
        (λ e. log_recovery-Counts k e.1)

  -- The first write takes a slot and marks the stream.
  count_stream-Counts : (k : Str) → Keeps {W = W} Counts (count_stream k)
  unfolding count_stream set_entry
  count_stream-Counts k = record {
    at = λ s h. elim (Bool-cases (entry_of s.stream_stats k).counted) [
      | inl e ↦ rw e h
      | inr e ↦ rw e (
          (fetch_add-Counts active_streams 1).at _ record {
            count_is =
                ap (λ c. add_i64 c 1) h.count_is
                ∙ add_i64-of_bits (counted_streams s.stream_stats)
                ∙ ap of_bits (sym (put_stats_taken s.stream_stats k _ e refl));
          })
    ];
  }

  clear_verified-Counts : Keeps {W = W} Counts clear_verified
  unfolding clear_verified
  clear_verified-Counts = record {
    at = λ s h. (Keeps-when s.per_node _ (set_verified_tag-Counts none)).at s h;
  }

module _ {W : Type 0} (R : Redis W) where
  pub count_drop-Counts : (c : Counter) (k : Latch) (d : Detail) → Keeps Counts (count_drop R c k d)
  unfolding count_drop
  count_drop-Counts c k d = search counts_rules depth 12

  pub count_events_lost-Counts :
      (n : ℕ) (c : Counter) (k : Latch) (d : Detail) → Keeps Counts (count_events_lost R n c k d)
  unfolding count_events_lost
  count_events_lost-Counts n c k d = search (counts_rules, count_drop-Counts) depth 12

  pub count_event_lost-Counts :
      (c : Counter) (k : Latch) (d : Detail) → Keeps Counts (count_event_lost R c k d)
  unfolding count_event_lost
  count_event_lost-Counts c k d = count_events_lost-Counts 1 c k d

  failure_recorded :
      (k : Str) (d : Detail) (now : ℕ)
      → Keeps {W = W} Counts (do
        entry ← gets (λ s. record_failure (entry_of s.stream_stats k) now)
        set_entry k entry.0
        log_failure entry.1 d)
  failure_recorded k d now =
      update-Counts k (λ r. record_failure r now) (λ e. e.0) (λ e. log_failure e.1 d)
        (λ r. record_failure_same r now) (λ e. log_failure-Counts e.1 d)

  pub count_stream_drop-Counts :
      (k : Str) (c : Counter) (d : Detail) → Keeps Counts (count_stream_drop R k c d)
  unfolding count_stream_drop
  count_stream_drop-Counts k c d = search (counts_rules, failure_recorded) depth 12

  pub count_events_lost_stream-Counts :
      (n : ℕ) (k : Str) (c : Counter) (d : Detail)
      → Keeps Counts (count_events_lost_stream R n k c d)
  unfolding count_events_lost_stream
  count_events_lost_stream-Counts n k c d = search (counts_rules, count_stream_drop-Counts) depth 12

  pub count_event_lost_stream-Counts :
      (k : Str) (c : Counter) (d : Detail) → Keeps Counts (count_event_lost_stream R k c d)
  unfolding count_event_lost_stream
  count_event_lost_stream-Counts k c d = count_events_lost_stream-Counts 1 k c d

  registered_by-Counts : (k g : Str) (r : Result Str Value) → Keeps Counts (registered_by R k g r)
  unfolding registered_by
  registered_by-Counts k g (ok v) =
      update-Counts k (λ r. r) (λ r. record r { registered = true; registry_failed = false }) _
        (λ r. refl) (λ r. search counts_rules depth 12)
  registered_by-Counts k g (err m) =
      update-Counts k (λ r. r) (λ r. record r { registry_failed = true }) _ (λ r. refl)
        (λ r. search counts_rules depth 12)

  register-Counts : (k g : Str) → Keeps Counts (register R k g)
  unfolding register
  register-Counts k g = search (counts_rules, registered_by-Counts) depth 14

  group_reply-Counts : (k g : Str) (r : Result Str Value) → Keeps Counts (group_reply R k g r)
  unfolding group_reply
  group_reply-Counts k g (ok v) = search counts_rules depth 12
  group_reply-Counts k g (err m) = search (counts_rules, count_drop-Counts) depth 12

  create_auto_group-Counts : (k g : Str) → Keeps Counts (create_auto_group R k g)
  unfolding create_auto_group
  create_auto_group-Counts k g = search (counts_rules, group_reply-Counts) depth 12

  -- The mark of a provisioned group.
  group_marked :
      (k : Str) (created : Bool)
      → Keeps {W = W} Counts (do
        r ← gets (λ s. entry_of s.stream_stats k)
        when created (set_entry k (record r { group_created = true })))
  unfolding ◌>>=◌ gets when
  group_marked k true = record { at = λ s h. set_entry-Counts k _ s refl h }
  group_marked k false = record { at = λ s h. h }

  provision_group-Counts : (k : Str) → Keeps Counts (provision_group R k)
  unfolding provision_group
  provision_group-Counts k = search (counts_rules, create_auto_group-Counts, group_marked) depth 14

  entry_written-Counts : (k g : Str) (c : Counter) (n : ℕ) → Keeps Counts (entry_written R k g c n)
  unfolding entry_written
  entry_written-Counts k g c n =
      search
        (
          counts_rules, count_forwarded-Counts, recover-Counts, count_stream-Counts,
          clear_verified-Counts, register-Counts, provision_group-Counts,
        )
        depth 20

  after_xadd-Counts :
      (k g : Str) (c : Counter) (n : ℕ) (r : Result Str Value)
      → Keeps Counts (after_xadd R k g c n r)
  unfolding after_xadd
  after_xadd-Counts k g c n (ok v) = entry_written-Counts k g c n
  after_xadd-Counts k g c n (err m) = search counts_rules

  pub mirror_fields-Counts :
      (p g x : Str) (fields : List Bytes) (q : Retention) (cap : ℤ) (c : Counter) (n : ℕ)
      → Keeps Counts (mirror_fields R p g x fields q cap c n)
  unfolding mirror_fields
  mirror_fields-Counts p g x fields q cap c n = search (counts_rules, after_xadd-Counts) depth 14

  mirror_encoded-Counts :
      (p g x : Str) (fields : Result Str (List Bytes)) (q : Retention) (cap : ℤ) (c : Counter)
      → Keeps Counts (mirror_encoded R p g x fields q cap c)
  unfolding mirror_encoded
  mirror_encoded-Counts p g x (ok fields) q cap c = mirror_fields-Counts p g x fields q cap c 1
  mirror_encoded-Counts p g x (err m) q cap c = search counts_rules

  pub mirror_entry-Counts :
      (p g x : Str) (spec : EntrySpec) (q : Retention) (cap : ℤ) (c : Counter)
      → Keeps Counts (mirror_entry R p g x spec q cap c)
  unfolding mirror_entry
  mirror_entry-Counts p g x spec q cap c = mirror_encoded-Counts p g x _ q cap c
