-- ===== src/Counting/Reach.antt =====
-- src/commands.rs, src/capture.rs: `CURRENT_STREAMS` under the operations of the module.
use redis_event_stream_modul.Base.{
  Str, Bytes, ℕ, ◌+◌, ◌^◌, ◌<◌, ℤ, pos, of_bits, sub_i64, Bool, true, false, List, [], ◌∷◌, Option,
  none, some, if◌then◌else◌, ◌≡◌, refl, sym, ap, ◌∙◌, inl, inr, arith, Bool-cases, Option-cases,
}
use redis_event_stream_modul.Base.Result.{Result, ok, err}
use redis_event_stream_modul.Redis.{Value, integer, bulk, array, other, Values, nil, cons, Redis}
use redis_event_stream_modul.Encode.Event.{PendingEvent}
use redis_event_stream_modul.Encode.Retention.{Retention}
use redis_event_stream_modul.Stats.Streams.{StreamStats, StatsMap, lookup_stats, entry_of}
use redis_event_stream_modul.Capture.Flush.{clear_streams, on_flush_started, on_swapdb}
use redis_event_stream_modul.Capture.Process.{process_pending_event, process_pending_envelope}
use redis_event_stream_modul.Markers.Pending.{record_pending_marker, run_markers_job}
use redis_event_stream_modul.Commands.{
  name_of, forget, forget_entry, remove_reply, prune_name, prune_names, prune_members, prune_in_db0,
  in_db0, prune_on, cmd_prune,
}
use redis_event_stream_modul.State.{State, PendingMarker}
use redis_event_stream_modul.State.Keeps.{Keeps}
use redis_event_stream_modul.Counting.Primitive.{
  Counts, counted_streams, counts_rules, put_stats_freed, put_stats_same, sub_i64-of_bits,
}
use redis_event_stream_modul.Counting.Process.{
  process_pending_event-Counts, process_pending_envelope-Counts, run_markers_job-Counts,
}

entry_of-some :
    (m : StatsMap) (k : Str) (r : StreamStats) → lookup_stats m k ≡ some r → entry_of m k ≡ r
unfolding entry_of
entry_of-some m k r h = rw h refl

-- The count of a stream that held a slot, and of one that did not.
give_back :
    (b : Bool) (current : ℤ) (n m : ℕ)
    → b ≡ true
    → current ≡ of_bits n
    → m + 1 ≡ n
    → (if b then sub_i64 current 1 else current) ≡ of_bits m
give_back b current n m h c e =
    rw h (ap (λ v. sub_i64 v 1) (c ∙ ap of_bits (sym e)) ∙ sub_i64-of_bits m)

hold_none :
    (b : Bool) (current : ℤ) (n m : ℕ)
    → b ≡ false
    → current ≡ of_bits n
    → m ≡ n
    → (if b then sub_i64 current 1 else current) ≡ of_bits m
hold_none b current n m h c e = rw h (c ∙ ap of_bits (sym e))

module _ {W : Type 0} where
  clear_streams-Counts : Keeps {W = W} Counts clear_streams
  unfolding clear_streams
  clear_streams-Counts = record {
    at = λ s h. record { count_is = unfold of_bits counted_streams in refl };
  }

  record_pending_marker-Counts :
      (m : PendingMarker) → Keeps {W = W} Counts (record_pending_marker m)
  unfolding record_pending_marker
  record_pending_marker-Counts m = record { at = λ s h. record { count_is = h.count_is } }

  -- A pruned stream gives its slot back, if it holds one.
  forget-Counts : (k : Str) → Keeps {W = W} Counts (forget k)
  unfolding forget forget_entry
  forget-Counts k = record {
    at = λ s h. elim (Option-cases (lookup_stats s.stream_stats k)) [
      | inl e ↦ rw (e, forget_entry) h
      | inr (r, e) ↦ elim (Bool-cases r.counted) [
        | inl c ↦
            rw (e, forget_entry)
              record {
                count_is = give_back r.counted _ _ _ c h.count_is (
                    put_stats_freed s.stream_stats k _
                      (ap (λ v. v.counted) (entry_of-some s.stream_stats k r e) ∙ c) refl);
              }
        | inr c ↦
            rw (e, forget_entry)
              record {
                count_is = hold_none r.counted _ _ _ c h.count_is (
                    put_stats_same s.stream_stats k _
                      (sym (ap (λ v. v.counted) (entry_of-some s.stream_stats k r e) ∙ c)));
              }
      ]
    ];
  }

module _ {W : Type 0} (R : Redis W) where
  on_flush_started-Counts : (n : ℤ) → Keeps Counts (on_flush_started R n)
  unfolding on_flush_started
  on_flush_started-Counts n =
      search (counts_rules, clear_streams-Counts, record_pending_marker-Counts) depth 10

  on_swapdb-Counts : (a b : ℤ) → Keeps Counts (on_swapdb R a b)
  unfolding on_swapdb
  on_swapdb-Counts a b =
      search (counts_rules, clear_streams-Counts, record_pending_marker-Counts) depth 12

  remove_reply-Counts : (k : Str) (r : Result Str Value) → Keeps {W = W} Counts (remove_reply R k r)
  unfolding remove_reply
  remove_reply-Counts k (ok v) = search (counts_rules, forget-Counts) depth 8
  remove_reply-Counts k (err m) = search counts_rules

  prune_name-Counts : (g k : Str) → Keeps Counts (prune_name R g k)
  unfolding prune_name
  prune_name-Counts g k = search (counts_rules, remove_reply-Counts) depth 12

  prune_names-Counts : (g : Str) (vs : Values) (n : ℕ) → Keeps Counts (prune_names R g vs n)
  unfolding prune_names
  prune_names-Counts g nil n = record { at = λ s h. h }
  prune_names-Counts g (cons v rest) n = record {
    at = λ s h. elim (Option-cases (name_of v)) [
      | inl e ↦ rw (e, prune_names) h
      | inr (name, e) ↦
          rw (e, prune_names)
            ((prune_names-Counts g rest _).at _ ((prune_name-Counts g name).at s h))
    ];
  }

  prune_members-Counts : (g : Str) (r : Result Str Value) → Keeps Counts (prune_members R g r)
  unfolding prune_members
  prune_members-Counts g (ok (array names)) = prune_names-Counts g names 0
  prune_members-Counts g (ok (integer n)) = search counts_rules
  prune_members-Counts g (ok (bulk b)) = search counts_rules
  prune_members-Counts g (ok other) = search counts_rules
  prune_members-Counts g (err m) = search counts_rules

  prune_in_db0-Counts : (g : Str) → Keeps Counts (prune_in_db0 R g)
  unfolding prune_in_db0
  prune_in_db0-Counts g = search (counts_rules, prune_members-Counts) depth 8

  pruned_in_db0-Counts : (g : Str) → Keeps Counts (in_db0 R (prune_in_db0 R g))
  unfolding in_db0
  pruned_in_db0-Counts g = search (counts_rules, prune_in_db0-Counts) depth 14

  prune_on-Counts : (t : Option Str) → Keeps Counts (prune_on R t)
  unfolding prune_on
  prune_on-Counts none = search counts_rules
  prune_on-Counts (some seg) = search (counts_rules, pruned_in_db0-Counts) depth 8

  cmd_prune-Counts : (args : List Bytes) → Keeps Counts (cmd_prune R args)
  unfolding cmd_prune
  cmd_prune-Counts [] = search (counts_rules, prune_on-Counts) depth 8
  cmd_prune-Counts (arg ∷ args) = search counts_rules

-- What may touch the streams.
pub data Operation : Type 0 where
  event : PendingEvent → Operation
  batch : List PendingEvent → List Bytes → Operation
  markers : List PendingMarker → Str → Retention → Operation
  prune : List Bytes → Operation
  flush : ℤ → Operation
  swap : ℤ → ℤ → Operation

module _ {W : Type 0} (R : Redis W) where
  unfoldable pub perform : Operation → State W → State W
  perform (event e) s = (process_pending_event R e s).1
  perform (batch es fields) s = (process_pending_envelope R es fields s).1
  perform (markers ms prefix retention) s = (run_markers_job R ms prefix retention s).1
  perform (prune args) s = (cmd_prune R args s).1
  perform (flush n) s = (on_flush_started R n s).1
  perform (swap a b) s = (on_swapdb R a b s).1

  unfoldable pub perform_all : List Operation → State W → State W
  perform_all [] s = s
  perform_all (o ∷ os) s = perform_all os (perform o s)

  perform-Counts : (o : Operation) (s : State W) → Counts s → Counts (perform o s)
  unfolding perform
  perform-Counts (event e) s h = (process_pending_event-Counts R e).at s h
  perform-Counts (batch es fields) s h = (process_pending_envelope-Counts R es fields).at s h
  perform-Counts (markers ms p q) s h = (run_markers_job-Counts R ms p q).at s h
  perform-Counts (prune args) s h = (cmd_prune-Counts R args).at s h
  perform-Counts (flush n) s h = (on_flush_started-Counts R n).at s h
  perform-Counts (swap a b) s h = (on_swapdb-Counts R a b).at s h

  perform_all-Keeps : (os : List Operation) (s : State W) → Counts s → Counts (perform_all os s)
  unfolding perform_all
  perform_all-Keeps [] s h = h
  perform_all-Keeps (o ∷ os) s h = perform_all-Keeps os (perform o s) (perform-Counts o s h)

of_bits-pos : (n : ℕ) → n < 2 ^ 63 → of_bits n ≡ pos n
unfolding of_bits
of_bits-pos n h = ground arith

-- Whatever events and batches are processed, markers written, streams pruned, databases flushed and
-- swapped, in whatever order and whatever the server answers: `CURRENT_STREAMS`, which the cap of
-- streams is checked against, stays the number of the streams that hold a slot, if it was that number
-- before, and there are less than 2^63 of them.
pub perform_all-Counts :
    {W : Type 0} (R : Redis W) (os : List Operation) (s : State W)
    → s.current_streams ≡ of_bits (counted_streams s.stream_stats)
    → counted_streams (perform_all R os s).stream_stats < 2 ^ 63
    → (perform_all R os s).current_streams ≡ pos (counted_streams (perform_all R os s).stream_stats)
perform_all-Counts R os s h k =
    (perform_all-Keeps R os s record { count_is = h }).count_is ∙ of_bits-pos _ k
