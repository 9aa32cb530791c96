-- ===== src/Counting/Primitive.antt =====
-- src/stats.rs: `CURRENT_STREAMS` and the marks of the streams, and the actions that leave them.
use redis_event_stream_modul.Base.{
  Str, ◌=s=◌, Bytes, ℕ, ◌+◌, ℤ, of_bits, bits, add_i64, sub_i64, Bool, true, false, List, [], ◌∷◌,
  Option, if◌then◌else◌, ◌≡◌, sym, ap, ◌∙◌, inl, inr, arith, Bool-cases, count,
}
use redis_event_stream_modul.Redis.{CallOptions, Redis}
use redis_event_stream_modul.Stats.Counters.{Counter, Latch}
use redis_event_stream_modul.Stats.Streams.{
  StreamStats, StatsMap, lookup_stats, put_stats, entry_of,
}
use redis_event_stream_modul.Stats.Log.{LogLine, Detail}
use redis_event_stream_modul.Cluster.Tags.{set_node_tag, set_verified_tag}
use redis_event_stream_modul.State.{State}
use redis_event_stream_modul.State.Actions.{
  M, ◌>>=◌, gets, fetch_add, store_counter, set_latch, warn_once, log_line, set_entry, call,
  select_db,
}
use redis_event_stream_modul.State.Keeps.{Keeps, keeps_rules}

-- A stream whose first write took a slot of the cap.
abbrev pub has_slot : Str × StreamStats → Bool
has_slot (stream, r) = r.counted

-- The number of streams that hold a slot.
unfoldable pub counted_streams : StatsMap → ℕ
counted_streams m = count has_slot m

abbrev bit : Bool → ℕ
bit b = if b then 1 else 0

-- `CURRENT_STREAMS` is the number of the streams that hold a slot, as an `i64`.
pub record Counts {W : Type 0} (s : State W) : Type 0 where
  pub count_is : s.current_streams ≡ of_bits (counted_streams s.stream_stats)

-- What a write of an entry does to the number.
pub counted_streams-put_stats :
    (m : StatsMap) (k : Str) (v : StreamStats)
    → counted_streams (put_stats m k v) + bit (entry_of m k).counted
      ≡ counted_streams m + bit v.counted
unfolding counted_streams put_stats entry_of lookup_stats
counted_streams-put_stats [] k v = ground arith
counted_streams-put_stats ((j, w) ∷ m) k v = elim (Bool-cases (j =s= k)) [
  | inl e ↦ rw e (ground arith)
  | inr e ↦ rw e (ground (arith, counted_streams-put_stats m k v))
]

pub put_stats_same :
    (m : StatsMap) (k : Str) (v : StreamStats)
    → v.counted ≡ (entry_of m k).counted
    → counted_streams (put_stats m k v) ≡ counted_streams m
put_stats_same m k v h = ground (arith, counted_streams-put_stats m k v)

-- A stream that takes a slot, and one that gives it back.
pub put_stats_taken :
    (m : StatsMap) (k : Str) (v : StreamStats)
    → (entry_of m k).counted ≡ false
    → v.counted ≡ true
    → counted_streams (put_stats m k v) ≡ counted_streams m + 1
put_stats_taken m k v e h = ground (arith, counted_streams-put_stats m k v)

pub put_stats_freed :
    (m : StatsMap) (k : Str) (v : StreamStats)
    → (entry_of m k).counted ≡ true
    → v.counted ≡ false
    → counted_streams (put_stats m k v) + 1 ≡ counted_streams m
put_stats_freed m k v e h = ground (arith, counted_streams-put_stats m k v)

pub add_i64-of_bits : (n : ℕ) → add_i64 (of_bits n) 1 ≡ of_bits (n + 1)
unfolding add_i64 of_bits bits
add_i64-of_bits n = ground arith

pub sub_i64-of_bits : (n : ℕ) → sub_i64 (of_bits (n + 1)) 1 ≡ of_bits n
unfolding sub_i64 of_bits bits
sub_i64-of_bits n = ground arith

module _ {W : Type 0} where
  pub fetch_add-Counts : (c : Counter) (n : ℕ) → Keeps {W = W} Counts (fetch_add c n)
  unfolding fetch_add
  fetch_add-Counts c n = record { at = λ s h. record { count_is = h.count_is } }

  pub store_counter-Counts : (c : Counter) (v : ℕ) → Keeps {W = W} Counts (store_counter c v)
  unfolding store_counter
  store_counter-Counts c v = record { at = λ s h. record { count_is = h.count_is } }

  pub set_latch-Counts : (c : Latch) (v : Bool) → Keeps {W = W} Counts (set_latch c v)
  unfolding set_latch
  set_latch-Counts c v = record { at = λ s h. record { count_is = h.count_is } }

  pub log_line-Counts : (line : LogLine) → Keeps {W = W} Counts (log_line line)
  unfolding log_line
  log_line-Counts line = record { at = λ s h. record { count_is = h.count_is } }

  pub warn_once-Counts : (c : Latch) (d : Detail) → Keeps {W = W} Counts (warn_once c d)
  unfolding warn_once
  warn_once-Counts c d = record { at = λ s h. record { count_is = ground (arith, h.count_is) } }

  pub set_node_tag-Counts : (t : Option Str) → Keeps {W = W} Counts (set_node_tag t)
  unfolding set_node_tag
  set_node_tag-Counts t = record { at = λ s h. record { count_is = h.count_is } }

  pub set_verified_tag-Counts : (t : Option Str) → Keeps {W = W} Counts (set_verified_tag t)
  unfolding set_verified_tag
  set_verified_tag-Counts t = record { at = λ s h. record { count_is = h.count_is } }

  -- A write that leaves the mark of the stream.
  pub set_entry-Counts :
      (k : Str) (v : StreamStats) (s : State W)
      → v.counted ≡ (entry_of s.stream_stats k).counted
      → Counts s
      → Counts (set_entry k v s).1
  unfolding set_entry
  set_entry-Counts k v s e h = record {
    count_is = h.count_is ∙ ap of_bits (sym (put_stats_same s.stream_stats k v e));
  }

module _ {W A B : Type 0} where
  -- An entry that is read, changed but for its mark, and written back.
  pub update-Counts :
      (k : Str) (f : StreamStats → B) (g : B → StreamStats) (rest : B → M W A)
      → ((r : StreamStats) → (g (f r)).counted ≡ r.counted)
      → ((b : B) → Keeps Counts (rest b))
      → Keeps Counts
          (gets (λ s. f (entry_of s.stream_stats k)) >>= λ b. set_entry k (g b) >>= λ _. rest b)
  unfolding ◌>>=◌ gets
  update-Counts k f g rest same keeps = record {
    at = λ s h. (keeps _).at _ (
        set_entry-Counts k (g (f (entry_of s.stream_stats k))) s (same (entry_of s.stream_stats k))
          h);
  }

module _ {W : Type 0} (R : Redis W) where
  pub call-Counts : (c : Str) (o : CallOptions) (args : List Bytes) → Keeps Counts (call R c o args)
  unfolding call
  call-Counts c o args = record { at = λ s h. record { count_is = h.count_is } }

  pub select_db-Counts : (n : ℤ) → Keeps Counts (select_db R n)
  unfolding select_db
  select_db-Counts n = record { at = λ s h. record { count_is = h.count_is } }

pub ruleset counts_rules = (
  keeps_rules, fetch_add-Counts, store_counter-Counts, set_latch-Counts, log_line-Counts,
  warn_once-Counts, set_node_tag-Counts, set_verified_tag-Counts, call-Counts, select_db-Counts,
)
