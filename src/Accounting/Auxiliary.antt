-- ===== src/Accounting/Auxiliary.antt =====
-- src/stats.rs: the actions that touch neither `FORWARDED` nor `EVENTS_LOST`.
use redis_event_stream_modul.Base.{
  Str, Bytes, ℕ, ℤ, Bool, false, Option, none, some, List, ◌≡◌, refl, arith,
}
use redis_event_stream_modul.Redis.{CallOptions, Redis}
use redis_event_stream_modul.Stats.Counters.{
  Counter, forwarded, events_lost, last_error_time, Latch, counter_eq, store, add_to,
}
use redis_event_stream_modul.Stats.Streams.{StreamStats}
use redis_event_stream_modul.Stats.Log.{LogLine, Detail}
use redis_event_stream_modul.Stats.Drops.{log_failure, count_drop, count_stream_drop}
use redis_event_stream_modul.Cluster.Tags.{set_node_tag, set_verified_tag}
use redis_event_stream_modul.State.{State}
use redis_event_stream_modul.State.Actions.{
  fetch_add, store_counter, set_latch, warn_once, log_line, set_entry, call, select_db,
}
use redis_event_stream_modul.State.Keeps.{Keeps, keeps_rules, Keeps-bind}

-- The counter is neither of the two.
abbrev pub IsAuxiliary : Counter → Type 0
IsAuxiliary c = (counter_eq c forwarded ≡ false) × (counter_eq c events_lost ≡ false)

-- The two counters have these values.
pub record Canonical {W : Type 0} (f l : ℕ) (s : State W) : Type 0 where
  pub forwarded_is : s.counters forwarded ≡ f
  pub lost_is : s.counters events_lost ≡ l

module _ {W : Type 0} {f l : ℕ} where
  pub fetch_add-Canonical :
      (c : Counter) (n : ℕ) → IsAuxiliary c → Keeps {W = W} (Canonical f l) (fetch_add c n)
  unfolding fetch_add add_to store
  fetch_add-Canonical c n h = record {
    at = λ s k. record {
      forwarded_is = ground (arith, k.forwarded_is, h);
      lost_is = ground (arith, k.lost_is, h);
    };
  }

  pub store_counter-Canonical :
      (c : Counter) (v : ℕ) → IsAuxiliary c → Keeps {W = W} (Canonical f l) (store_counter c v)
  unfolding store_counter store
  store_counter-Canonical c v h = record {
    at = λ s k. record {
      forwarded_is = ground (arith, k.forwarded_is, h);
      lost_is = ground (arith, k.lost_is, h);
    };
  }

  pub set_latch-Canonical : (c : Latch) (v : Bool) → Keeps {W = W} (Canonical f l) (set_latch c v)
  unfolding set_latch
  set_latch-Canonical c v = record {
    at = λ s k. record { forwarded_is = k.forwarded_is; lost_is = k.lost_is };
  }

  pub log_line-Canonical : (line : LogLine) → Keeps {W = W} (Canonical f l) (log_line line)
  unfolding log_line
  log_line-Canonical line = record {
    at = λ s k. record { forwarded_is = k.forwarded_is; lost_is = k.lost_is };
  }

  pub warn_once-Canonical : (c : Latch) (d : Detail) → Keeps {W = W} (Canonical f l) (warn_once c d)
  unfolding warn_once
  warn_once-Canonical c d = record {
    at = λ s k. record {
      forwarded_is = ground (arith, k.forwarded_is);
      lost_is = ground (arith, k.lost_is);
    };
  }

  pub set_entry-Canonical :
      (k : Str) (r : StreamStats) → Keeps {W = W} (Canonical f l) (set_entry k r)
  unfolding set_entry
  set_entry-Canonical k r = record {
    at = λ s k. record { forwarded_is = k.forwarded_is; lost_is = k.lost_is };
  }

  pub set_node_tag-Canonical : (t : Option Str) → Keeps {W = W} (Canonical f l) (set_node_tag t)
  unfolding set_node_tag
  set_node_tag-Canonical t = record {
    at = λ s k. record { forwarded_is = k.forwarded_is; lost_is = k.lost_is };
  }

  pub set_verified_tag-Canonical :
      (t : Option Str) → Keeps {W = W} (Canonical f l) (set_verified_tag t)
  unfolding set_verified_tag
  set_verified_tag-Canonical t = record {
    at = λ s k. record { forwarded_is = k.forwarded_is; lost_is = k.lost_is };
  }

module _ {W : Type 0} {f l : ℕ} (R : Redis W) where
  pub call-Canonical :
      (c : Str) (o : CallOptions) (args : List Bytes) → Keeps (Canonical f l) (call R c o args)
  unfolding call
  call-Canonical c o args = record {
    at = λ s k. record { forwarded_is = k.forwarded_is; lost_is = k.lost_is };
  }

  pub select_db-Canonical : (n : ℤ) → Keeps (Canonical f l) (select_db R n)
  unfolding select_db
  select_db-Canonical n = record {
    at = λ s k. record { forwarded_is = k.forwarded_is; lost_is = k.lost_is };
  }

pub ruleset primitive_rules = (
  keeps_rules, fetch_add-Canonical, store_counter-Canonical, set_latch-Canonical,
  log_line-Canonical, warn_once-Canonical, set_entry-Canonical, set_node_tag-Canonical,
  set_verified_tag-Canonical, call-Canonical, select_db-Canonical,
)

pub aux-last_error_time : IsAuxiliary last_error_time
aux-last_error_time = (refl, refl)

module _ {W : Type 0} {f l : ℕ} (R : Redis W) where
  pub count_drop-Canonical :
      (c : Counter) (k : Latch) (d : Detail)
      → IsAuxiliary c
      → Keeps (Canonical f l) (count_drop R c k d)
  unfolding count_drop
  count_drop-Canonical c k d h = search (primitive_rules, aux-last_error_time) depth 12

  log_failure-Canonical :
      (o : Option ℕ) (d : Detail) → Keeps {W = W} (Canonical f l) (log_failure o d)
  unfolding log_failure
  log_failure-Canonical none d = search primitive_rules
  log_failure-Canonical (some n) d = search primitive_rules

  pub count_stream_drop-Canonical :
      (k : Str) (c : Counter) (d : Detail)
      → IsAuxiliary c
      → Keeps (Canonical f l) (count_stream_drop R k c d)
  unfolding count_stream_drop
  count_stream_drop-Canonical k c d h =
      search (primitive_rules, aux-last_error_time, log_failure-Canonical) depth 16
