-- ===== src/Accounting/Settle.antt =====
-- src/stats.rs, src/cluster.rs: how the outcome of a write is settled.
use redis_event_stream_modul.Base.{Str, ℕ, ℤ, true, List, Option, refl}
use redis_event_stream_modul.Base.Result.{Result, ok, err}
use redis_event_stream_modul.Redis.{Value, Redis}
use redis_event_stream_modul.Encode.Retention.{Retention}
use redis_event_stream_modul.Stats.Counters.{
  Counter, Latch, events_lost, add_u64, store, add_to, control_markers, dropped_xadd_error,
  dropped_oom,
}
use redis_event_stream_modul.Stats.Log.{Detail}
use redis_event_stream_modul.Stats.Drops.{count_events_lost, count_events_lost_stream}
use redis_event_stream_modul.Cluster.Tags.{count_no_slot_drop}
use redis_event_stream_modul.Markers.Control.{
  recover_known, control_reply, write_control_entry, write_marker,
}
use redis_event_stream_modul.State.{State}
use redis_event_stream_modul.State.Actions.{when, fetch_add}
use redis_event_stream_modul.State.Keeps.{Keeps, Keeps-when, Leads, Keeps-Leads, Leads-bind}
use redis_event_stream_modul.Accounting.Auxiliary.{
  IsAuxiliary, Canonical, primitive_rules, count_drop-Canonical, count_stream_drop-Canonical,
}
use redis_event_stream_modul.Accounting.Write.{recover-Canonical}

-- The `n` events of a step are in exactly one of the two counters.
pub data Settled {W : Type 0} (f l n : ℕ) (s : State W) : Type 0 where
  as_forwarded : Canonical (add_u64 f n) l s → Settled f l n s
  as_lost : Canonical f (add_u64 l n) s → Settled f l n s

aux-oom : IsAuxiliary dropped_oom
aux-oom = (refl, refl)

aux-xadd : IsAuxiliary dropped_xadd_error
aux-xadd = (refl, refl)

module _ {W : Type 0} {f l : ℕ} where
  fetch_add-lost :
      (n : ℕ)
      → Leads {W = W} (Canonical f l) (fetch_add events_lost n) (λ _. Canonical f (add_u64 l n))
  unfolding fetch_add add_to store
  fetch_add-lost n = record {
    runs = λ s k. record { forwarded_is = k.forwarded_is; lost_is = rw k.lost_is refl };
  }

  recover_known-Canonical : (k : Str) → Keeps {W = W} (Canonical f l) (recover_known k)
  unfolding recover_known
  recover_known-Canonical k = record { at = λ s h. (Keeps-when _ _ (recover-Canonical k)).at s h }

module _ {W : Type 0} {f l : ℕ} (R : Redis W) where
  pub count_events_lost-lost :
      (n : ℕ) (c : Counter) (k : Latch) (d : Detail)
      → IsAuxiliary c
      → Leads (Canonical f l) (count_events_lost R n c k d) (λ _. Settled f l n)
  unfolding count_events_lost
  count_events_lost-lost n c k d h =
      Leads-bind (fetch_add-lost n)
        (λ _. record { runs = λ s z. as_lost ((count_drop-Canonical R c k d h).at s z) })

  pub count_events_lost_stream-lost :
      (n : ℕ) (k : Str) (c : Counter) (d : Detail)
      → IsAuxiliary c
      → Leads (Canonical f l) (count_events_lost_stream R n k c d) (λ _. Settled f l n)
  unfolding count_events_lost_stream
  count_events_lost_stream-lost n k c d h =
      Leads-bind (fetch_add-lost n)
        (λ _. record { runs = λ s z. as_lost ((count_stream_drop-Canonical R k c d h).at s z) })

  pub count_no_slot_drop-lost :
      Leads (Canonical f l) (count_no_slot_drop R true) (λ _. Canonical f (add_u64 l 1))
  unfolding count_no_slot_drop when
  count_no_slot_drop-lost =
      Leads-bind (fetch_add-lost 1) (λ _. Keeps-Leads (count_drop-Canonical R _ _ _ (refl, refl)))

  control_reply-Canonical :
      (k a : Str) (c : Counter) (d : Str) (r : Result Str Value)
      → IsAuxiliary c
      → Keeps (Canonical f l) (control_reply R k a c d r)
  unfolding control_reply
  control_reply-Canonical k a c d (ok v) h =
      search (primitive_rules, recover_known-Canonical) depth 8
  control_reply-Canonical k a c d (err m) h =
      search (primitive_rules, aux-oom, count_stream_drop-Canonical) depth 8

  pub write_control_entry-Canonical :
      (k a : Str) (q : Retention) (x : List (Str × Str)) (c : Counter) (d : Str)
      → IsAuxiliary c
      → Keeps (Canonical f l) (write_control_entry R k a q x c d)
  unfolding write_control_entry
  write_control_entry-Canonical k a q x c d h =
      search (primitive_rules, aux-xadd, count_drop-Canonical, control_reply-Canonical) depth 14

  pub write_marker-Canonical :
      (k a : Str) (b : Option ℤ) (q : Retention) → Keeps (Canonical f l) (write_marker R k a b q)
  unfolding write_marker
  write_marker-Canonical k a b q =
      write_control_entry-Canonical k a q _ control_markers _ (refl, refl)
