-- ===== src/Accounting/Write.antt =====
-- src/capture.rs: what one write does to `FORWARDED` and `EVENTS_LOST`.
use redis_event_stream_modul.Base.{inr, inl, Str, ℕ, Option, none, some, refl, Bool-cases}
use redis_event_stream_modul.Base.Result.{Result, ok, err}
use redis_event_stream_modul.Redis.{Value, Redis}
use redis_event_stream_modul.Stats.Counters.{autogroup_created, autogroup_failed, active_streams}
use redis_event_stream_modul.Capture.Mirror.{
  log_recovery, count_forwarded, recover, count_stream, clear_verified, registered_by, register,
  group_reply, create_auto_group, provision_group,
}
use redis_event_stream_modul.Stats.Streams.{entry_of}
use redis_event_stream_modul.State.Actions.{set_entry}
use redis_event_stream_modul.State.Keeps.{Keeps, Keeps-when}
use redis_event_stream_modul.Accounting.Auxiliary.{
  IsAuxiliary, Canonical, primitive_rules, set_verified_tag-Canonical, count_drop-Canonical,
  set_entry-Canonical, fetch_add-Canonical, aux-last_error_time,
}

aux-active : IsAuxiliary active_streams
aux-active = (refl, refl)

aux-created : IsAuxiliary autogroup_created
aux-created = (refl, refl)

aux-group : IsAuxiliary autogroup_failed
aux-group = (refl, refl)

module _ {W : Type 0} {f l : ℕ} where
  pub count_forwarded-Canonical :
      (k : Str) (n : ℕ) → Keeps {W = W} (Canonical f l) (count_forwarded k n)
  unfolding count_forwarded
  count_forwarded-Canonical k n = record { at = λ s h. (set_entry-Canonical k _).at s h }

  log_recovery-Canonical :
      (k : Str) (o : Option ℕ) → Keeps {W = W} (Canonical f l) (log_recovery k o)
  log_recovery-Canonical k none = search primitive_rules
  log_recovery-Canonical k (some n) = search primitive_rules

  pub recover-Canonical : (k : Str) → Keeps {W = W} (Canonical f l) (recover k)
  unfolding recover
  recover-Canonical k = search (primitive_rules, log_recovery-Canonical) depth 10

  pub count_stream-Canonical : (k : Str) → Keeps {W = W} (Canonical f l) (count_stream k)
  unfolding count_stream set_entry
  count_stream-Canonical k = record {
    at = λ s h. elim (Bool-cases (entry_of s.stream_stats k).counted) [
      | inl e ↦ rw e h
      | inr e ↦ rw e (
          (fetch_add-Canonical active_streams 1 aux-active).at _
            record { forwarded_is = h.forwarded_is; lost_is = h.lost_is })
    ];
  }

  pub clear_verified-Canonical : Keeps {W = W} (Canonical f l) clear_verified
  unfolding clear_verified
  clear_verified-Canonical = record {
    at = λ s k. (Keeps-when s.per_node _ (set_verified_tag-Canonical none)).at s k;
  }

module _ {W : Type 0} {f l : ℕ} (R : Redis W) where
  registered_by-Canonical :
      (k g : Str) (r : Result Str Value) → Keeps (Canonical f l) (registered_by R k g r)
  unfolding registered_by
  registered_by-Canonical k g (ok v) = search primitive_rules depth 12
  registered_by-Canonical k g (err m) = search (primitive_rules, aux-last_error_time) depth 14

  pub register-Canonical : (k g : Str) → Keeps (Canonical f l) (register R k g)
  unfolding register
  register-Canonical k g = search (primitive_rules, registered_by-Canonical) depth 14

  group_reply-Canonical :
      (k g : Str) (r : Result Str Value) → Keeps (Canonical f l) (group_reply R k g r)
  unfolding group_reply
  group_reply-Canonical k g (ok v) = search (primitive_rules, aux-created) depth 12
  group_reply-Canonical k g (err m) =
      search (primitive_rules, aux-group, count_drop-Canonical) depth 12

  create_auto_group-Canonical : (k g : Str) → Keeps (Canonical f l) (create_auto_group R k g)
  unfolding create_auto_group
  create_auto_group-Canonical k g = search (primitive_rules, group_reply-Canonical) depth 12

  pub provision_group-Canonical : (k : Str) → Keeps (Canonical f l) (provision_group R k)
  unfolding provision_group
  provision_group-Canonical k = search (primitive_rules, create_auto_group-Canonical) depth 14
