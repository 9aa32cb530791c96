-- ===== src/Accounting/Tags.antt =====
-- src/cluster.rs: what the choice of a tag and its probe keep: all that the calls of the server and the
-- writes of the two tags keep.
use redis_event_stream_modul.Base.{
  Bytes, List, inr, inl, Str, ℕ, zero, suc, true, false, not, Option-cases, [], Option, none, some,
  if◌then◌else◌,
}
use redis_event_stream_modul.Base.Result.{Result, ok, err, Result-cases}
use redis_event_stream_modul.Redis.{CallOptions, Value, Redis}
use redis_event_stream_modul.State.{State}
use redis_event_stream_modul.Cluster.Tags.{
  set_node_tag, set_verified_tag, candidate_tag, probe_tag_owned, select_loop, select_owned_tag,
  select_if_none, tag_segment, judge_probe, probe_pinned, pinned_tag_lost_by_probe,
}
use redis_event_stream_modul.State.Keeps.{Keeps, keeps_rules}
use redis_event_stream_modul.State.Actions.{call}
use redis_event_stream_modul.Accounting.Auxiliary.{
  Canonical, call-Canonical, set_node_tag-Canonical, set_verified_tag-Canonical,
}

module _ {W : Type 0} {P : State W → Type 0} (R : Redis W)
    (call-P : (c : Str) (o : CallOptions) (args : List Bytes) → Keeps P (call R c o args))
    (node-P : (t : Option Str) → Keeps P (set_node_tag t))
    (verified-P : (t : Option Str) → Keeps P (set_verified_tag t)) where
  probe_tag_owned-Keeps : (t : Str) → Keeps (P) (probe_tag_owned R t)
  unfolding probe_tag_owned
  probe_tag_owned-Keeps t = search keeps_rules depth 8

  select_loop-Keeps : (n slot : ℕ) → Keeps (P) (select_loop R n slot)
  unfolding select_loop
  select_loop-Keeps zero slot = record { at = λ s k. k }
  select_loop-Keeps (suc n) slot = record {
    at = λ s k. elim (Option-cases (candidate_tag R slot)) [
      | inl e ↦ rw (select_loop, e) ((select_loop-Keeps n _).at s k)
      | inr (tag, e) ↦ elim (Result-cases (probe_tag_owned R tag s).0) [
        | inl (v, h) ↦ rw (select_loop, e) (rw h ((probe_tag_owned-Keeps tag).at s k))
        | inr (v, h) ↦
            rw (select_loop, e)
              (rw h ((select_loop-Keeps n _).at _ ((probe_tag_owned-Keeps tag).at s k)))
      ]
    ];
  }

  pub select_owned_tag-Keeps : Keeps (P) (select_owned_tag R)
  unfolding select_owned_tag
  select_owned_tag-Keeps = select_loop-Keeps _ _

  select_if_none-Keeps : (t : Option Str) → Keeps (P) (select_if_none R t)
  unfolding select_if_none
  select_if_none-Keeps none = search (keeps_rules, select_owned_tag-Keeps) depth 8
  select_if_none-Keeps (some t) = search keeps_rules

  pub tag_segment-Keeps : Keeps (P) (tag_segment R)
  unfolding tag_segment
  tag_segment-Keeps = record {
    at = λ s k.
        elim s.per_node
          as (λ b. P (if not b then (some [], s) else select_if_none R s.node_tag s).1) [
            | true ↦ (select_if_none-Keeps s.node_tag).at s k
            | false ↦ k
          ];
  }

  judge_probe-Keeps : (t : Str) (r : Result Str Value) → Keeps (P) (judge_probe R t r)
  unfolding judge_probe
  judge_probe-Keeps t (ok v) = search keeps_rules depth 8
  judge_probe-Keeps t (err m) = search keeps_rules depth 8

  probe_pinned-Keeps : (t : Option Str) → Keeps (P) (probe_pinned R t)
  unfolding probe_pinned
  probe_pinned-Keeps none = search keeps_rules
  probe_pinned-Keeps (some t) =
      search (keeps_rules, probe_tag_owned-Keeps, judge_probe-Keeps) depth 12

  pub pinned_tag_lost_by_probe-Keeps : Keeps (P) (pinned_tag_lost_by_probe R)
  unfolding pinned_tag_lost_by_probe
  pinned_tag_lost_by_probe-Keeps = record {
    at = λ s k.
        elim s.per_node as (λ b. P (if not b then (false, s) else probe_pinned R s.node_tag s).1) [
          | true ↦ (probe_pinned-Keeps s.node_tag).at s k
          | false ↦ k
        ];
  }

-- `FORWARDED` and `EVENTS_LOST` are kept.
module _ {W : Type 0} {f l : ℕ} (R : Redis W) where
  pub tag_segment-Canonical : Keeps (Canonical f l) (tag_segment R)
  tag_segment-Canonical =
      tag_segment-Keeps R (call-Canonical R) set_node_tag-Canonical set_verified_tag-Canonical

  pub pinned_tag_lost_by_probe-Canonical : Keeps (Canonical f l) (pinned_tag_lost_by_probe R)
  pinned_tag_lost_by_probe-Canonical =
      pinned_tag_lost_by_probe-Keeps R (call-Canonical R) set_node_tag-Canonical
        set_verified_tag-Canonical
