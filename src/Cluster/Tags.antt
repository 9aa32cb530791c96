-- ===== src/Cluster/Tags.antt =====
-- src/cluster.rs: the tag segment, the choice of an owned slot and the ownership probe.
use redis_event_stream_modul.Base.{
  Str, text, is_empty, any, as_bytes, ◌=s=◌, ℕ, zero, suc, ◌+◌, ◌%◌, ◌==◌, Bool, true, false, not,
  ◌||◌, [], ◌∷◌, ◌++◌, Option, none, some, if◌then◌else◌,
}
use redis_event_stream_modul.Base.Result.{Result, ok, err}
use redis_event_stream_modul.Redis.{CallOptions, Value, Redis}
use redis_event_stream_modul.Cluster.Hash.{slot_count, fallback_tag_for_slot}
use redis_event_stream_modul.Cluster.Refusals.{is_oom}
use redis_event_stream_modul.Stats.Counters.{
  events_lost, dropped_no_owned_slot, logged_no_owned_slot,
}
use redis_event_stream_modul.Stats.Log.{no_owned_slot}
use redis_event_stream_modul.Stats.Drops.{count_drop}
use redis_event_stream_modul.State.{State}
use redis_event_stream_modul.State.Actions.{M, Act, ◌>>=◌, ◌>>◌, pure, gets, when, fetch_add, call}

-- `format!("{{{t}}}")`
unfoldable pub braced : Str → Str
braced t = b'{' ∷ (t ++ b'}' ∷ [])

abbrev pub segment_of : Option Str → Option Str
segment_of none = none
segment_of (some t) = some (braced t)

-- A canonical name that may serve as a tag.
unfoldable pub usable : Option Str → Option Str
usable none = none
usable (some name) =
    if is_empty name || any (λ c. c == b'{') name || any (λ c. c == b'}') name
    then none
    else some name

-- src/capture.rs: `xadd_call_options`.
unfoldable pub xadd_call_options : {W : Type 0} → State W → CallOptions
xadd_call_options s = record {
  replicate = true;
  errors_as_replies = true;
  verify_oom = s.settings.verify_oom;
}

module _ {W : Type 0} where
  unfoldable pub tag_segment_cached : State W → Option Str
  tag_segment_cached s = if not s.per_node then some [] else segment_of s.node_tag

  unfoldable pub set_node_tag : Option Str → Act W
  set_node_tag tag s = (tt, record s { node_tag = tag })

  unfoldable pub set_verified_tag : Option Str → Act W
  set_verified_tag tag s = (tt, record s { verified_tag = tag })

module _ {W : Type 0} (R : Redis W) where
  unfoldable pub candidate_tag : ℕ → Option Str
  candidate_tag slot = elim R.canonical_name [
    | some canonical_in_slot ↦ usable (canonical_in_slot slot)
    | none ↦ fallback_tag_for_slot slot
  ]

  -- The `XADD` with `NOMKSTREAM` on the tag's probe key.
  unfoldable pub probe_tag_owned : Str → M W (Result Str Value)
  probe_tag_owned tag = do
    options ← gets xadd_call_options
    call R (text "XADD") options (
        as_bytes (braced tag ++ text "#slotprobe")
        ∷ text "NOMKSTREAM"
        ∷ text "*"
        ∷ text "f"
        ∷ text "v"
        ∷ [])

  -- The loop over the slots, `n` of them still to visit.
  unfoldable pub select_loop : ℕ → ℕ → M W (Option Str)
  select_loop zero slot s = (none, s)
  select_loop (suc n) slot s = elim (candidate_tag slot) [
    | none ↦ select_loop n ((slot + 2609) % slot_count) s
    | some tag ↦ elim (probe_tag_owned tag s).0 [
      | ok _ ↦ (some tag, (probe_tag_owned tag s).1)
      | err _ ↦ select_loop n ((slot + 2609) % slot_count) (probe_tag_owned tag s).1
    ]
  ]

  unfoldable pub select_owned_tag : M W (Option Str)
  select_owned_tag = select_loop slot_count 0

  unfoldable pub select_if_none : Option Str → M W (Option Str)
  select_if_none (some t) = pure (some (braced t))
  select_if_none none = do tag ← select_owned_tag; set_node_tag tag; pure (segment_of tag)

  unfoldable pub tag_segment : M W (Option Str)
  tag_segment s = if not s.per_node then (some [], s) else select_if_none s.node_tag s

  -- What the probe of the pinned tag says of it.
  unfoldable pub judge_probe : Str → Result Str Value → M W Bool
  judge_probe tag (ok _) = do set_verified_tag (some tag); pure false
  judge_probe tag (err msg) = pure (not (is_oom msg))

  unfoldable pub probe_pinned : Option Str → M W Bool
  probe_pinned none = pure false
  probe_pinned (some tag) = do
    verified ← gets (λ s. elim s.verified_tag [ none ↦ false | some t ↦ t =s= tag ])
    if verified then pure false else do res ← probe_tag_owned tag; judge_probe tag res

  unfoldable pub pinned_tag_lost_by_probe : M W Bool
  pinned_tag_lost_by_probe s = if not s.per_node then (false, s) else probe_pinned s.node_tag s

  unfoldable pub count_no_slot_drop : Bool → Act W
  count_no_slot_drop canonical = do
    when canonical (fetch_add events_lost 1)
    count_drop R dropped_no_owned_slot logged_no_owned_slot no_owned_slot
