-- ===== src/Cluster/Owned.antt =====
-- src/cluster.rs: what `select_owned_tag` finds.
use mathlib.Core.Path.{subst, sym}
use redis_event_stream_modul.Base.{
  Str, ℕ, zero, suc, ◌+◌, ◌%◌, Option, none, some, Option-cases, inl, inr, ◌≡◌, refl, arith,
}
use redis_event_stream_modul.Base.Result.{ok, err, Result-cases}
use redis_event_stream_modul.Redis.{Value, Redis}
use redis_event_stream_modul.Cluster.Hash.{slot_count}
use redis_event_stream_modul.Cluster.Tags.{
  candidate_tag, probe_tag_owned, select_loop, select_owned_tag,
}
use redis_event_stream_modul.State.{State}

-- The tag is the candidate of a slot, and its probe, the last call made, was accepted.
pub record IsOwned {W : Type 0} (R : Redis W) (tag : Str) (after : State W) : Type 0 where
  pub slot : ℕ
  pub is_candidate : candidate_tag R slot ≡ some tag
  pub before : State W
  pub reply : Value
  pub is_accepted : probe_tag_owned R tag before ≡ (ok reply, after)

module _ {W : Type 0} (R : Redis W) (n slot : ℕ) (s : State W) where
  -- The next slot of the walk.
  abbrev after_slot : ℕ
  after_slot = (slot + 2609) % slot_count

  loop_unusable :
      candidate_tag R slot ≡ none → select_loop R (suc n) slot s ≡ select_loop R n after_slot s
  unfolding select_loop
  loop_unusable e = rw (select_loop, e) refl

  loop_accepted :
      (t : Str) (v : Value)
      → candidate_tag R slot ≡ some t
      → (probe_tag_owned R t s).0 ≡ ok v
      → select_loop R (suc n) slot s ≡ (some t, (probe_tag_owned R t s).1)
  unfolding select_loop
  loop_accepted t v e p = rw (select_loop, e) (rw (select_loop, p) refl)

  loop_refused :
      (t m : Str)
      → candidate_tag R slot ≡ some t
      → (probe_tag_owned R t s).0 ≡ err m
      → select_loop R (suc n) slot s ≡ select_loop R n after_slot (probe_tag_owned R t s).1
  unfolding select_loop
  loop_refused t m e p = rw (select_loop, e) (rw (select_loop, p) refl)

module _ {W : Type 0} (R : Redis W) where
  -- What an end of the loop says of its result.
  abbrev EndsOwned : Option Str × State W → Type 0
  EndsOwned end = (tag : Str) → end.0 ≡ some tag → IsOwned R tag end.1

  accepted-IsOwned :
      (slot : ℕ) (s : State W) (t : Str) (v : Value)
      → candidate_tag R slot ≡ some t
      → (probe_tag_owned R t s).0 ≡ ok v
      → EndsOwned (some t, (probe_tag_owned R t s).1)
  accepted-IsOwned slot s t v e p tag h =
      subst (λ u. IsOwned R u (probe_tag_owned R t s).1) {x = t} {y = tag} (ground (arith, h))
        record { slot = slot; is_candidate = e; before = s; reply = v; is_accepted = rw (← p) refl }

  nothing : (slot : ℕ) (s : State W) (tag : Str) → ¬ ((select_loop R zero slot s).0 ≡ some tag)
  unfolding select_loop
  nothing slot s tag h = ground (arith, h)

  select_loop-EndsOwned : (n slot : ℕ) (s : State W) → EndsOwned (select_loop R n slot s)
  select_loop-EndsOwned zero slot s = λ tag h. absurd (nothing slot s tag h)
  select_loop-EndsOwned (suc n) slot s = elim (Option-cases (candidate_tag R slot)) [
    | inl e ↦ subst EndsOwned (sym (loop_unusable R n slot s e)) (select_loop-EndsOwned n _ s)
    | inr (t, e) ↦ elim (Result-cases (probe_tag_owned R t s).0) [
      | inl (v, p) ↦
          subst EndsOwned (sym (loop_accepted R n slot s t v e p)) (accepted-IsOwned slot s t v e p)
      | inr (m, p) ↦
          subst EndsOwned (sym (loop_refused R n slot s t m e p)) (select_loop-EndsOwned n _ _)
    ]
  ]

  -- A tag that the walk selects is the candidate of a slot and its probe was accepted, as the last call
  -- that the walk made.
  pub select_owned_tag-IsOwned :
      (s : State W) (tag : Str)
      → (select_owned_tag R s).0 ≡ some tag
      → IsOwned R tag (select_owned_tag R s).1
  unfolding select_owned_tag
  select_owned_tag-IsOwned s tag h = select_loop-EndsOwned _ _ s tag h
