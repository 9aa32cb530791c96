-- ===== src/Dispatch/Stale.antt =====
-- src/dispatch.rs: `drain_snapshot` on a queue that has moved on.
use mathlib.Core.Path.{subst}
use redis_event_stream_modul.Base.{
  ℕ, zero, suc, ◌≤◌, length, true, false, List, [], ◌∷◌, ◌++◌, take, drop, some, ◌≡◌, refl, sym,
  arith, ap,
}
use redis_event_stream_modul.Dispatch.Queue.{
  QueuedEvent, EnvelopeSnapshot, prepare_envelopes, is_id, drain_snapshot, events_of, id_at,
}
use redis_event_stream_modul.Dispatch.Envelope.{snapshot-parts}
use redis_event_stream_modul.Dispatch.Order.{IsAscending}

lower :
    (n lo : ℕ) (zs : List QueuedEvent) (hi : ℕ)
    → IsAscending lo zs hi
    → n ≤ lo
    → IsAscending n zs hi
lower n lo [] hi h le = omega arith
lower n lo (z ∷ zs) hi h le = (omega (arith, h.0), h.1)

drop-IsAscending :
    (k lo : ℕ) (q new : List QueuedEvent) (hi : ℕ)
    → IsAscending lo (q ++ new) hi
    → IsAscending lo (drop k q ++ new) hi
drop-IsAscending zero lo q new hi h = h
drop-IsAscending (suc k) lo [] new hi h = h
drop-IsAscending (suc k) lo (x ∷ q) new hi h =
    lower lo (suc x.id) (drop k q ++ new) hi (drop-IsAscending k (suc x.id) q new hi h.1)
      (omega (arith, h.0))

not_first :
    (n : ℕ) (zs : List QueuedEvent) (hi : ℕ)
    → IsAscending (suc n) zs hi
    → is_id (id_at zs 0) n ≡ false
not_first n [] hi h = refl
not_first n (z ∷ zs) hi h = ground (arith, h.0)

-- The first event has left the queue for good.
first_kept :
    (k lo hi : ℕ) (x : QueuedEvent) (xs new : List QueuedEvent)
    → IsAscending lo (x ∷ (xs ++ new)) hi
    → is_id (id_at (drop k (x ∷ xs) ++ new) 0) x.id ≡ true
    → k ≡ 0
first_kept zero lo hi x xs new up h = refl
first_kept (suc k) lo hi x xs new up h = absurd (
    ground (
      arith,
      h,
      not_first x.id (drop k xs ++ new) hi (drop-IsAscending k (suc x.id) xs new hi up.1),
    ))

take-take-append :
    (n : ℕ) (q new : List QueuedEvent) → take (length (take n q)) (q ++ new) ≡ take n q
take-take-append zero q new = refl
take-take-append (suc n) [] new = refl
take-take-append (suc n) (x ∷ q) new = ap (λ l. x ∷ l) (take-take-append n q new)

drained :
    (snapshot : EnvelopeSnapshot) (events rest : List QueuedEvent)
    → drain_snapshot snapshot events ≡ some rest
    → (is_id (id_at events 0) snapshot.first_id ≡ true) × (rest ≡ drop snapshot.count events)
unfolding drain_snapshot
drained snapshot events rest h = ground (arith, h)

same_events :
    (snapshot : EnvelopeSnapshot) (limit k : ℕ) (q new rest : List QueuedEvent)
    → k ≡ 0
    → snapshot.events ≡ events_of (take limit q)
    → snapshot.count ≡ length (take limit q)
    → events_of (take snapshot.count (drop k q ++ new)) ≡ snapshot.events
same_events snapshot limit k q new rest e events count =
    rw e (rw count (rw (take-take-append limit q new) (sym events)))

-- A snapshot was encoded from the queue `q`; before the worker got the lock, the first `k` events of `q`
-- were drained and `new` events, with later ids, were queued. If the snapshot is then accepted, what it
-- removes from the queue is, event for event, what was encoded.
pub drain_snapshot-current :
    (limit k lo hi : ℕ) (q new rest : List QueuedEvent) (snapshot : EnvelopeSnapshot)
    → IsAscending lo (q ++ new) hi
    → prepare_envelopes limit q ≡ some snapshot
    → drain_snapshot snapshot (drop k q ++ new) ≡ some rest
    → (events_of (take snapshot.count (drop k q ++ new)) ≡ snapshot.events)
      × (rest ≡ drop snapshot.count (drop k q ++ new))
drain_snapshot-current zero k lo hi q new rest snapshot up h d =
    let (_, _, _, first) = snapshot-parts zero q snapshot h in absurd (ground (arith, first))
drain_snapshot-current (suc limit) k lo hi [] new rest snapshot up h d =
    let (_, _, _, first) = snapshot-parts (suc limit) [] snapshot h in
    absurd (ground (arith, first))
drain_snapshot-current (suc limit) k lo hi (x ∷ q) new rest snapshot up h d =
    let (events, count, _, first) = snapshot-parts (suc limit) (x ∷ q) snapshot h in
    let (front, removed) = drained snapshot (drop k (x ∷ q) ++ new) rest d in
    let id : x.id ≡ snapshot.first_id = ground (arith, first) in
    let kept =
      first_kept k lo hi x q new up
        (subst (λ n. is_id (id_at (drop k (x ∷ q) ++ new) 0) n ≡ true) (sym id) front) in
    (same_events snapshot (suc limit) k (x ∷ q) new rest kept events count, removed)
