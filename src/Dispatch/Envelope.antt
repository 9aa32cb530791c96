-- ===== src/Dispatch/Envelope.antt =====
-- src/dispatch.rs: `prepare_envelopes`, the groups of a snapshot.
use mathlib.Core.Path.{subst}
use redis_event_stream_modul.Base.{
  ℕ, zero, suc, ◌+◌, ◌≤◌, length, length-map, true, List, [], ◌∷◌, ◌++◌, take, drop, All, Option,
  none, some, ◌≡◌, refl, sym, ◌∙◌, arith, ap,
}
use redis_event_stream_modul.Encode.Event.{PendingEvent}
use redis_event_stream_modul.Encode.Document.{encode_batch_fields}
use redis_event_stream_modul.Dispatch.Queue.{
  QueuedEvent, PreparedGroup, EnvelopeSnapshot, envelope_compatible, run_with, prepared,
  prepare_groups, prepare_envelopes, snapshot_of, events_of, id_at,
}

-- The groups cut the events into slices, none empty: each is encoded whole, and its events go with its first.
abbrev pub IsCompatibleSlice : List PendingEvent → Type 0
IsCompatibleSlice [] = ⊥
IsCompatibleSlice (e ∷ es) = All (λ x. envelope_compatible e x ≡ true) es

abbrev pub AreSlices : List PendingEvent → List PreparedGroup → Type 0
AreSlices events [] = events ≡ []
AreSlices events (g ∷ gs) =
    (1 ≤ g.len)
    × (g.len ≤ length events)
    × (g.fields ≡ encode_batch_fields (take g.len events))
    × IsCompatibleSlice (take g.len events)
    × AreSlices (drop g.len events) gs

run_with-split :
    (first : PendingEvent) (es : List PendingEvent)
    → (let r = run_with first es in
        (r.0 ++ r.1 ≡ es)
        × (All (λ x. envelope_compatible first x ≡ true) r.0)
        × (length r.0 + length r.1 ≡ length es))
unfolding run_with
run_with-split first [] = (refl, tt, refl)
run_with-split first (e ∷ es) = ground (arith, run_with-split first es)

take-append : (xs ys : List PendingEvent) → take (length xs) (xs ++ ys) ≡ xs
take-append [] ys = refl
take-append (x ∷ xs) ys = ap (λ l. x ∷ l) (take-append xs ys)

drop-append : (xs ys : List PendingEvent) → drop (length xs) (xs ++ ys) ≡ ys
drop-append [] ys = refl
drop-append (x ∷ xs) ys = drop-append xs ys

prepare_groups-AreSlices :
    (fuel : ℕ) (events : List PendingEvent)
    → length events ≤ fuel
    → AreSlices events (prepare_groups fuel events)
unfolding prepare_groups prepared
prepare_groups-AreSlices zero [] h = refl
prepare_groups-AreSlices zero (e ∷ es) h = absurd (omega arith)
prepare_groups-AreSlices (suc fuel) [] h = refl
prepare_groups-AreSlices (suc fuel) (e ∷ es) h =
    let same = (run_with e es).0 in
    let others = (run_with e es).1 in
    let (whole, compatible, len) = run_with-split e es in
    let front : take (length same) es ≡ same =
      ap (λ l. take (length same) l) (sym whole) ∙ take-append same others in
    let back : drop (length same) es ≡ others =
      ap (λ l. drop (length same) l) (sym whole) ∙ drop-append same others in
    (
      omega arith,
      omega (arith, len),
      ap (λ l. encode_batch_fields (e ∷ l)) (sym front),
      subst (All (λ x. envelope_compatible e x ≡ true)) (sym front) compatible,
      subst (λ l. AreSlices l (prepare_groups fuel others)) (sym back)
          (prepare_groups-AreSlices fuel others (omega (arith, len))),
    )

snapshot_of-parts :
    (selected : List QueuedEvent) (a b : Option ℕ) (snapshot : EnvelopeSnapshot)
    → snapshot_of selected a b ≡ some snapshot
    → (snapshot.events ≡ events_of selected)
      × (snapshot.count ≡ length selected)
      × (snapshot.groups ≡ prepare_groups (length selected) (events_of selected))
      × (a ≡ some snapshot.first_id)
snapshot_of-parts selected none b snapshot h = absurd (ground (arith, h))
snapshot_of-parts selected (some x) none snapshot h = absurd (ground (arith, h))
snapshot_of-parts selected (some x) (some y) snapshot h = ground (arith, h)

pub snapshot-parts :
    (limit : ℕ) (q : List QueuedEvent) (snapshot : EnvelopeSnapshot)
    → prepare_envelopes limit q ≡ some snapshot
    → (snapshot.events ≡ events_of (take limit q))
      × (snapshot.count ≡ length (take limit q))
      × (snapshot.groups ≡ prepare_groups (length (take limit q)) (events_of (take limit q)))
      × (id_at (take limit q) 0 ≡ some snapshot.first_id)
unfolding prepare_envelopes
snapshot-parts limit q snapshot h = snapshot_of-parts (take limit q) _ _ snapshot h

-- An encoded snapshot holds the first events of the queue, at most `limit` of them; its groups cut them
-- into slices in order, each group with the encoding of its slice, and the events of a slice go to the
-- stream of its first event under the same trimming and the same cap.
pub prepare_envelopes-AreSlices :
    (limit : ℕ) (q : List QueuedEvent) (snapshot : EnvelopeSnapshot)
    → prepare_envelopes limit q ≡ some snapshot
    → (snapshot.events ≡ events_of (take limit q)) × AreSlices snapshot.events snapshot.groups
prepare_envelopes-AreSlices limit q snapshot h =
    let (events, count, groups, _) = snapshot-parts limit q snapshot h in
    (
      events,
      rw events (
          rw groups (
            prepare_groups-AreSlices _ _
              (omega (arith, length-map (take limit q) (λ e. e.event))))),
    )
