-- ===== src/Stats/Logging.antt =====
-- src/stats.rs: what `record_failure` and `record_success` let through to the log.
use redis_event_stream_modul.Base.{
  refl, none, ap, ◌∙◌, inr, inl, none, length, ◌⊎◌, ◌↔◌, ℕ, ◌+◌, ◌≤◌, ◌<◌, ◌^◌, List, [], ◌∷◌, some,
  suc, ◌≡◌, arith,
}
use redis_event_stream_modul.Stats.Counters.{add_u64}
use redis_event_stream_modul.Stats.Streams.{StreamStats, record_failure, record_success}

-- When a failure may log, and the number that it carries.
record_failure_iff :
    (r : StreamStats) (now n : ℕ)
    → ((record_failure r now).1 ≡ some n)
      ↔ ((r.suppressed ≡ n) × ((r.last_warned ≡ 0) ⊎ (r.last_warned + 60 ≤ now)))
unfolding record_failure
record_failure_iff r now n = ground arith

-- The failures at the times of a list, one after the other.
unfoldable pub failures : StreamStats → List ℕ → StreamStats
failures r [] = r
failures r (now ∷ rest) = failures (record_failure r now).0 rest

-- The warnings that the failures let through: the time of each, and the number that it carries.
unfoldable pub warnings : StreamStats → List ℕ → List (ℕ × ℕ)
warnings r [] = []
warnings r (now ∷ rest) =
    let later = warnings (record_failure r now).0 rest in
    elim (record_failure r now).1 [ none ↦ later | some n ↦ (now, n) ∷ later ]

-- The failures that warnings account for: their own, and the suppressed ones that they carry.
unfoldable pub reported : List (ℕ × ℕ) → ℕ
reported [] = 0
reported ((time, n) ∷ rest) = suc n + reported rest

-- The time of the last warning, if there is one.
abbrev pub last_warning : ℕ → List (ℕ × ℕ) → ℕ
last_warning before [] = before
last_warning before ((time, n) ∷ rest) = last_warning time rest

-- One failure: it warns and starts the count again, or is counted and leaves the last warning.
record_failure_cases :
    (r : StreamStats) (now : ℕ)
    → r.suppressed + 1 < 2 ^ 64
    → (((record_failure r now).1 ≡ some r.suppressed)
        × ((record_failure r now).0.suppressed ≡ 0)
        × ((record_failure r now).0.last_warned ≡ now))
      ⊎ (((record_failure r now).1 ≡ none)
          × ((record_failure r now).0.suppressed ≡ r.suppressed + 1)
          × ((record_failure r now).0.last_warned ≡ r.last_warned))
unfolding record_failure add_u64
record_failure_cases r now h = ground arith

warnings-some :
    (r : StreamStats) (now n : ℕ) (times : List ℕ)
    → (record_failure r now).1 ≡ some n
    → warnings r (now ∷ times) ≡ (now, n) ∷ warnings (record_failure r now).0 times
unfolding warnings
warnings-some r now n times h = rw (h, warnings) refl

warnings-none :
    (r : StreamStats) (now : ℕ) (times : List ℕ)
    → (record_failure r now).1 ≡ none
    → warnings r (now ∷ times) ≡ warnings (record_failure r now).0 times
unfolding warnings
warnings-none r now times h = rw (h, warnings) refl

failures-warnings :
    (r : StreamStats) (times : List ℕ)
    → r.suppressed + length times < 2 ^ 64
    → (reported (warnings r times) + (failures r times).suppressed ≡ r.suppressed + length times)
      × ((failures r times).last_warned ≡ last_warning r.last_warned (warnings r times))
unfolding failures reported
failures-warnings r [] h = unfold warnings in (omega arith, refl)
failures-warnings r (now ∷ times) h = elim (record_failure_cases r now (omega arith)) [
  | inl (out, sup, last) ↦
      let (count, at) = failures-warnings (record_failure r now).0 times (omega arith) in
      rw (warnings-some r now _ times out)
        (omega arith, at ∙ ap (λ b. last_warning b (warnings (record_failure r now).0 times)) last)
  | inr (out, sup, last) ↦
      let (count, at) = failures-warnings (record_failure r now).0 times (omega arith) in
      rw (warnings-none r now times out)
        (omega arith, at ∙ ap (λ b. last_warning b (warnings (record_failure r now).0 times)) last)
]

-- After failures at any times, a failure warns exactly when no warning stands or the last one was at
-- least 60 seconds before; the warning then carries the number of the failures that no warning has
-- accounted for yet. The failures are less than 2^64.
pub record_failure-warnings :
    (r : StreamStats) (times : List ℕ) (now n : ℕ)
    → r.suppressed + length times < 2 ^ 64
    → ((record_failure (failures r times) now).1 ≡ some n) ↔ (
        (reported (warnings r times) + n ≡ r.suppressed + length times)
        × ((last_warning r.last_warned (warnings r times) ≡ 0)
            ⊎ (last_warning r.last_warned (warnings r times) + 60 ≤ now)))
record_failure-warnings r times now n h =
    let (count, at) = failures-warnings r times h in
    let (there, back) = record_failure_iff (failures r times) now n in
    (
      λ e. (omega (arith, (there e).0), rw (← at) (there e).1),
      λ e. back (omega (arith, e.0), rw at e.1),
    )

record_failure-failing :
    (r : StreamStats) (now : ℕ)
    → r.failing_drops + 1 < 2 ^ 64
    → (record_failure r now).0.failing_drops ≡ r.failing_drops + 1
unfolding record_failure add_u64
record_failure-failing r now fits = ground (arith, fits)

failures-failing :
    (r : StreamStats) (times : List ℕ)
    → r.failing_drops + length times < 2 ^ 64
    → (failures r times).failing_drops ≡ r.failing_drops + length times
unfolding failures
failures-failing r [] fits = omega arith
failures-failing r (t ∷ times) fits =
    let one = record_failure-failing r t (omega (arith, fits)) in
    let more = failures-failing (record_failure r t).0 times (omega (arith, fits, one)) in
    omega (arith, one, more)

success-reports :
    (r : StreamStats) (n : ℕ) → r.failing_drops ≡ suc n → (record_success r).1 ≡ some (suc n)
unfolding record_success
success-reports r n h = ground (arith, h)

rearmed :
    (r : StreamStats) (n now : ℕ)
    → (record_success r).1 ≡ some (suc n)
    → (record_failure (record_success r).0 now).1 ≡ some 0
unfolding record_success record_failure
rearmed r n now h = ground (arith, h)

-- A success after failures, logged or suppressed, ends the streak: it reports the number of failures since
-- the success before, and the next failure logs at once, with nothing suppressed before it.
pub record_success-failures :
    (r : StreamStats) (t now : ℕ) (times : List ℕ)
    → r.failing_drops ≡ 0
    → length (t ∷ times) < 2 ^ 64
    → ((record_success (failures r (t ∷ times))).1 ≡ some (length (t ∷ times)))
      × ((record_failure (record_success (failures r (t ∷ times))).0 now).1 ≡ some 0)
record_success-failures r t now times zero_drops fits =
    let streak = failures-failing r (t ∷ times) (omega (arith, zero_drops, fits)) in
    let reported = success-reports _ (length times) (omega (arith, streak, zero_drops)) in
    (reported, rearmed _ (length times) now reported)
