-- ===== src/Webhook/Backoff.antt =====
-- examples/webhook-sink/src/lib.rs: the attempts and the delays of `deliver_with_retry`.
use redis_event_stream_modul.Base.{
  ◌⊎◌, Str, ℕ, zero, suc, ◌+◌, ◌*◌, ◌%◌, ◌^◌, ◌<◌, ◌≤◌, min, leb, ltb, ◌&&◌, some, ◌≡◌, refl, ap,
  ◌∙◌, arith, false,
}
use redis_event_stream_modul.Base.Result.{ok, err}
use redis_event_stream_modul.Webhook.{
  RetryPolicy, max_duration, saturating_mul, Closures, retry_loop, deliver_with_retry,
}

unfoldable pub doubled : ℕ → ℕ → ℕ
doubled d zero = d
doubled d (suc k) = doubled d k * 2

-- The delay after `k` failures and the one before them: the initial delay, then its doubles below the cap.
unfoldable pub backoff : RetryPolicy → ℕ → ℕ
backoff p zero = p.initial_delay
backoff p (suc k) = min (doubled p.initial_delay (suc k)) p.max_delay

min_doubled : (d m top : ℕ) → m ≤ top → min (min (d * 2) top) m ≡ min (d * 2) m
min_doubled d m top h = ground arith

min_capped : (d m top : ℕ) → m ≤ top → min (min (min d m * 2) top) m ≡ min (d * 2) m
min_capped d m top h = ground arith

next_backoff :
    (p : RetryPolicy) (k : ℕ)
    → p.max_delay ≤ max_duration
    → min (saturating_mul (backoff p k) 2) p.max_delay ≡ backoff p (suc k)
unfolding backoff saturating_mul doubled
next_backoff p zero h = min_doubled p.initial_delay p.max_delay max_duration h
next_backoff p (suc k) h = min_capped (doubled p.initial_delay k * 2) p.max_delay max_duration h

advanced :
    (p : RetryPolicy) (k : ℕ)
    → p.max_delay ≤ max_duration
    → min (saturating_mul (backoff p k) 2) p.max_delay ≡ backoff p (k + 1)
advanced p k c = next_backoff p k c ∙ ap (backoff p) (omega arith)

no_wrap : (n k : ℕ) → k + n + 1 < 2 ^ 32 → (k + 1) % 2 ^ 32 ≡ k + 1
no_wrap n k b = ground arith

goes_on : (n k m : ℕ) → (m ≡ 0) ⊎ (k + suc n < m) → (ltb 0 m && leb m (k + 1)) ≡ false
goes_on n k m g = ground arith

module _ {W : Type 0} (C : Closures W) (p : RetryPolicy) where
  -- The world after the failure of the attempt that follows `k` failures, with its notice and its delay.
  unfoldable pub after_failure : ℕ → Str → W → W
  after_failure k error w =
      C.sleep (backoff p k) (C.on_retry (k + 1) error (backoff p k) (C.deliver w).1)

  -- After `k` failures, `n` more attempts fail and the next one is accepted.
  unfoldable pub AcceptedAfter : ℕ → ℕ → W → Type 0
  AcceptedAfter zero k w = (C.deliver w).0 ≡ ok tt
  AcceptedAfter (suc n) k w =
      (error : Str) × ((C.deliver w).0 ≡ err error)
      × AcceptedAfter n (k + 1) (after_failure k error w)

  round_failed :
      (f k : ℕ) (w : W) (error : Str)
      → (C.deliver w).0 ≡ err error
      → (k + 1) % 2 ^ 32 ≡ k + 1
      → (ltb 0 p.max_attempts && leb p.max_attempts (k + 1)) ≡ false
      → p.max_delay ≤ max_duration
      → retry_loop C p (suc f) k (backoff p k) w
        ≡ retry_loop C p f (k + 1) (backoff p (k + 1)) (after_failure k error w)
  unfolding retry_loop after_failure
  round_failed f k w error h a g c = rw (h, retry_loop) (rw (a, g, advanced p k c) refl)

  round_accepted :
      (f k d : ℕ) (w : W)
      → (C.deliver w).0 ≡ ok tt
      → (k + 1) % 2 ^ 32 ≡ k + 1
      → retry_loop C p (suc f) k d w ≡ some (ok (k + 1), (C.deliver w).1)
  unfolding retry_loop
  round_accepted f k d w h a = rw (h, retry_loop) (rw a refl)

  retry_loop-accepted :
      (n k : ℕ) (w : W)
      → AcceptedAfter n k w
      → p.max_delay ≤ max_duration
      → k + n + 1 < 2 ^ 32
      → (p.max_attempts ≡ 0) ⊎ (k + n < p.max_attempts)
      → (w' : W) × (retry_loop C p (suc n) k (backoff p k) w ≡ some (ok (k + n + 1), w'))
  unfolding AcceptedAfter
  retry_loop-accepted zero k w h c b g = (
    (C.deliver w).1,
    round_accepted 0 k _ w h (no_wrap 0 k b) ∙ ap (λ a. some (ok a, (C.deliver w).1)) (omega arith),
  )
  retry_loop-accepted (suc n) k w (error, h, rest) c b g =
      let (w', r) =
        retry_loop-accepted n (k + 1) (after_failure k error w) rest c (omega arith)
          (ground arith) in
      (
        w',
        round_failed (suc n) k w error h (no_wrap (suc n) k b) (goes_on n k p.max_attempts g) c
            ∙ r
            ∙ ap (λ a. some (ok a, w')) (omega arith),
      )

-- If the first `n` attempts fail and the next is accepted, each failed one being notified and followed
-- by its delay, which is the initial one doubled after every failure and capped from the second on; and
-- if the attempts are unlimited or more than `n`: the loop ends within `n + 1` rounds and reports
-- `n + 1` attempts.
pub deliver_with_retry-accepted :
    {W : Type 0} (C : Closures W) (p : RetryPolicy) (n : ℕ) (w : W)
    → AcceptedAfter C p n 0 w
    → p.max_delay ≤ max_duration
    → n + 1 < 2 ^ 32
    → (p.max_attempts ≡ 0) ⊎ (n < p.max_attempts)
    → (w' : W) × (deliver_with_retry C p (suc n) w ≡ some (ok (n + 1), w'))
unfolding deliver_with_retry backoff
deliver_with_retry-accepted C p n w h c b g =
    let (w', r) = retry_loop-accepted C p n 0 w h c (omega arith) (ground arith) in
    (w', r ∙ ap (λ a. some (ok a, w')) (omega arith))
