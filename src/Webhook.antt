-- ===== src/Webhook.antt =====
-- examples/webhook-sink/src/lib.rs: `deliver_with_retry`. What the closures `deliver`, `sleep` and `on_retry`
-- do to the world is a parameter. A `Duration` is its number of nanoseconds.
pub mod Backoff
use redis_event_stream_modul.Base.{
  Str, ℕ, zero, suc, ◌+◌, ◌*◌, ◌-◌, ◌%◌, ◌^◌, min, leb, ltb, Bool, ◌&&◌, Option, none, some,
  if◌then◌else◌,
}
use redis_event_stream_modul.Base.Result.{Result, ok, err}

pub record RetryPolicy : Type 0 where
  pub max_attempts : ℕ
  pub initial_delay : ℕ
  pub max_delay : ℕ

-- `Duration::MAX`
abbrev pub max_duration : ℕ
max_duration = 2 ^ 64 * 1000000000 - 1

unfoldable pub saturating_mul : ℕ → ℕ → ℕ
saturating_mul d n = min (d * n) max_duration

pub record Closures (W : Type 0) : Type 0 where
  pub deliver : W → Result Str Unit × W
  pub sleep : ℕ → W → W
  pub on_retry : ℕ → Str → ℕ → W → W

module _ {W : Type 0} (C : Closures W) (policy : RetryPolicy) where
  -- The rounds of the `loop`, on fuel: `attempt` and `delay` are its variables.
  unfoldable pub retry_loop : ℕ → ℕ → ℕ → W → Option (Result Str ℕ × W)
  retry_loop zero attempt delay w = none
  retry_loop (suc fuel) attempt delay w =
      let this = (attempt + 1) % 2 ^ 32 in
      elim (C.deliver w).0 [
        | ok _ ↦ some (ok this, (C.deliver w).1)
        | err error ↦
            let rest =
              retry_loop fuel this (min (saturating_mul delay 2) policy.max_delay)
                (C.sleep delay (C.on_retry this error delay (C.deliver w).1)) in
            if ltb 0 policy.max_attempts && leb policy.max_attempts this
            then some (err error, (C.deliver w).1)
            else rest
      ]

  unfoldable pub deliver_with_retry : ℕ → W → Option (Result Str ℕ × W)
  deliver_with_retry fuel w = retry_loop fuel 0 policy.initial_delay w
