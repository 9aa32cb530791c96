-- ===== src/Examples/Webhook.antt =====
-- examples/webhook-sink/src/lib.rs: the retries of a webhook that is down for two attempts.
use redis_event_stream_modul.Base.{ℕ, suc, ltb, text, if◌then◌else◌, some, refl, ◌≡◌, inr, arith}
use redis_event_stream_modul.Base.Result.{ok, err}
use redis_event_stream_modul.Webhook.{RetryPolicy, Closures, deliver_with_retry}
use redis_event_stream_modul.Webhook.Backoff.{
  AcceptedAfter, after_failure, deliver_with_retry-accepted,
}

-- The world is the number of the attempts.
abbrev down_twice : Closures ℕ
down_twice = record {
  deliver = λ w. (if ltb w 2 then err (text "503") else ok tt, suc w);
  sleep = λ d w. w;
  on_retry = λ n e d w. w;
}

abbrev five_attempts : RetryPolicy
five_attempts = record { max_attempts = 5; initial_delay = 100; max_delay = 150 }

accepted_third : AcceptedAfter down_twice five_attempts 2 0 0
unfolding AcceptedAfter after_failure
accepted_third = (text "503", refl, (text "503", refl, refl))

deliver_with_retry-accepted_example :
    (w : ℕ) × (deliver_with_retry down_twice five_attempts 3 0 ≡ some (ok 3, w))
deliver_with_retry-accepted_example =
    deliver_with_retry-accepted down_twice five_attempts 2 0 accepted_third (omega arith)
      (omega arith) (inr (omega arith))
