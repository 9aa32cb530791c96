-- ===== src/Capture/Flush.antt =====
-- src/capture.rs: `on_flush_started`, `on_swapdb` and `recheck_eviction_risk`.
use redis_event_stream_modul.Base.{
  Str, text, starts_with, ℤ, pos, leb_ℤ, Bool, false, not, ◌&&◌, ◌||◌, [], ◌∷◌, Option, none, some,
}
use redis_event_stream_modul.Base.Result.{Result, ok}
use redis_event_stream_modul.Redis.{CallOptions, Value, bulk, array, cons, Redis}
use redis_event_stream_modul.Stats.Counters.{eviction_risk}
use redis_event_stream_modul.Stats.Log.{warning, notice, swapped, at_risk, no_longer_at_risk}
use redis_event_stream_modul.Markers.Pending.{may_write, record_pending_marker}
use redis_event_stream_modul.State.{simple, flushed}
use redis_event_stream_modul.State.Actions.{
  Act, ◌>>=◌, ◌>>◌, gets, skip, when, set_latch, log_line, call,
}

-- `Context::call`, with the options of a plain call.
abbrev pub plain_options : CallOptions
plain_options = record { replicate = false; errors_as_replies = false; verify_oom = false }

abbrev pub is_zero : ℤ → Bool
is_zero n = leb_ℤ n (pos 0) && leb_ℤ (pos 0) n

module _ {W : Type 0} where
  -- `STREAM_STATS.clear()` and the reset of `CURRENT_STREAMS`.
  unfoldable pub clear_streams : Act W
  clear_streams s = (tt, record s { stream_stats = []; current_streams = pos 0 })

module _ {W : Type 0} (R : Redis W) where
  unfoldable pub on_flush_started : ℤ → Act W
  on_flush_started dbnum = do
    clear_streams
    flags ← gets (λ s. R.flags s.redis)
    when (may_write flags) (record_pending_marker (flushed dbnum))

  unfoldable pub on_swapdb : ℤ → ℤ → Act W
  on_swapdb first second = do
    flags ← gets (λ s. R.flags s.redis)
    when ((is_zero first || is_zero second) && may_write flags) (do
      log_line (warning (swapped first second))
      clear_streams
      record_pending_marker (simple (text "swapdb")))

  -- The second item of the reply of `CONFIG GET`; a value that is not a text reads as the empty one.
  unfoldable pub policy_of : Result Str Value → Option Str
  policy_of (ok (array (cons _ (cons (bulk policy) _)))) = some policy
  policy_of (ok (array (cons _ (cons _ _)))) = some []
  policy_of _ = none

  unfoldable pub judge_policy : Option Str → Act W
  judge_policy none = skip
  judge_policy (some policy) = do
    let risky = starts_with policy (text "allkeys-")
    was ← gets (λ s. s.latches eviction_risk)
    set_latch eviction_risk risky
    when (risky && not was) (log_line (warning (at_risk policy)))
    when (not risky && was) (log_line (notice (no_longer_at_risk policy)))

  unfoldable pub recheck_eviction_risk : Act W
  recheck_eviction_risk = do
    res ← call R (text "CONFIG") plain_options (text "GET" ∷ text "maxmemory-policy" ∷ [])
    judge_policy (policy_of res)
