-- ===== src/Encode/Retention.antt =====
-- src/capture.rs: `Retention`, the trim clause of a write.
use redis_event_stream_modul.Base.{
  Str, text, show_int, show_nat, ℕ, suc, ◌-◌, ◌^◌, ◌<◌, ℤ, pos, ◌-ℤ◌, saturate_i64, max_ℤ, ltb_ℤ,
  Bool, ◌++◌, Option, none, some, if◌then◌else◌, ◌≡◌, arith,
}

pub record Retention : Type 0 where
  pub maxlen : ℤ
  pub retention_ms : ℤ

unfoldable pub is_time_based : Retention → Bool
is_time_based r = ltb_ℤ (pos 0) r.retention_ms

-- `now_ms.saturating_sub(retention_ms).max(0)`
unfoldable pub threshold : ℤ → ℤ → ℤ
threshold now_ms retention_ms = max_ℤ (saturate_i64 (now_ms -ℤ retention_ms)) (pos 0)

unfoldable pub trim_clause : Retention → ℤ → Option (Str × Str)
trim_clause r now_ms =
    if is_time_based r
    then some (text "MINID", show_int (threshold now_ms r.retention_ms) ++ text "-0")
    else if ltb_ℤ (pos 0) r.maxlen
    then some (text "MAXLEN", show_int r.maxlen)
    else none

threshold-pos :
    (now ms : ℕ) → now < 2 ^ 63 → ms < 2 ^ 63 → threshold (pos now) (pos ms) ≡ pos (now - ms)
unfolding threshold max_ℤ saturate_i64 ◌-ℤ◌
threshold-pos now ms h k = ground arith

-- With a positive window the clause is `MINID` at the clock less the window, and at 0 where the window
-- is longer, whatever the cap; else it is `MAXLEN` at a positive cap, and none at the cap 0.
pub trim_clause_cases :
    (maxlen now ms : ℕ)
    → now < 2 ^ 63
    → suc ms < 2 ^ 63
    → (trim_clause (record { maxlen = pos maxlen; retention_ms = pos (suc ms) }) (pos now)
        ≡ some (text "MINID", show_nat (now - suc ms) ++ text "-0"))
      × (trim_clause (record { maxlen = pos (suc maxlen); retention_ms = pos 0 }) (pos now)
          ≡ some (text "MAXLEN", show_nat (suc maxlen)))
      × (trim_clause (record { maxlen = pos 0; retention_ms = pos 0 }) (pos now) ≡ none)
unfolding trim_clause is_time_based show_int
trim_clause_cases maxlen now ms h k =
    (ground (arith, threshold-pos now (suc ms)), ground arith, ground arith)
