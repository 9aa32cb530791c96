-- ===== src/Markers/Control.antt =====
-- src/markers.rs: the writer of control entries, and lifecycle markers.
use redis_event_stream_modul.Base.{
  Str, Bytes, text, as_bytes, show_int, ℤ, pos, Bool, List, [], ◌∷◌, ◌++◌, Option, none, some,
  if◌then◌else◌, not,
}
use redis_event_stream_modul.Base.Result.{Result, ok, err}
use redis_event_stream_modul.Encode.Retention.{Retention, trim_clause}
use redis_event_stream_modul.Redis.{Value, Redis}
use redis_event_stream_modul.Cluster.Refusals.{is_oom}
use redis_event_stream_modul.Cluster.Tags.{xadd_call_options}
use redis_event_stream_modul.Config.Overrides.{effective_maxlen}
use redis_event_stream_modul.Capture.Mirror.{trim_args, trim_now, recover}
use redis_event_stream_modul.Stats.Counters.{
  Counter, dropped_xadd_error, dropped_oom, logged_xadd_error, control_markers,
}
use redis_event_stream_modul.Stats.Streams.{StreamStats, lookup_stats}
use redis_event_stream_modul.Stats.Log.{control_select_db_failed, control_oom, control_failed}
use redis_event_stream_modul.Stats.Drops.{count_drop, count_stream_drop}
use redis_event_stream_modul.State.{State, PendingMarker, simple, flushed}
use redis_event_stream_modul.State.Actions.{
  Act, ◌>>=◌, ◌>>◌, gets, when, fetch_add, call, select_db,
}

unfoldable pub action : PendingMarker → Str
action (simple a) = a
action (flushed _) = text "flushed"

unfoldable pub db : PendingMarker → Option ℤ
db (flushed n) = some n
db (simple _) = none

unfoldable pub extra_args : List (Str × Str) → List Bytes
extra_args [] = []
extra_args ((name, value) ∷ rest) = as_bytes name ∷ as_bytes value ∷ extra_args rest

abbrev is_present : Option StreamStats → Bool
is_present none = Bool.false
is_present (some r) = Bool.true

module _ {W : Type 0} where
  unfoldable pub control_retention : State W → Retention
  control_retention s = record {
    maxlen = effective_maxlen s.settings.overrides (text "#control") s.settings.maxlen;
    retention_ms = s.settings.retention_ms;
  }

  -- `get_mut`: a control stream without an entry gets none.
  unfoldable pub recover_known : Str → Act W
  recover_known stream s = when (is_present (lookup_stats s.stream_stats stream)) (recover stream) s

module _ {W : Type 0} (R : Redis W) where
  unfoldable pub control_reply : Str → Str → Counter → Str → Result Str Value → Act W
  control_reply control_stream act success_counter kind (ok _) = do
    fetch_add success_counter 1
    recover_known control_stream
  control_reply control_stream act success_counter kind (err msg) =
      if is_oom msg
      then count_stream_drop R control_stream dropped_oom (control_oom kind act msg)
      else count_stream_drop R control_stream dropped_xadd_error (control_failed kind act msg)

  -- The fields of the entry, behind the `*` of the `XADD`.
  unfoldable pub control_fields : Str → List (Str × Str) → State W → List Bytes
  control_fields act extra s =
      text "action"
      ∷ as_bytes act
      ∷ text "module-version"
      ∷ as_bytes R.package_version
      ∷ text "generation"
      ∷ as_bytes s.generation
      ∷ extra_args extra

  unfoldable pub control_args :
      Str → Str → Option (Str × Str) → List (Str × Str) → State W → List Bytes
  control_args control_stream act trim extra s =
      as_bytes control_stream ∷ (trim_args trim ++ text "*" ∷ control_fields act extra s)

  unfoldable pub write_control_entry :
      Str → Str → Retention → List (Str × Str) → Counter → Str → Act W
  write_control_entry control_stream act retention extra success_counter kind = do
    selected ← select_db R (pos 0)
    if not selected
        then count_drop R dropped_xadd_error logged_xadd_error (control_select_db_failed kind)
        else do
          now ← gets (trim_now R retention)
          args ← gets (control_args control_stream act (trim_clause retention now) extra)
          options ← gets xadd_call_options
          res ← call R (text "XADD") options args
          control_reply control_stream act success_counter kind res

  abbrev db_field : Option ℤ → List (Str × Str)
  db_field none = []
  db_field (some n) = (text "db", show_int n) ∷ []

  unfoldable pub write_marker : Str → Str → Option ℤ → Retention → Act W
  write_marker control_stream act db retention =
      write_control_entry control_stream act retention (db_field db) control_markers
        (text "gap marker")
