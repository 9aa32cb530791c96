-- ===== src/Capture/Mirror.antt =====
-- src/capture.rs: `mirror_entry`, `mirror_fields` and `create_auto_group`, the write of one entry.
use redis_event_stream_modul.Base.{
  Str, Bytes, text, is_empty, as_bytes, starts_with, ℕ, ℤ, pos, add_i64, leb_ℤ, ltb_ℤ, Bool, true,
  false, not, ◌&&◌, List, [], ◌∷◌, ◌++◌, Option, none, some, if◌then◌else◌,
}
use redis_event_stream_modul.Base.Result.{Result, ok, err}
use redis_event_stream_modul.Encode.Event.{EntrySpec}
use redis_event_stream_modul.Encode.Fields.{encode_entry_fields}
use redis_event_stream_modul.Encode.Retention.{Retention, is_time_based, trim_clause}
use redis_event_stream_modul.Redis.{Value, Redis}
use redis_event_stream_modul.Cluster.Refusals.{is_oom, is_slot_migrated, is_migration_refusal}
use redis_event_stream_modul.Cluster.Tags.{xadd_call_options, set_verified_tag}
use redis_event_stream_modul.Stats.Counters.{
  Counter, autogroup_created, autogroup_failed, active_streams, registry_errors, last_error_time,
  logged_registry, logged_autogroup, add_u64,
}
use redis_event_stream_modul.Stats.Streams.{StreamStats, record_success, lookup_stats, entry_of}
use redis_event_stream_modul.Stats.Log.{
  Detail, refused_oom, refused_migrating, xadd_failed, recovered, registry_sadd_failed,
  registry_recovered, group_failed, notice,
}
use redis_event_stream_modul.Stats.Drops.{count_drop}
use redis_event_stream_modul.State.{State}
use redis_event_stream_modul.State.Actions.{
  M, Act, ◌>>=◌, ◌>>◌, pure, gets, skip, when, fetch_add, store_counter, set_latch, warn_once,
  log_line, set_entry, call,
}

-- `cap_refused` is `MaxStreams`, and the `Detail`s are the messages.
pub data MirrorOutcome : Type 0 where
  written slot_migrated : MirrorOutcome
  migrating : Detail → MirrorOutcome
  oom failed : Str → Detail → MirrorOutcome
  cap_refused : Str → MirrorOutcome
  encode_error : Str → Str → MirrorOutcome

abbrev is_counted : Option StreamStats → Bool
is_counted none = false
is_counted (some r) = r.counted

-- The gate of the cap: a new stream, and `max_streams` of them exist.
unfoldable pub cap_reached : {W : Type 0} → State W → Str → ℤ → Bool
cap_reached s stream max_streams =
    ltb_ℤ (pos 0) max_streams
    && not (is_counted (lookup_stats s.stream_stats stream))
    && leb_ℤ max_streams s.current_streams

abbrev pub trim_args : Option (Str × Str) → List Bytes
trim_args none = []
trim_args (some (keyword, threshold)) = keyword ∷ text "~" ∷ threshold ∷ []

unfoldable pub xadd_args : Str → Option (Str × Str) → List Bytes → List Bytes
xadd_args stream trim fields = as_bytes stream ∷ (trim_args trim ++ text "*" ∷ fields)

-- The outcome of a refused `XADD`.
unfoldable pub classify : Str → Str → MirrorOutcome
classify stream msg =
    if is_oom msg
    then oom stream (refused_oom stream msg)
    else if is_slot_migrated msg
    then slot_migrated
    else if is_migration_refusal msg
    then migrating (refused_migrating stream msg)
    else failed stream (xadd_failed stream msg)

module _ {W : Type 0} where
  -- `entry.forwarded += logical_count`, in the entry of the stream.
  unfoldable pub count_forwarded : Str → ℕ → Act W
  count_forwarded stream n s =
      let r = entry_of s.stream_stats stream in
      set_entry stream (record r { forwarded = add_u64 r.forwarded n }) s

  abbrev pub log_recovery : Str → Option ℕ → Act W
  log_recovery stream none = skip
  log_recovery stream (some drops) = log_line (notice (recovered stream drops))

  -- `record_success`, with the notice of a recovery.
  unfoldable pub recover : Str → Act W
  recover stream = do
    entry ← gets (λ s. record_success (entry_of s.stream_stats stream))
    set_entry stream entry.0
    log_recovery stream entry.1

  -- The first successful write to the stream takes a slot of the cap.
  unfoldable pub count_stream : Str → Act W
  count_stream stream s =
      let r = entry_of s.stream_stats stream in
      if r.counted
      then (tt, s)
      else fetch_add active_streams 1 (record (set_entry stream (record r { counted = true }) s).1 {
        current_streams = add_i64 s.current_streams 1;
      })

  unfoldable pub clear_verified : Act W
  clear_verified s = when s.per_node (set_verified_tag none) s

module _ {W : Type 0} (R : Redis W) where
  -- What the reply of the `SADD` into the registry does.
  unfoldable pub registered_by : Str → Str → Result Str Value → Act W
  registered_by stream registry (ok _) = do
    r ← gets (λ s. entry_of s.stream_stats stream)
    set_entry stream (record r { registered = true; registry_failed = false })
    when r.registry_failed
        (do set_latch logged_registry false; log_line (notice (registry_recovered stream)))
  registered_by stream registry (err msg) = do
    r ← gets (λ s. entry_of s.stream_stats stream)
    set_entry stream (record r { registry_failed = true })
    fetch_add registry_errors 1
    now ← gets (λ s. R.unix_now s.redis)
    store_counter last_error_time now
    warn_once logged_registry (registry_sadd_failed registry stream msg)

  unfoldable pub register : Str → Str → Act W
  register stream registry = do
    known ← gets (λ s. (entry_of s.stream_stats stream).registered)
    if known then skip else do
      options ← gets xadd_call_options
      res ← call R (text "SADD") options (as_bytes registry ∷ as_bytes stream ∷ [])
      registered_by stream registry res

  -- The reply of `XGROUP CREATE`: whether the group exists now.
  unfoldable pub group_reply : Str → Str → Result Str Value → M W Bool
  group_reply stream group (ok _) = do fetch_add autogroup_created 1; pure true
  group_reply stream group (err msg) = if starts_with msg (text "BUSYGROUP") then pure true else do
    count_drop R autogroup_failed logged_autogroup (group_failed group stream msg)
    pure false

  unfoldable pub create_auto_group : Str → Str → M W Bool
  create_auto_group stream group = do
    options ← gets xadd_call_options
    res ←
        call R (text "XGROUP") options
          (text "CREATE" ∷ as_bytes stream ∷ as_bytes group ∷ text "0" ∷ [])
    group_reply stream group res

  unfoldable pub provision_group : Str → Act W
  provision_group stream = do
    wanted ← gets (λ s.
        s.settings.auto_group_enabled
        && not (entry_of s.stream_stats stream).group_created
        && not (is_empty s.settings.auto_group))
    group ← gets (λ s. s.settings.auto_group)
    if not wanted then skip else do
      created ← create_auto_group stream group
      r ← gets (λ s. entry_of s.stream_stats stream)
      when created (set_entry stream (record r { group_created = true }))

  -- The branch of a successful `XADD`.
  unfoldable pub entry_written : Str → Str → Counter → ℕ → M W MirrorOutcome
  entry_written stream registry counter logical_count = do
    fetch_add counter logical_count
    clear_verified
    count_forwarded stream logical_count
    recover stream
    count_stream stream
    register stream registry
    provision_group stream
    pure written

  unfoldable pub after_xadd : Str → Str → Counter → ℕ → Result Str Value → M W MirrorOutcome
  after_xadd stream registry counter n (ok _) = entry_written stream registry counter n
  after_xadd stream registry counter n (err msg) = pure (classify stream msg)

  unfoldable pub trim_now : Retention → State W → ℤ
  trim_now retention s = if is_time_based retention then R.milliseconds s.redis else pos 0

  unfoldable pub mirror_fields :
      Str → Str → Str → List Bytes → Retention → ℤ → Counter → ℕ → M W MirrorOutcome
  mirror_fields prefix seg suffix fields retention max_streams counter logical_count = do
    let stream = prefix ++ (seg ++ suffix)
    let registry = prefix ++ (seg ++ text "#streams")
    refused ← gets (λ s. cap_reached s stream max_streams)
    if refused then pure (cap_refused stream) else do
      now ← gets (trim_now retention)
      options ← gets xadd_call_options
      res ← call R (text "XADD") options (xadd_args stream (trim_clause retention now) fields)
      after_xadd stream registry counter logical_count res

  unfoldable pub mirror_encoded :
      Str → Str → Str → Result Str (List Bytes) → Retention → ℤ → Counter → M W MirrorOutcome
  mirror_encoded prefix seg suffix (ok fields) retention max_streams counter =
      mirror_fields prefix seg suffix fields retention max_streams counter 1
  mirror_encoded prefix seg suffix (err reason) retention max_streams counter =
      pure (encode_error (prefix ++ (seg ++ suffix)) reason)

  unfoldable pub mirror_entry :
      Str → Str → Str → EntrySpec → Retention → ℤ → Counter → M W MirrorOutcome
  mirror_entry prefix seg suffix spec = mirror_encoded prefix seg suffix (encode_entry_fields spec)
