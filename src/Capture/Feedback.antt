-- ===== src/Capture/Feedback.antt =====
-- src/capture.rs: what the gates of `on_keyspace_event` let through.
use redis_event_stream_modul.Base.{
  ◌↔◌, Str, Bytes, is_empty, starts_with, starts_with-append, as_bytes, ℤ, Bool, true, false, List,
  ◌++◌, if◌then◌else◌, ◌≡◌, refl, arith,
}
use redis_event_stream_modul.Redis.{Flags, Redis}
use redis_event_stream_modul.Config.Filter.{NotifyEvent, matches}
use redis_event_stream_modul.Config.KeyFilter.{matches_key}
use redis_event_stream_modul.Config.SourceDbs.{matches_db}
use redis_event_stream_modul.Encode.Sanitize.{sanitize}
use redis_event_stream_modul.Dispatch.Queue.{Attempt}
use redis_event_stream_modul.Capture.Gate.{
  returned, skipped, admitted, gate, conclude, verdict, on_keyspace_event,
}
use redis_event_stream_modul.Markers.Pending.{drain_pending_markers}
use redis_event_stream_modul.Stats.Counters.{skipped_self}
use redis_event_stream_modul.State.{State, Settings}
use redis_event_stream_modul.State.Actions.{◌>>=◌, gets, skip, when, fetch_add}

-- The conditions under which an event is dispatched, one for each gate in their order.
abbrev pub IsAdmitted : Settings → Flags → ℤ → NotifyEvent → Str → Bytes → Type 0
IsAdmitted c flags db event_type event key =
    (c.enabled ≡ true)
    × (starts_with key (as_bytes c.prefix) ≡ false)
    × (flags.master ≡ true)
    × (flags.loading ≡ false)
    × (matches c.filter event_type event ≡ true)
    × (matches_key c.key_filter key ≡ true)
    × (matches_db c.source_dbs db ≡ true)
    × (is_empty (sanitize event) ≡ false)

-- A notification is dispatched exactly when the module is enabled, the key is not under the prefix, the
-- node is a master that is not loading, the three filters pass and the event has a routable name.
pub gate_iff :
    (c : Settings) (flags : Flags) (db : ℤ) (event_type : NotifyEvent) (event : Str) (key : Bytes)
    → (gate c flags db event_type event key ≡ admitted db)
      ↔ IsAdmitted c flags db event_type event key
unfolding gate
gate_iff c flags db event_type event key = ground arith

gate-own :
    (c : Settings) (flags : Flags) (db : ℤ) (event_type : NotifyEvent) (event : Str) (key : Bytes)
    → starts_with key (as_bytes c.prefix) ≡ true
    → gate c flags db event_type event key ≡ (if c.enabled then skipped skipped_self else returned)
unfolding gate
gate-own c flags db event_type event key h = ground (arith, h)

conclude-own :
    {W : Type 0} (R : Redis W) (attempts : List Attempt) (event_type : NotifyEvent) (event : Str)
    (key : Bytes) (b : Bool) (s : State W)
    → (conclude R attempts event_type event key (if b then skipped skipped_self else returned) s).1
      ≡ (if b then (fetch_add skipped_self 1 s).1 else s)
unfolding conclude skip
conclude-own R attempts event_type event key true s = refl
conclude-own R attempts event_type event key false s = refl

after_gate_0 :
    {W : Type 0} (R : Redis W) (attempts : List Attempt) (event_type : NotifyEvent) (event : Str)
    (rest : Bytes) (s : State W) (b : Bool)
    → b ≡ false
    → (let t = (when b (drain_pending_markers R) s).1 in
        let key = as_bytes s.settings.prefix ++ rest in
        (conclude R attempts event_type event key (verdict R event_type event key t) t).1
        ≡ (if s.settings.enabled then (fetch_add skipped_self 1 s).1 else s))
unfolding when verdict
after_gate_0 R attempts event_type event rest s true h = absurd (ground (arith, h))
after_gate_0 R attempts event_type event rest s false h =
    rw
      (gate-own s.settings (R.flags s.redis) (R.selected_db s.redis) event_type event
        (as_bytes s.settings.prefix ++ rest) (starts_with-append _ rest))
      (conclude-own R attempts event_type event _ s.settings.enabled s)

-- The module does not capture its own writes: for a key under the prefix, with no marker pending, a
-- notification changes nothing but the counter of own notifications, and that one only while the module
-- is enabled. So it neither writes nor defers anything, whatever the event, the flags and the filters.
pub on_keyspace_event_own :
    {W : Type 0} (R : Redis W) (attempts : List Attempt) (event_type : NotifyEvent) (event : Str)
    (rest : Bytes) (s : State W)
    → s.markers_dirty ≡ false
    → (on_keyspace_event R attempts event_type event (as_bytes s.settings.prefix ++ rest) s).1
      ≡ (if s.settings.enabled then (fetch_add skipped_self 1 s).1 else s)
unfolding on_keyspace_event ◌>>=◌ gets
on_keyspace_event_own R attempts event_type event rest s h =
    after_gate_0 R attempts event_type event rest s s.markers_dirty h
