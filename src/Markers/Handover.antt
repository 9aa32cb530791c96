-- ===== src/Markers/Handover.antt =====
-- src/markers.rs: what `drain_pending_markers` does with the markers that wait.
use mathlib.Core.List.{append-nil, append_assoc}
use redis_event_stream_modul.Encode.Retention.{Retention}
use redis_event_stream_modul.Base.{
  ◌⊎◌, Str, sym, ap, ◌∙◌, Bool-cases, inl, inr, ℕ, suc, true, false, List, [], ◌∷◌, ◌++◌, length,
  ◌≡◌, refl, arith,
}
use redis_event_stream_modul.Redis.{Redis}
use redis_event_stream_modul.Stats.Counters.{dropped_defer_error, add_u64, store, add_to}
use redis_event_stream_modul.Stats.Drops.{count_drop}
use redis_event_stream_modul.Dispatch.Worker.{add_job}
use redis_event_stream_modul.Markers.Control.{control_retention}
use redis_event_stream_modul.Markers.Pending.{
  record_pending_marker, may_write, take_markers, register_markers, count_unregistered,
  drain_pending_markers,
}
use redis_event_stream_modul.State.{State, PendingMarker, Job, event_job, fallback_job, markers_job}
use redis_event_stream_modul.State.Actions.{
  ◌>>=◌, pure, gets, skip, when, fetch_add, store_counter, warn_once,
}

List-cases :
    (ms : List PendingMarker)
    → (ms ≡ []) ⊎ ((m : PendingMarker) × (rest : List PendingMarker) × (ms ≡ m ∷ rest))
List-cases [] = inl refl
List-cases (m ∷ ms) = inr (m, ms, refl)

-- The markers of the jobs that Redis has accepted, in order.
unfoldable pub handed : List Job → List PendingMarker
handed [] = []
handed (markers_job ms prefix retention ∷ jobs) = ms ++ handed jobs
handed (event_job e ∷ jobs) = handed jobs
handed (fallback_job id e ∷ jobs) = handed jobs

handed-append :
    (jobs : List Job) (ms : List PendingMarker) (prefix : Str) (retention : Retention)
    → handed (jobs ++ markers_job ms prefix retention ∷ []) ≡ handed jobs ++ ms
unfolding handed
handed-append [] ms p q = append-nil ms
handed-append (markers_job ns p' q' ∷ jobs) ms p q =
    ap (λ l. ns ++ l) (handed-append jobs ms p q) ∙ sym (append_assoc ns (handed jobs) ms)
handed-append (event_job e ∷ jobs) ms p q = handed-append jobs ms p q
handed-append (fallback_job id e ∷ jobs) ms p q = handed-append jobs ms p q

-- What happens to the pending markers: a boundary records one, a notification drains them.
pub data Handling : Type 0 where
  recorded : PendingMarker → Handling
  drained : Handling

unfoldable pub markers_recorded : List Handling → List PendingMarker
markers_recorded [] = []
markers_recorded (recorded m ∷ rest) = m ∷ markers_recorded rest
markers_recorded (drained ∷ rest) = markers_recorded rest

module _ {W : Type 0} (R : Redis W) where
  unfoldable pub handle_all : List Handling → State W → State W
  handle_all [] s = s
  handle_all (recorded m ∷ rest) s = handle_all rest (record_pending_marker m s).1
  handle_all (drained ∷ rest) s = handle_all rest (drain_pending_markers R s).1

  -- A list of pending markers that is not empty, on a master that is not loading.
  drain_pending_markers-accepted :
      (s : State W) (m : PendingMarker) (ms : List PendingMarker)
      → may_write (R.flags s.redis) ≡ true
      → s.pending_markers ≡ m ∷ ms
      → (R.add_job s.redis).0 ≡ true
      → (let t = (drain_pending_markers R s).1 in
          (t.pending_markers ≡ [])
          × (t.markers_dirty ≡ false)
          × (t.jobs ≡ s.jobs ++ markers_job (m ∷ ms) s.settings.prefix (control_retention s) ∷ []))
  unfolding drain_pending_markers take_markers register_markers add_job ◌>>=◌ gets pure when skip
      control_retention
  drain_pending_markers-accepted s m ms w p a = rw w (rw p (rw a (refl, refl, refl)))

  -- The markers that were handed over, and behind them those that wait.
  abbrev pub markers_of : State W → List PendingMarker
  markers_of s = handed s.jobs ++ s.pending_markers

  drain_none :
      (s : State W)
      → s.pending_markers ≡ []
      → markers_of (drain_pending_markers R s).1 ≡ markers_of s
  unfolding drain_pending_markers take_markers ◌>>=◌ gets when skip
  drain_none s p = elim (Bool-cases (may_write (R.flags s.redis))) [
    | inl w ↦ rw w (rw p refl)
    | inr w ↦ rw w refl
  ]

  drain_some :
      (s : State W) (m : PendingMarker) (ms : List PendingMarker)
      → ((w : W) → (R.add_job w).0 ≡ true)
      → s.pending_markers ≡ m ∷ ms
      → may_write (R.flags s.redis) ≡ true
      → markers_of (drain_pending_markers R s).1 ≡ markers_of s
  drain_some s m ms a p w =
      let (pending, _, jobs) = drain_pending_markers-accepted s m ms w p (a s.redis) in
      ap (λ l. handed (drain_pending_markers R s).1.jobs ++ l) pending
      ∙ append-nil _
      ∙ ap handed jobs
      ∙ handed-append s.jobs (m ∷ ms) _ _
      ∙ ap (λ l. handed s.jobs ++ l) (sym p)

  drain_not :
      (s : State W)
      → may_write (R.flags s.redis) ≡ false
      → markers_of (drain_pending_markers R s).1 ≡ markers_of s
  unfolding drain_pending_markers ◌>>=◌ gets skip
  drain_not s w = rw w refl

  drain-markers_of :
      (s : State W)
      → ((w : W) → (R.add_job w).0 ≡ true)
      → markers_of (drain_pending_markers R s).1 ≡ markers_of s
  drain-markers_of s a = elim (List-cases s.pending_markers) [
    | inl p ↦ drain_none s p
    | inr (m, ms, p) ↦ elim (Bool-cases (may_write (R.flags s.redis))) [
      | inl w ↦ drain_some s m ms a p w
      | inr w ↦ drain_not s w
    ]
  ]

  -- Where Redis accepts every job: however markers are recorded and the list is drained, on whatever
  -- node and while it loads or not, the markers handed to jobs, in the order of the jobs, and behind
  -- them those that still wait are what they were before with the recorded ones behind, each once and
  -- in order.
  pub handle_all-handed :
      (os : List Handling) (s : State W)
      → ((w : W) → (R.add_job w).0 ≡ true)
      → handed (handle_all os s).jobs ++ (handle_all os s).pending_markers
        ≡ (handed s.jobs ++ s.pending_markers) ++ markers_recorded os
  unfolding handle_all markers_recorded record_pending_marker
  handle_all-handed [] s a = sym (append-nil _)
  handle_all-handed (recorded m ∷ os) s a =
      handle_all-handed os (record_pending_marker m s).1 a
      ∙ ap (λ l. l ++ markers_recorded os)
          (sym (append_assoc (handed s.jobs) s.pending_markers (m ∷ [])))
      ∙ append_assoc (markers_of s) (m ∷ []) (markers_recorded os)
  handle_all-handed (drained ∷ os) s a =
      handle_all-handed os (drain_pending_markers R s).1 a
      ∙ ap (λ l. l ++ markers_recorded os) (drain-markers_of s a)

  counted_once :
      (s : State W) (n : ℕ)
      → (let t = (count_unregistered R (suc n) s).1 in
          (t.pending_markers ≡ s.pending_markers)
          × (t.markers_dirty ≡ s.markers_dirty)
          × (t.jobs ≡ s.jobs)
          × (t.counters dropped_defer_error ≡ add_u64 (s.counters dropped_defer_error) (suc n)))
  unfolding count_unregistered count_drop ◌>>=◌ gets when fetch_add store_counter warn_once add_to
      store add_u64
  counted_once s n = ground arith

  -- If Redis refuses the job, the markers are gone and each is counted as dropped, modulo 2^64.
  pub drain_pending_markers-refused :
      (s : State W) (m : PendingMarker) (ms : List PendingMarker)
      → may_write (R.flags s.redis) ≡ true
      → s.pending_markers ≡ m ∷ ms
      → (R.add_job s.redis).0 ≡ false
      → (let t = (drain_pending_markers R s).1 in
          (t.pending_markers ≡ [])
          × (t.markers_dirty ≡ false)
          × (t.jobs ≡ s.jobs)
          × (t.counters dropped_defer_error
              ≡ add_u64 (s.counters dropped_defer_error) (length (m ∷ ms))))
  unfolding drain_pending_markers take_markers register_markers add_job ◌>>=◌ gets when
  drain_pending_markers-refused s m ms w p a = rw w (rw p (rw a (counted_once _ (length ms))))
