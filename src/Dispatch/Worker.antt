-- ===== src/Dispatch/Worker.antt =====
-- src/dispatch.rs: `dispatch_pending_event`, the ordered fallback, and the body of the worker under the
-- lock of Redis; src/capture.rs: `defer_pending_event`.
use redis_event_stream_modul.Base.{
  ℕ, ltb, Bool, not, List, [], ◌∷◌, ◌++◌, length, take, drop, Option, none, some, add_i64, sub_i64,
  if◌then◌else◌,
}
use redis_event_stream_modul.Redis.{Redis}
use redis_event_stream_modul.Encode.Event.{PendingEvent, sync, mode_eq}
use redis_event_stream_modul.Dispatch.Queue.{
  QueuedEvent, EventQueue, Attempt, try_push, drain, drain_before, drain_snapshot, EnvelopeSnapshot,
  PreparedGroup,
}
use redis_event_stream_modul.Stats.Counters.{
  dropped_defer_error, logged_defer_error, async_enqueued, async_fallbacks, async_queue_high_water,
  async_drains, async_drain_events, add_u64,
}
use redis_event_stream_modul.Stats.Log.{defer_failed}
use redis_event_stream_modul.Stats.Drops.{count_event_lost}
use redis_event_stream_modul.Capture.Process.{process_pending_event, process_pending_envelope}
use redis_event_stream_modul.State.{Job, event_job, fallback_job}
use redis_event_stream_modul.State.Actions.{
  M, Act, ◌>>=◌, ◌>>◌, gets, skip, when, fetch_add, store_counter,
}

module _ {W : Type 0} where
  unfoldable pub set_queue : EventQueue → Act W
  set_queue queue s = (tt, record s { event_queue = some queue })

  -- `ASYNC_QUEUE_DEPTH`
  unfoldable pub add_depth : ℕ → Act W
  add_depth n s = (tt, record s { queue_depth = add_i64 s.queue_depth n })

  unfoldable pub sub_depth : ℕ → Act W
  sub_depth n s = (tt, record s { queue_depth = sub_i64 s.queue_depth n })

  unfoldable pub next_event_id : M W ℕ
  next_event_id s = (s.next_event_id, record s { next_event_id = add_u64 s.next_event_id 1 })

  -- `fetch_max`
  unfoldable pub raise_high_water : ℕ → Act W
  raise_high_water depth = do
    high ← gets (λ s. s.counters async_queue_high_water)
    when (ltb high depth) (store_counter async_queue_high_water depth)

  unfoldable pub count_drain : ℕ → Act W
  count_drain n = when (ltb 0 n) (do fetch_add async_drains 1; fetch_add async_drain_events n)

module _ {W : Type 0} (R : Redis W) where
  unfoldable pub count_defer_failure : Act W
  count_defer_failure = count_event_lost R dropped_defer_error logged_defer_error defer_failed

  -- `add_post_notification_job`: Redis keeps an accepted job until it runs it.
  unfoldable pub add_job : Job → M W Bool
  add_job job s =
      let (accepted, w) = R.add_job s.redis in
      (
        accepted,
        if accepted
            then record s { redis = w; jobs = s.jobs ++ job ∷ [] }
            else record s { redis = w },
      )

  unfoldable pub defer_pending_event : PendingEvent → Act W
  defer_pending_event event = do
    accepted ← add_job (event_job event)
    when (not accepted) count_defer_failure

  unfoldable pub defer_ordered_fallback : ℕ → PendingEvent → Act W
  defer_ordered_fallback id event = do
    accepted ← add_job (fallback_job id event)
    when (not accepted) count_defer_failure

  -- `try_push` on the queue, with what its caller does with the result.
  unfoldable pub pushed : ℕ → PendingEvent → Option (ℕ × EventQueue) → Act W
  pushed id event none = do fetch_add async_fallbacks 1; defer_ordered_fallback id event
  pushed id event (some (depth, queue)) = do
    set_queue queue
    add_depth 1
    fetch_add async_enqueued 1
    raise_high_water depth

  unfoldable pub enqueue : List Attempt → PendingEvent → Option EventQueue → Act W
  enqueue attempts event none = do fetch_add async_fallbacks 1; defer_pending_event event
  enqueue attempts event (some queue) = do
    id ← next_event_id
    pushed id event (try_push attempts queue id event)

  unfoldable pub dispatch_pending_event : List Attempt → PendingEvent → Act W
  dispatch_pending_event attempts event = do
    mode ← gets (λ s. s.active_mode)
    if mode_eq mode sync
        then defer_pending_event event
        else do queue ← gets (λ s. s.event_queue); enqueue attempts event queue

  unfoldable pub process_all : List QueuedEvent → Act W
  process_all [] = skip
  process_all (e ∷ rest) = do process_pending_event R e.event; process_all rest

  -- The job of the fallback; its closure holds the queue.
  unfoldable pub run_fallback_on : EventQueue → ℕ → PendingEvent → Act W
  run_fallback_on queue id event = do
    let drained = drain_before id queue.events
    set_queue (record queue { events = drained.1 })
    sub_depth (length drained.0)
    count_drain (length drained.0)
    process_all drained.0
    process_pending_event R event

  -- The worker with the lock of Redis, in mode `individual`.
  unfoldable pub worker_batch : ℕ → EventQueue → Act W
  worker_batch batch_size queue = do
    let drained = drain batch_size queue.events
    set_queue (record queue { events = drained.1 })
    sub_depth (length drained.0)
    count_drain (length drained.0)
    process_all drained.0

  unfoldable pub write_groups : List PendingEvent → List PreparedGroup → Act W
  write_groups events [] = skip
  write_groups events (group ∷ rest) = do
    process_pending_envelope R (take group.len events) group.fields
    write_groups (drop group.len events) rest

  -- In mode `envelope`, with the snapshot encoded before the lock was taken.
  unfoldable pub write_snapshot : EventQueue → EnvelopeSnapshot → Option (List QueuedEvent) → Act W
  write_snapshot queue snapshot none = skip
  write_snapshot queue snapshot (some later) = do
    set_queue (record queue { events = later })
    sub_depth snapshot.count
    fetch_add async_drains 1
    fetch_add async_drain_events snapshot.count
    write_groups snapshot.events snapshot.groups

  unfoldable pub worker_envelope : EventQueue → EnvelopeSnapshot → Act W
  worker_envelope queue snapshot =
      write_snapshot queue snapshot (drain_snapshot snapshot queue.events)
