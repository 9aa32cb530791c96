-- ===== src/Dispatch/Order.antt =====
-- src/dispatch.rs: the order in which the fallback and the worker write what notifications have dispatched.
use redis_event_stream_modul.Base.{
  ℕ, suc, ◌≤◌, List, [], ◌∷◌, ◌++◌, none, some, ◌≡◌, refl, arith, ap,
}
use redis_event_stream_modul.Encode.Event.{PendingEvent}
use redis_event_stream_modul.Dispatch.Queue.{
  QueuedEvent, EventQueue, Attempt, try_push, drain, drain_before,
}

-- `zs` holds the events of the queue and of the jobs, each in its order.
pub data Interleave : List QueuedEvent → List QueuedEvent → List QueuedEvent → Type 0 where
  done : Interleave [] [] []
  queued :
      {x : QueuedEvent} {q js zs : List QueuedEvent}
      → Interleave q js zs
      → Interleave (x ∷ q) js (x ∷ zs)
  deferred :
      {x : QueuedEvent} {q js zs : List QueuedEvent}
      → Interleave q js zs
      → Interleave q (x ∷ js) (x ∷ zs)

-- The ids ascend, from `lo` on and below `hi`.
abbrev pub IsAscending : ℕ → List QueuedEvent → ℕ → Type 0
IsAscending lo [] hi = lo ≤ hi
IsAscending lo (x ∷ xs) hi = (lo ≤ x.id) × IsAscending (suc x.id) xs hi

pub IsAscending-weaken :
    (lo : ℕ) (zs : List QueuedEvent) (hi k : ℕ)
    → IsAscending lo zs hi
    → hi ≤ k
    → IsAscending lo zs k
IsAscending-weaken lo [] hi k h le = omega arith
IsAscending-weaken lo (x ∷ zs) hi k h le = (h.0, IsAscending-weaken _ zs hi k h.1 le)

pub IsAscending-append :
    (lo : ℕ) (zs : List QueuedEvent) (x : QueuedEvent)
    → IsAscending lo zs x.id
    → IsAscending lo (zs ++ x ∷ []) (suc x.id)
IsAscending-append lo [] x h = (h, omega arith)
IsAscending-append lo (z ∷ zs) x h = (h.0, IsAscending-append _ zs x h.1)

pub append-queued :
    {q js zs : List QueuedEvent} (x : QueuedEvent)
    → Interleave q js zs
    → Interleave (q ++ x ∷ []) js (zs ++ x ∷ [])
append-queued x done = queued done
append-queued x (queued i) = queued (append-queued x i)
append-queued x (deferred i) = deferred (append-queued x i)

pub append-deferred :
    {q js zs : List QueuedEvent} (x : QueuedEvent)
    → Interleave q js zs
    → Interleave q (js ++ x ∷ []) (zs ++ x ∷ [])
append-deferred x done = deferred done
append-deferred x (queued i) = queued (append-deferred x i)
append-deferred x (deferred i) = deferred (append-deferred x i)

lo-queued :
    {x : QueuedEvent} {q js zs : List QueuedEvent} (lo hi : ℕ)
    → Interleave (x ∷ q) js zs
    → IsAscending lo zs hi
    → lo ≤ x.id
lo-queued lo hi (queued i) h = h.0
lo-queued lo hi (deferred i) h = let k = lo-queued _ hi i h.1 in let l = h.0 in omega arith

lo-deferred :
    {x : QueuedEvent} {q js zs : List QueuedEvent} (lo hi : ℕ)
    → Interleave q (x ∷ js) zs
    → IsAscending lo zs hi
    → lo ≤ x.id
lo-deferred lo hi (deferred i) h = h.0
lo-deferred lo hi (queued i) h = let k = lo-deferred _ hi i h.1 in let l = h.0 in omega arith

drain_before-none :
    (n hi : ℕ) {q js zs : List QueuedEvent}
    → Interleave q js zs
    → IsAscending (suc n) zs hi
    → drain_before n q ≡ ([], q)
unfolding drain_before
drain_before-none n hi {q = []} i h = refl
drain_before-none n hi {q = x ∷ q} i h = ground (arith, lo-queued (suc n) hi i h)

drain_before-suc :
    (id : ℕ) (x : QueuedEvent) (q : List QueuedEvent)
    → suc x.id ≤ id
    → drain_before id (x ∷ q) ≡ (x ∷ (drain_before id q).0, (drain_before id q).1)
unfolding drain_before
drain_before-suc id x q h = ground (arith, h)

pub only_queued : {q zs : List QueuedEvent} → Interleave q [] zs → q ≡ zs
only_queued done = refl
only_queued (queued {x = x} i) = ap (λ l. x ∷ l) (only_queued i)

pub all_queued : (q : List QueuedEvent) → Interleave q [] q
all_queued [] = done
all_queued (x ∷ q) = queued (all_queued q)

-- What is left of the events after the first job has run.
abbrev Ran : QueuedEvent → List QueuedEvent → List QueuedEvent → List QueuedEvent → ℕ → Type 0
Ran j q js zs hi =
    (rest : List QueuedEvent) × (zs ≡ (drain_before j.id q).0 ++ j ∷ rest)
    × Interleave (drain_before j.id q).1 js rest
    × IsAscending (suc j.id) rest hi

pub run_first :
    (lo hi : ℕ) {j : QueuedEvent} {q js zs : List QueuedEvent}
    → Interleave q (j ∷ js) zs
    → IsAscending lo zs hi
    → Ran j q js zs hi
run_first lo hi {j = j} (deferred {zs = zs} i) h =
    let none_earlier = drain_before-none j.id hi i h.1 in
    (zs, rw none_earlier refl, rw none_earlier i, h.1)
run_first lo hi {j = j} (queued {x = x} {q = q} i) h =
    let (rest, e, left, up) = run_first _ hi i h.1 in
    let earlier = drain_before-suc j.id x q (lo-deferred _ hi i h.1) in
    (rest, rw earlier (ap (λ l. x ∷ l) e), rw earlier left, up)

-- The state of the asynchronous write modes: the queue, the jobs of the fallback that wait, and what was
-- written. `accepted` is the record of what a notification queued or deferred, in the order of notification.
pub record Line : Type 0 where
  pub queue : EventQueue
  pub jobs : List QueuedEvent
  pub written : List QueuedEvent
  pub next_id : ℕ
  pub accepted : List QueuedEvent

abbrev queued_event : Line → PendingEvent → QueuedEvent
queued_event l event = record { id = l.next_id; event = event }

-- The steps that the threads interleave. Redis runs the jobs before it releases its lock, so the worker,
-- which takes that lock, drains when there is no job.
pub data Step : Line → Line → Type 0 where
  push :
      (l : Line) (event : PendingEvent) (attempts : List Attempt) (depth : ℕ) (queue : EventQueue)
      → try_push attempts l.queue l.next_id event ≡ some (depth, queue)
      → Step l (record l {
        queue = queue;
        next_id = suc l.next_id;
        accepted = l.accepted ++ queued_event l event ∷ [];
      })
  fall_back :
      (l : Line) (event : PendingEvent) (attempts : List Attempt)
      → try_push attempts l.queue l.next_id event ≡ none
      → Step l (record l {
        jobs = l.jobs ++ queued_event l event ∷ [];
        next_id = suc l.next_id;
        accepted = l.accepted ++ queued_event l event ∷ [];
      })
  refuse_job :
      (l : Line) (event : PendingEvent) (attempts : List Attempt)
      → try_push attempts l.queue l.next_id event ≡ none
      → Step l (record l { next_id = suc l.next_id })
  run_job :
      (l : Line) (job : QueuedEvent) (jobs : List QueuedEvent)
      → l.jobs ≡ job ∷ jobs
      → Step l (record l {
        queue = record l.queue { events = (drain_before job.id l.queue.events).1 };
        jobs = jobs;
        written = l.written ++ ((drain_before job.id l.queue.events).0 ++ job ∷ []);
      })
  work :
      (l : Line) (batch_size : ℕ)
      → l.jobs ≡ []
      → Step l (record l {
        queue = record l.queue { events = (drain batch_size l.queue.events).1 };
        written = l.written ++ (drain batch_size l.queue.events).0;
      })

pub data Reach (l : Line) : Line → Type 0 where
  here : Reach l l
  next : {m n : Line} → Reach l m → Step m n → Reach l n

abbrev pub empty_line : ℕ → Line
empty_line capacity = record {
  queue = record { capacity = capacity; events = [] };
  jobs = [];
  written = [];
  next_id = 0;
  accepted = [];
}

-- What was accepted is what was written and, in order, what waits.
pub record IsOrdered (l : Line) : Type 0 where
  pub waiting : List QueuedEvent
  pub all_accepted : l.accepted ≡ l.written ++ waiting
  pub waits : Interleave l.queue.events l.jobs waiting
  pub ascends : IsAscending 0 l.accepted l.next_id
