-- ===== src/Dispatch/Fifo.antt =====
-- src/dispatch.rs: the steps of Dispatch/Order, one by one.
use redis_event_stream_modul.Base.{
  length-append, ℕ, ◌≤◌, length, List, [], ◌∷◌, ◌++◌, take, drop, take-append-drop, some, ◌≡◌, refl,
  sym, ◌∙◌, arith, ap,
}
use mathlib.Core.Path.{subst}
use mathlib.Core.List.{append_assoc}
use redis_event_stream_modul.Encode.Event.{PendingEvent}
use redis_event_stream_modul.Dispatch.Queue.{
  QueuedEvent, EventQueue, Attempt, acquired, poisoned, would_block, push_back, try_push, drain,
  drain_before,
}
use redis_event_stream_modul.Dispatch.Order.{
  Interleave, IsAscending, IsAscending-weaken, IsAscending-append, append-queued, append-deferred,
  only_queued, all_queued, run_first, Line, Step, push, fall_back, refuse_job, run_job, work, Reach,
  here, next, empty_line, IsOrdered,
}

pub IsAscending-right :
    (lo : ℕ) (xs ys : List QueuedEvent) (hi : ℕ)
    → IsAscending lo (xs ++ ys) hi
    → (m : ℕ) × IsAscending m ys hi
IsAscending-right lo [] ys hi h = (lo, h)
IsAscending-right lo (x ∷ xs) ys hi h = IsAscending-right _ xs ys hi h.1

push_back-append :
    (q : EventQueue) (id : ℕ) (event : PendingEvent) (depth : ℕ) (r : EventQueue)
    → push_back q id event ≡ some (depth, r)
    → (r.events ≡ q.events ++ record { id = id; event = event } ∷ [])
      × (r.capacity ≡ q.capacity)
      × (depth ≡ length r.events)
      × (length r.events ≤ r.capacity)
unfolding push_back
push_back-append q id event depth r h =
    ground (arith, h, length-append q.events (record { id = id; event = event } ∷ []))

-- A push that succeeds appends the event, and the queue stays within its capacity.
pub try_push-append :
    (attempts : List Attempt) (q : EventQueue) (id : ℕ) (event : PendingEvent) (depth : ℕ)
    (r : EventQueue)
    → try_push attempts q id event ≡ some (depth, r)
    → (r.events ≡ q.events ++ record { id = id; event = event } ∷ [])
      × (r.capacity ≡ q.capacity)
      × (depth ≡ length r.events)
      × (length r.events ≤ r.capacity)
unfolding try_push
try_push-append [] q id event depth r h = ground (arith, h)
try_push-append (acquired ∷ rest) q id event depth r h = push_back-append q id event depth r h
try_push-append (poisoned ∷ rest) q id event depth r h = ground (arith, h)
try_push-append (would_block ∷ rest) q id event depth r h =
    try_push-append rest q id event depth r h

accept :
    (accepted written waiting : List QueuedEvent) (x : QueuedEvent)
    → accepted ≡ written ++ waiting
    → accepted ++ x ∷ [] ≡ written ++ (waiting ++ x ∷ [])
accept accepted written waiting x e =
    ap (λ a. a ++ x ∷ []) e ∙ append_assoc written waiting (x ∷ [])

regroup :
    (w d : List QueuedEvent) (j : QueuedEvent) (rest : List QueuedEvent)
    → w ++ (d ++ j ∷ rest) ≡ w ++ (d ++ j ∷ []) ++ rest
regroup w d j rest =
    sym (append_assoc w (d ++ j ∷ []) rest ∙ ap (λ t. w ++ t) (append_assoc d (j ∷ []) rest))

waiting_ascends : (l : Line) (o : IsOrdered l) → (m : ℕ) × IsAscending m o.waiting l.next_id
waiting_ascends l o =
    IsAscending-right 0 l.written o.waiting l.next_id
      (subst (λ a. IsAscending 0 a l.next_id) o.all_accepted o.ascends)

job_ran :
    (l : Line) (job : QueuedEvent) (jobs : List QueuedEvent) (h : l.jobs ≡ job ∷ jobs)
    → IsOrdered l
    → IsOrdered (record l {
      queue = record l.queue { events = (drain_before job.id l.queue.events).1 };
      jobs = jobs;
      written = l.written ++ ((drain_before job.id l.queue.events).0 ++ job ∷ []);
    })
job_ran l job jobs h o =
    let (m, up) = waiting_ascends l o in
    let waits = subst (λ js. Interleave l.queue.events js o.waiting) h o.waits in
    let (rest, e, left, _) = run_first m l.next_id waits up in
    record {
      waiting = rest;
      all_accepted = o.all_accepted ∙ ap (λ z. l.written ++ z) e ∙ regroup l.written _ job rest;
      waits = left;
      ascends = o.ascends;
    }

worker_ran :
    (l : Line) (n : ℕ) (h : l.jobs ≡ [])
    → IsOrdered l
    → IsOrdered (record l {
      queue = record l.queue { events = (drain n l.queue.events).1 };
      written = l.written ++ (drain n l.queue.events).0;
    })
unfolding drain
worker_ran l n h o =
    let e = only_queued (subst (λ js. Interleave l.queue.events js o.waiting) h o.waits) in
    record {
      waiting = drop n l.queue.events;
      all_accepted =
          o.all_accepted
          ∙ ap (λ z. l.written ++ z) (sym e ∙ sym (take-append-drop n l.queue.events))
          ∙ sym (append_assoc l.written (take n l.queue.events) (drop n l.queue.events));
      waits =
          subst (λ js. Interleave (drop n l.queue.events) js (drop n l.queue.events)) (sym h)
            (all_queued _);
      ascends = o.ascends;
    }

keep : (l m : Line) → Step l m → IsOrdered l → IsOrdered m
keep l m (push _ event attempts depth queue h) o = record {
  waiting = o.waiting ++ record { id = l.next_id; event = event } ∷ [];
  all_accepted = accept l.accepted l.written o.waiting _ o.all_accepted;
  waits =
      subst (λ v. Interleave v l.jobs (o.waiting ++ record { id = l.next_id; event = event } ∷ []))
        (sym (try_push-append attempts l.queue l.next_id event depth queue h).0)
        (append-queued _ o.waits);
  ascends = IsAscending-append 0 l.accepted _ o.ascends;
}
keep l m (fall_back _ event attempts h) o = record {
  waiting = o.waiting ++ record { id = l.next_id; event = event } ∷ [];
  all_accepted = accept l.accepted l.written o.waiting _ o.all_accepted;
  waits = append-deferred _ o.waits;
  ascends = IsAscending-append 0 l.accepted _ o.ascends;
}
keep l m (refuse_job _ event attempts h) o = record {
  waiting = o.waiting;
  all_accepted = o.all_accepted;
  waits = o.waits;
  ascends = IsAscending-weaken 0 l.accepted l.next_id _ o.ascends (omega arith);
}
keep l m (run_job _ job jobs h) o = job_ran l job jobs h o
keep l m (work _ n h) o = worker_ran l n h o

-- From an empty queue, however pushes, refused jobs, fallback jobs and worker drains interleave: the
-- events accepted so far, whose ids ascend, are those written, in the same order, followed by those that
-- wait, each once and in order.
pub Reach-IsOrdered : (capacity : ℕ) (l : Line) → Reach (empty_line capacity) l → IsOrdered l
Reach-IsOrdered capacity l here = record {
  waiting = [];
  all_accepted = refl;
  waits = all_queued [];
  ascends = omega arith;
}
Reach-IsOrdered capacity l (next r step) = keep _ l step (Reach-IsOrdered capacity _ r)
