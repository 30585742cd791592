-- ===== src/Scheduler/Locks.antt =====
-- The locks that a round of dispatching and the end of a task take: `dispatchDueJobs` holds `JobMu`
-- while `Submit` takes the lock of the pool's metrics, and `worker` holds the lock of the metrics
-- while `OnSuccess` or `OnFailure` takes `JobMu`.
use gmaildigest_go.Prelude.{◌≡◌, ◌↔◌, refl, Bool, true, false}

-- Where the scheduling loop stands in `dispatchDueJobs`: outside, with `JobMu`, with `JobMu` and a
-- task sent by `Submit` that it is about to count, or with both locks.
pub data DispatcherAt : Type 0 where
  outside in_jobs sent counting : DispatcherAt

-- Where the worker of a pool with one worker stands: at its select or executing, about to count the
-- start of a task, with the lock of the metrics there, about to count its end, with the lock of the
-- metrics there, in the callback with both locks, or behind the callback with the lock of the metrics.
pub data WorkerAt : Type 0 where
  away starting counting_start ended counting_end in_callback called_back : WorkerAt

pub record Locking : Type 0 where
  pub dispatcher : DispatcherAt
  pub worker : WorkerAt

-- Who holds each lock.
abbrev pub dispatcher_has_job_mu : DispatcherAt → Bool
dispatcher_has_job_mu outside = false
dispatcher_has_job_mu in_jobs = true
dispatcher_has_job_mu sent = true
dispatcher_has_job_mu counting = true

abbrev pub worker_has_job_mu : WorkerAt → Bool
worker_has_job_mu in_callback = true
worker_has_job_mu away = false
worker_has_job_mu starting = false
worker_has_job_mu counting_start = false
worker_has_job_mu ended = false
worker_has_job_mu counting_end = false
worker_has_job_mu called_back = false

abbrev pub dispatcher_has_metrics_mu : DispatcherAt → Bool
dispatcher_has_metrics_mu counting = true
dispatcher_has_metrics_mu outside = false
dispatcher_has_metrics_mu in_jobs = false
dispatcher_has_metrics_mu sent = false

abbrev pub worker_has_metrics_mu : WorkerAt → Bool
worker_has_metrics_mu away = false
worker_has_metrics_mu starting = false
worker_has_metrics_mu ended = false
worker_has_metrics_mu counting_start = true
worker_has_metrics_mu counting_end = true
worker_has_metrics_mu in_callback = true
worker_has_metrics_mu called_back = true

-- A step of one of the two. Taking a lock waits until the other does not hold it.
pub data LockStep (s : Locking) : Locking → Type 0 where
  lock_jobs :
      s.dispatcher ≡ outside
      → worker_has_job_mu s.worker ≡ false
      → LockStep s (record s { dispatcher = in_jobs })
  send_task : s.dispatcher ≡ in_jobs → LockStep s (record s { dispatcher = sent })
  lock_count :
      s.dispatcher ≡ sent
      → worker_has_metrics_mu s.worker ≡ false
      → LockStep s (record s { dispatcher = counting })
  unlock_count : s.dispatcher ≡ counting → LockStep s (record s { dispatcher = in_jobs })
  unlock_jobs : s.dispatcher ≡ in_jobs → LockStep s (record s { dispatcher = outside })
  receive : s.worker ≡ away → LockStep s (record s { worker = starting })
  lock_start :
      s.worker ≡ starting
      → dispatcher_has_metrics_mu s.dispatcher ≡ false
      → LockStep s (record s { worker = counting_start })
  execute : s.worker ≡ counting_start → LockStep s (record s { worker = ended })
  lock_end :
      s.worker ≡ ended
      → dispatcher_has_metrics_mu s.dispatcher ≡ false
      → LockStep s (record s { worker = counting_end })
  call_back :
      s.worker ≡ counting_end
      → dispatcher_has_job_mu s.dispatcher ≡ false
      → LockStep s (record s { worker = in_callback })
  end_callback : s.worker ≡ in_callback → LockStep s (record s { worker = called_back })
  unlock_end : s.worker ≡ called_back → LockStep s (record s { worker = away })

pub data LockReach (s : Locking) : Locking → Type 0 where
  here : LockReach s s
  next : {t u : Locking} → LockReach s t → LockStep t u → LockReach s u

abbrev pub at_rest : Locking
at_rest = record { dispatcher = outside; worker = away }

-- No step is possible any more.
abbrev pub Stuck : Locking → Type 0
Stuck s = (t : Locking) → ¬ LockStep s t

-- The loop waits in `Submit` for the metrics, and the worker in its callback for the jobs.
abbrev pub crossed : Locking
crossed = record { dispatcher = sent; worker = counting_end }

crossed-Stuck : Stuck crossed
crossed-Stuck t (lock_jobs e h) = absurd (cc)
crossed-Stuck t (send_task e) = absurd (cc)
crossed-Stuck t (lock_count e h) = absurd (cc)
crossed-Stuck t (unlock_count e) = absurd (cc)
crossed-Stuck t (unlock_jobs e) = absurd (cc)
crossed-Stuck t (receive e) = absurd (cc)
crossed-Stuck t (lock_start e h) = absurd (cc)
crossed-Stuck t (execute e) = absurd (cc)
crossed-Stuck t (lock_end e h) = absurd (cc)
crossed-Stuck t (call_back e h) = absurd (cc)
crossed-Stuck t (end_callback e) = absurd (cc)
crossed-Stuck t (unlock_end e) = absurd (cc)

crossed_reachable : LockReach at_rest crossed
crossed_reachable =
    next
      (next
        (next (next (next (next here (receive refl)) (lock_start refl refl)) (execute refl))
          (lock_end refl refl))
        (lock_jobs refl refl))
      (send_task refl)

Stuck-crossed :
    (d : DispatcherAt) (w : WorkerAt)
    → Stuck (record { dispatcher = d; worker = w })
    → record { dispatcher = d; worker = w } ≡ crossed
Stuck-crossed outside away h = absurd (h _ (lock_jobs refl refl))
Stuck-crossed outside starting h = absurd (h _ (lock_jobs refl refl))
Stuck-crossed outside counting_start h = absurd (h _ (lock_jobs refl refl))
Stuck-crossed outside ended h = absurd (h _ (lock_jobs refl refl))
Stuck-crossed outside called_back h = absurd (h _ (lock_jobs refl refl))
Stuck-crossed outside counting_end h = absurd (h _ (lock_jobs refl refl))
Stuck-crossed outside in_callback h = absurd (h _ (end_callback refl))
Stuck-crossed in_jobs w h = absurd (h _ (unlock_jobs refl))
Stuck-crossed counting w h = absurd (h _ (unlock_count refl))
Stuck-crossed sent away h = absurd (h _ (receive refl))
Stuck-crossed sent starting h = absurd (h _ (lock_start refl refl))
Stuck-crossed sent counting_start h = absurd (h _ (execute refl))
Stuck-crossed sent ended h = absurd (h _ (lock_end refl refl))
Stuck-crossed sent in_callback h = absurd (h _ (end_callback refl))
Stuck-crossed sent called_back h = absurd (h _ (unlock_end refl))
Stuck-crossed sent counting_end h = refl

-- The bug: the scheduler and a worker can wait for each other for ever. From the state where neither
-- holds a lock, the state is reached where the loop holds `JobMu` and waits for the metrics and the
-- worker holds the metrics and waits for `JobMu`. No step is possible in a
-- state exactly when it is this one.
pub deadlock_lem : LockReach at_rest crossed × ((s : Locking) → Stuck s ↔ (s ≡ crossed))
deadlock_lem =
    (crossed_reachable, λ s. (Stuck-crossed s.dispatcher s.worker, λ e. rw e crossed-Stuck))
