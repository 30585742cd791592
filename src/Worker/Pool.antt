-- ===== src/Worker/Pool.antt =====
-- `WorkerPool` and `Metrics`: the state and each piece of code that runs without interruption.
use gmaildigest_go.Prelude.{
  ℕ, suc, ◌+◌, ◌*◌, Bool, true, false, List, [], ◌∷◌, ◌++◌, Option, none, some, if◌then◌else◌, ltb,
  leb, length,
}
use gmaildigest_go.Prelude.Int.{ℤ, pos, negsuc, ◌+ℤ◌, ◌-ℤ◌}

-- The counters do not wrap: they count the tasks of one process.
pub record Metrics : Type 0 where
  pub active_workers : ℤ
  pub completed_tasks : ℕ
  pub failed_tasks : ℕ
  pub queued_tasks : ℤ
  pub processing_time : ℕ
  pub last_processed : ℕ

pub record WorkerPool (T : Type 0) : Type 0 where
  pub workers : ℕ
  pub capacity : ℕ
  pub queue : List T
  pub closed : Bool
  pub cancelled : Bool
  pub is_stopped : Bool
  pub metrics : Metrics

abbrev pub zero_metrics : Metrics
zero_metrics = record {
  active_workers = pos 0;
  completed_tasks = 0;
  failed_tasks = 0;
  queued_tasks = pos 0;
  processing_time = 0;
  last_processed = 0;
}

abbrev pub worker_count : ℤ → ℕ
worker_count (pos n) = if leb n 0 then 1 else n
worker_count (negsuc n) = 1

unfoldable pub new_worker_pool : (T : Type 0) → ℤ → WorkerPool T
new_worker_pool T workers = record {
  workers = worker_count workers;
  capacity = worker_count workers * 2;
  queue = [];
  closed = false;
  cancelled = false;
  is_stopped = false;
  metrics = zero_metrics;
}

-- The send of `Submit` on the buffered channel; a closed channel panics.
pub data Sent : Type 0 where
  sent full panics : Sent

-- The first locked section of the worker, once it has a task.
abbrev pub count_start : Metrics → Metrics
count_start m = record m {
  active_workers = m.active_workers +ℤ pos 1;
  queued_tasks = m.queued_tasks -ℤ pos 1;
}

-- The second one, after `Execute` returned; `succeeded` is `err == nil`.
abbrev pub count_end : ℕ → ℕ → Bool → Metrics → Metrics
count_end duration now succeeded m = record m {
  active_workers = m.active_workers -ℤ pos 1;
  processing_time = m.processing_time + duration;
  last_processed = now;
  failed_tasks = if succeeded then m.failed_tasks else suc m.failed_tasks;
  completed_tasks = if succeeded then suc m.completed_tasks else m.completed_tasks;
}

abbrev pub count_submit : Metrics → Metrics
count_submit m = record m { queued_tasks = m.queued_tasks +ℤ pos 1 }

-- `ResetMetrics` keeps the number of active workers.
abbrev pub reset_metrics : Metrics → Metrics
reset_metrics m = record zero_metrics { active_workers = m.active_workers }

module _ {T : Type 0} where
  -- `select { case p.tasks <- task: … default: … }`.
  unfoldable pub send : WorkerPool T → T → WorkerPool T × Sent
  send p t =
      if p.closed
      then (p, panics)
      else if ltb (length p.queue) p.capacity
      then (record p { queue = p.queue ++ t ∷ [] }, sent)
      else (p, full)

  abbrev after_send : WorkerPool T × Sent → WorkerPool T × Option Bool
  after_send (p, sent) = (record p { metrics = count_submit p.metrics }, some true)
  after_send (p, full) = (p, some false)
  after_send (p, panics) = (p, none)

  -- `Submit`, run with no other goroutine in between; `none` is the panic. The task is not nil.
  unfoldable pub submit : WorkerPool T → T → WorkerPool T × Option Bool
  unfolding send
  submit p t = if p.is_stopped then (p, some false) else after_send (send p t)

  -- The three actions of `Stop` before it waits.
  abbrev pub stop_flag : WorkerPool T → WorkerPool T
  stop_flag p = record p { is_stopped = true }

  abbrev pub stop_cancel : WorkerPool T → WorkerPool T
  stop_cancel p = record p { cancelled = true }

  -- Closing a closed channel panics.
  abbrev pub stop_close : WorkerPool T → Option (WorkerPool T)
  stop_close p = if p.closed then none else some (record p { closed = true })

  unfoldable pub stop : WorkerPool T → Option (WorkerPool T)
  stop p = stop_close (stop_cancel (stop_flag p))
