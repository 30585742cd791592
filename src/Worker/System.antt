-- ===== src/Worker/System.antt =====
-- The pool with its goroutines: submitters, workers, callers of `ResetMetrics` and one caller of `Stop`, interleaved in any
-- order. A goroutine is counted in the list or number of the place in the code where it stands.
use gmaildigest_go.Prelude.{
  ℕ, suc, ◌+◌, ◌≡◌, ◌≤◌, ◌<◌, ◌⊎◌, Bool, true, false, List, [], ◌∷◌, ◌++◌, length,
}
use gmaildigest_go.Prelude.Int.{ℤ, pos_part, neg_part}
use gmaildigest_go.Worker.Pool.{
  WorkerPool, new_worker_pool, count_start, count_end, count_submit, reset_metrics, stop_flag,
  stop_cancel,
}

-- What the counters held when they were reset, all resets taken together.
pub record Forgotten : Type 0 where
  pub completed : ℕ
  pub failed : ℕ
  pub queued_up : ℕ
  pub queued_down : ℕ

-- `checked`: the tasks of submitters that read `isStopped` as false and have not sent yet.
-- `uncounted`: submitters that have sent and not yet counted.
-- `idle`, `exited`: workers at their `select`, and workers that returned.
-- `received`, `executing`: the tasks of the other workers, before and after the first count.
-- `done`, `accepted`: the results so far and the tasks sent so far, latest first.
-- `forgotten`: what calls of `ResetMetrics` took from the counters.
pub record System (T : Type 0) : Type 0 where
  pub pool : WorkerPool T
  pub checked : List T
  pub uncounted : ℕ
  pub idle : ℕ
  pub exited : ℕ
  pub received : List T
  pub executing : List T
  pub done : List (T × Bool)
  pub accepted : List T
  pub panicked : Bool
  pub forgotten : Forgotten

-- `NewWorkerPool` and `Start`.
unfoldable pub started : (T : Type 0) → ℤ → System T
unfolding new_worker_pool
started T workers = record {
  pool = new_worker_pool T workers;
  checked = [];
  uncounted = 0;
  idle = (new_worker_pool T workers).workers;
  exited = 0;
  received = [];
  executing = [];
  done = [];
  accepted = [];
  panicked = false;
  forgotten = record { completed = 0; failed = 0; queued_up = 0; queued_down = 0 };
}

module _ {T : Type 0} where
  -- The effect of each atomic step.
  abbrev pub do_check : T → System T → System T
  do_check t s = record s { checked = t ∷ s.checked }

  abbrev pub do_send : List T → T → List T → System T → System T
  do_send xs t ys s = record s {
    checked = xs ++ ys;
    uncounted = suc s.uncounted;
    accepted = t ∷ s.accepted;
    pool = record s.pool { queue = s.pool.queue ++ t ∷ [] };
  }

  abbrev pub do_refuse : List T → List T → System T → System T
  do_refuse xs ys s = record s { checked = xs ++ ys }

  abbrev pub do_panic : System T → System T
  do_panic s = record s { panicked = true }

  abbrev pub do_count : ℕ → System T → System T
  do_count n s = record s {
    uncounted = n;
    pool = record s.pool { metrics = count_submit s.pool.metrics };
  }

  abbrev pub do_receive : ℕ → T → List T → System T → System T
  do_receive n t q s = record s {
    idle = n;
    received = t ∷ s.received;
    pool = record s.pool { queue = q };
  }

  abbrev pub do_begin : List T → T → List T → System T → System T
  do_begin xs t ys s = record s {
    received = xs ++ ys;
    executing = t ∷ s.executing;
    pool = record s.pool { metrics = count_start s.pool.metrics };
  }

  abbrev pub do_finish : List T → T → List T → ℕ → ℕ → Bool → System T → System T
  do_finish xs t ys duration now succeeded s = record s {
    executing = xs ++ ys;
    done = (t, succeeded) ∷ s.done;
    idle = suc s.idle;
    pool = record s.pool { metrics = count_end duration now succeeded s.pool.metrics };
  }

  abbrev pub do_exit : ℕ → System T → System T
  do_exit n s = record s { idle = n; exited = suc s.exited }

  abbrev pub do_flag : System T → System T
  do_flag s = record s { pool = stop_flag s.pool }

  abbrev pub do_cancel : System T → System T
  do_cancel s = record s { pool = stop_cancel s.pool }

  abbrev pub do_close : System T → System T
  do_close s = record s { pool = record s.pool { closed = true } }

  abbrev pub do_reset : System T → System T
  do_reset s = record s {
    forgotten = record {
      completed = s.forgotten.completed + s.pool.metrics.completed_tasks;
      failed = s.forgotten.failed + s.pool.metrics.failed_tasks;
      queued_up = s.forgotten.queued_up + pos_part s.pool.metrics.queued_tasks;
      queued_down = s.forgotten.queued_down + neg_part s.pool.metrics.queued_tasks;
    };
    pool = record s.pool { metrics = reset_metrics s.pool.metrics };
  }

  -- A worker may return when the context is cancelled, or when the channel is closed and empty.
  pub data Step (s : System T) : System T → Type 0 where
    check : (t : T) → s.pool.is_stopped ≡ false → Step s (do_check t s)
    send :
        (xs : List T) (t : T) (ys : List T)
        → s.checked ≡ xs ++ t ∷ ys
        → s.pool.closed ≡ false
        → length s.pool.queue < s.pool.capacity
        → Step s (do_send xs t ys s)
    refuse :
        (xs : List T) (t : T) (ys : List T)
        → s.checked ≡ xs ++ t ∷ ys
        → s.pool.closed ≡ false
        → s.pool.capacity ≤ length s.pool.queue
        → Step s (do_refuse xs ys s)
    panic :
        (xs : List T) (t : T) (ys : List T)
        → s.checked ≡ xs ++ t ∷ ys
        → s.pool.closed ≡ true
        → Step s (do_panic s)
    count : (n : ℕ) → s.uncounted ≡ suc n → Step s (do_count n s)
    receive :
        (n : ℕ) (t : T) (q : List T)
        → s.idle ≡ suc n
        → s.pool.queue ≡ t ∷ q
        → Step s (do_receive n t q s)
    begin :
        (xs : List T) (t : T) (ys : List T)
        → s.received ≡ xs ++ t ∷ ys
        → Step s (do_begin xs t ys s)
    finish :
        (xs : List T) (t : T) (ys : List T) (duration now : ℕ) (succeeded : Bool)
        → s.executing ≡ xs ++ t ∷ ys
        → Step s (do_finish xs t ys duration now succeeded s)
    exit :
        (n : ℕ)
        → s.idle ≡ suc n
        → (s.pool.cancelled ≡ true) ⊎ ((s.pool.closed ≡ true) × (s.pool.queue ≡ []))
        → Step s (do_exit n s)
    flag : Step s (do_flag s)
    cancel : s.pool.is_stopped ≡ true → Step s (do_cancel s)
    close : s.pool.cancelled ≡ true → s.pool.closed ≡ false → Step s (do_close s)
    -- `ResetMetrics`, which anybody may call at any time.
    reset : Step s (do_reset s)

  pub data Reach (s : System T) : System T → Type 0 where
    here : Reach s s
    next : {t u : System T} → Reach s t → Step t u → Reach s u
