-- ===== src/Worker/Invariant.antt =====
-- What the metrics and the queue satisfy in every state that the pool can reach.
use gmaildigest_go.Prelude.{
  ℕ, suc, ◌+◌, ◌*◌, ◌≡◌, ◌≤◌, ap, Bool, true, false, List, [], ◌∷◌, ◌++◌, length, length-append,
  arith, if◌then◌else◌,
}
use gmaildigest_go.Prelude.Int.{ℤ, pos, pos_part, neg_part, ◌+ℤ◌, ◌-ℤ◌, +ℤ_parts, -ℤ_parts}
use gmaildigest_go.Worker.System.{
  System, started, Step, check, send, refuse, panic, count, receive, begin, finish, exit, flag,
  cancel, close, reset, Reach, here, next,
}

active_up : (n : ℕ) (a : ℤ) → a ≡ pos n → a +ℤ pos 1 ≡ pos (suc n)
unfolding ◌+ℤ◌
active_up n a e = ground arith

active_down : (m n : ℕ) (a : ℤ) → a ≡ pos m → m ≡ suc n → a -ℤ pos 1 ≡ pos n
unfolding ◌-ℤ◌
active_down m n a e f = ground arith

module _ {T : Type 0} where
  -- The number of results of one kind.
  pub outcomes : Bool → List (T × Bool) → ℕ
  outcomes b [] = 0
  outcomes true ((t, true) ∷ d) = suc (outcomes true d)
  outcomes true ((t, false) ∷ d) = outcomes true d
  outcomes false ((t, true) ∷ d) = outcomes false d
  outcomes false ((t, false) ∷ d) = suc (outcomes false d)

  pub record Inv (s : System T) : Type 0 where
    pub sized : s.pool.capacity ≡ s.pool.workers * 2
    pub staffed : s.idle + s.exited + length s.received + length s.executing ≡ s.pool.workers
    pub fits : length s.pool.queue ≤ s.pool.capacity
    pub active : s.pool.metrics.active_workers ≡ pos (length s.executing)
    pub queued :
        pos_part s.pool.metrics.queued_tasks + s.forgotten.queued_up + s.uncounted
        ≡ neg_part s.pool.metrics.queued_tasks
          + s.forgotten.queued_down
          + length s.pool.queue
          + length s.received
    pub completed : s.forgotten.completed + s.pool.metrics.completed_tasks ≡ outcomes true s.done
    pub failed : s.forgotten.failed + s.pool.metrics.failed_tasks ≡ outcomes false s.done

  removed :
      (l xs : List T) (t : T) (ys : List T) → l ≡ xs ++ t ∷ ys → length l ≡ suc (length (xs ++ ys))
  removed l xs t ys e = omega (arith, ap length e, length-append xs (t ∷ ys), length-append xs ys)

  length-snoc : (q : List T) (t : T) → length (q ++ t ∷ []) ≡ suc (length q)
  length-snoc q t = omega (arith, length-append q (t ∷ []))

  outcomes_true :
      (f n : ℕ) (t : T) (r : Bool) (d : List (T × Bool))
      → f + n ≡ outcomes true d
      → f + (if r then suc n else n) ≡ outcomes true ((t, r) ∷ d)
  unfolding outcomes
  outcomes_true f n t true d e = omega (arith, e)
  outcomes_true f n t false d e = e

  outcomes_false :
      (f n : ℕ) (t : T) (r : Bool) (d : List (T × Bool))
      → f + n ≡ outcomes false d
      → f + (if r then n else suc n) ≡ outcomes false ((t, r) ∷ d)
  unfolding outcomes
  outcomes_false f n t true d e = e
  outcomes_false f n t false d e = omega (arith, e)

  -- Every step of a submitter, a worker or `Stop` keeps the invariant.
  pub Step-Inv : {s u : System T} → Step s u → Inv s → Inv u
  Step-Inv {s} (check t h) i = ground arith
  Step-Inv {s} (send xs t ys e open' room) i = record {
    sized = i.sized;
    staffed = i.staffed;
    fits = omega (arith, length-snoc s.pool.queue t);
    active = i.active;
    queued = omega (arith, i.queued, length-snoc s.pool.queue t);
    completed = i.completed;
    failed = i.failed;
  }
  Step-Inv {s} (refuse xs t ys e open' h) i = ground arith
  Step-Inv {s} (panic xs t ys e h) i = ground arith
  Step-Inv {s} (count n e) i = record {
    sized = i.sized;
    staffed = i.staffed;
    fits = i.fits;
    active = i.active;
    queued = omega (arith, i.queued, e, +ℤ_parts s.pool.metrics.queued_tasks (pos 1));
    completed = i.completed;
    failed = i.failed;
  }
  Step-Inv {s} (receive n t q e f) i = record {
    sized = i.sized;
    staffed = omega (arith, i.staffed, e);
    fits = omega (arith, i.fits, ap length f);
    active = i.active;
    queued = omega (arith, i.queued, ap length f);
    completed = i.completed;
    failed = i.failed;
  }
  Step-Inv {s} (begin xs t ys e) i = record {
    sized = i.sized;
    staffed = omega (arith, i.staffed, removed s.received xs t ys e);
    fits = i.fits;
    active = active_up (length s.executing) s.pool.metrics.active_workers i.active;
    queued = omega (
      arith,
      i.queued,
      removed s.received xs t ys e,
      -ℤ_parts s.pool.metrics.queued_tasks (pos 1),
    );
    completed = i.completed;
    failed = i.failed;
  }
  Step-Inv {s} (finish xs t ys duration now succeeded e) i = record {
    sized = i.sized;
    staffed = omega (arith, i.staffed, removed s.executing xs t ys e);
    fits = i.fits;
    active =
        active_down (length s.executing) (length (xs ++ ys)) s.pool.metrics.active_workers i.active
          (removed s.executing xs t ys e);
    queued = i.queued;
    completed = outcomes_true s.forgotten.completed _ t succeeded s.done i.completed;
    failed = outcomes_false s.forgotten.failed _ t succeeded s.done i.failed;
  }
  Step-Inv {s} (exit n e h) i = ground arith
  Step-Inv {s} flag i = ground arith
  Step-Inv {s} (cancel h) i = ground arith
  Step-Inv {s} (close h k) i = ground arith
  Step-Inv {s} reset i = record {
    sized = i.sized;
    staffed = i.staffed;
    fits = i.fits;
    active = i.active;
    queued = omega (arith, i.queued);
    completed = omega (arith, i.completed);
    failed = omega (arith, i.failed);
  }

  pub Reach-Inv_from : {s u : System T} → Inv s → Reach s u → Inv u
  Reach-Inv_from i here = i
  Reach-Inv_from i (next r st) = Step-Inv st (Reach-Inv_from i r)

started-Inv : (T : Type 0) (workers : ℤ) → Inv (started T workers)
unfolding started outcomes
started-Inv T workers = ground arith

-- In every state that a new pool reaches, whatever the interleaving of submitters, workers, `Stop`
-- and `ResetMetrics`: the queue holds at most twice as many tasks as there are workers, every worker
-- is at its select, has returned or has one task, and `activeWorkers` is the number of tasks
-- executing. Together with what resets took from them, `completedTasks` and `failedTasks` are the
-- numbers of successes and failures, and `queuedTasks` with the submitters that have not counted yet
-- is the number of tasks sent and not counted as started.
pub Reach-Inv : (T : Type 0) (workers : ℤ) {s : System T} → Reach (started T workers) s → Inv s
Reach-Inv T workers r = Reach-Inv_from (started-Inv T workers) r
