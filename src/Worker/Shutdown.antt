-- ===== src/Worker/Shutdown.antt =====
-- `Stop` against `Submit`.
use gmaildigest_go.Prelude.{
  ◌≡◌, ◌<◌, refl, true, false, List, [], ◌∷◌, ◌++◌, some, arith, ltb, length, inl, inr, ◌⊎◌, ◌≤◌,
  ◌≢◌, Bool-cases,
}
use gmaildigest_go.Prelude.Int.{ℤ}
use gmaildigest_go.Worker.Pool.{WorkerPool, submit, send}
use gmaildigest_go.Worker.System.{
  System, started, Step, check, send as sends, refuse, panic, count, receive, begin, finish, exit,
  flag, cancel, close, reset, Reach, here, next, do_check, do_flag, do_cancel, do_close, do_panic,
}

-- Run by itself, `Submit` accepts a task exactly when the pool is not stopped and the queue has room;
-- it then appends it to the queue, and otherwise leaves the pool as it was.
pub submit_lem :
    {T : Type 0} (p : WorkerPool T) (t : T)
    → p.closed ≡ false
    → (((submit p t).1 ≡ some true)
        × (p.is_stopped ≡ false)
        × (length p.queue < p.capacity)
        × ((submit p t).0.queue ≡ p.queue ++ t ∷ []))
      ⊎ (((submit p t).1 ≡ some false)
          × ((submit p t).0 ≡ p)
          × ((p.is_stopped ≡ true) ⊎ (p.capacity ≤ length p.queue)))
unfolding submit send
submit_lem p t h = elim (Bool-cases p.is_stopped) [
  | inl stopped ↦ inr (ground arith, ground arith, inl stopped)
  | inr running ↦ elim (Bool-cases (ltb (length p.queue) p.capacity)) [
    | inl room ↦ inl (ground arith, running, ground arith, ground arith)
    | inr crowded ↦ inr (ground arith, ground arith, inr (ground arith))
  ]
]

-- The bug: a submitter that has passed the test of `isStopped` and sends after `Stop` has closed the
-- channel panics. Whatever the number of workers, a new pool can reach that state.
pub submit_may_panic :
    (T : Type 0) (workers : ℤ) (t : T)
    → (s : System T) × Reach (started T workers) s × (s.panicked ≡ true)
unfolding started
submit_may_panic T workers t = (
  do_panic (do_close (do_cancel (do_flag (do_check t (started T workers))))),
  next (next (next (next (next here (check t refl)) flag) (cancel refl)) (close refl refl))
      (panic [] t [] refl refl),
  refl,
)

-- From a state where `Stop` has set its flag and no submitter stands before its send, no step
-- accepts a task, and no send panics.
pub record Sealed {T : Type 0} (before s : System T) : Type 0 where
  pub stopped : s.pool.is_stopped ≡ true
  pub nobody : s.checked ≡ []
  pub same : s.accepted ≡ before.accepted
  pub calm : s.panicked ≡ before.panicked

nil-ne-middle : {T : Type 0} (l xs : List T) (t : T) (ys : List T) → l ≡ [] → l ≢ xs ++ t ∷ ys
nil-ne-middle l [] t ys e f = cc
nil-ne-middle l (x ∷ xs) t ys e f = cc

Step-Sealed : {T : Type 0} {b s u : System T} → Step s u → Sealed b s → Sealed b u
Step-Sealed {s} (check t h) k = absurd (ground arith)
Step-Sealed {s} (sends xs t ys e o r) k = absurd (nil-ne-middle s.checked xs t ys k.nobody e)
Step-Sealed {s} (refuse xs t ys e o r) k = absurd (nil-ne-middle s.checked xs t ys k.nobody e)
Step-Sealed {s} (panic xs t ys e h) k = absurd (nil-ne-middle s.checked xs t ys k.nobody e)
Step-Sealed (count n e) k = ground arith
Step-Sealed (receive n t q e f) k = ground arith
Step-Sealed (begin xs t ys e) k = ground arith
Step-Sealed (finish xs t ys duration now r e) k = ground arith
Step-Sealed (exit n e h) k = ground arith
Step-Sealed flag k = ground arith
Step-Sealed (cancel h) k = ground arith
Step-Sealed (close h g) k = ground arith
Step-Sealed reset k = ground arith

-- Once `Stop` has set its flag and no submitter stands between its test and its send, no later step
-- puts a task on the channel and none panics on a send.
pub stop-Sealed :
    {T : Type 0} {s u : System T}
    → s.pool.is_stopped ≡ true
    → s.checked ≡ []
    → Reach s u
    → Sealed s u
stop-Sealed h e here = record { stopped = h; nobody = e; same = refl; calm = refl }
stop-Sealed h e (next r st) = Step-Sealed st (stop-Sealed h e r)
