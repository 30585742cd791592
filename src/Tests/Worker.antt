-- ===== src/Tests/Worker.antt =====
-- Pools with two workers and tasks that are numbers.
use gmaildigest_go.Prelude.{ℕ, ◌≡◌, refl, true, [], arith, ℕ_discrete}
use gmaildigest_go.Prelude.Int.{pos, negsuc}
use gmaildigest_go.Worker.Pool.{WorkerPool, new_worker_pool}
use gmaildigest_go.Worker.System.{
  System, started, Reach, here, next, check, send as sends, receive, begin, reset, do_check,
  do_send, do_receive, do_begin, do_reset, do_flag,
}
use gmaildigest_go.Worker.Invariant.{Inv, Reach-Inv}
use gmaildigest_go.Worker.Conservation.{Accounted, Reach-Accounted}
use gmaildigest_go.Worker.Shutdown.{Sealed, submit_may_panic, stop-Sealed}

one_worker : (new_worker_pool ℕ (negsuc 4)).workers ≡ 1
unfolding new_worker_pool
one_worker = refl

abbrev waiting : System ℕ
waiting = do_send [] 7 [] (do_check 7 (started ℕ (pos 2)))

waiting-Reach : Reach (started ℕ (pos 2)) waiting
unfolding started new_worker_pool
waiting-Reach = next (next here (check 7 refl)) (sends [] 7 [] refl refl (omega arith))

abbrev working : System ℕ
working = do_begin [] 7 [] (do_receive 1 7 [] waiting)

working-Reach : Reach (started ℕ (pos 2)) working
unfolding started new_worker_pool
working-Reach = next (next waiting-Reach (receive 1 7 [] refl refl)) (begin [] 7 [] refl)

-- The counters are reset between two steps of a worker.
abbrev forgetful : System ℕ
forgetful = do_begin [] 7 [] (do_reset (do_receive 1 7 [] waiting))

forgetful-Reach : Reach (started ℕ (pos 2)) forgetful
unfolding started new_worker_pool
forgetful-Reach =
    next (next (next waiting-Reach (receive 1 7 [] refl refl)) reset) (begin [] 7 [] refl)

Reach-Inv_example : Inv forgetful
Reach-Inv_example = Reach-Inv ℕ (pos 2) forgetful-Reach

Reach-Accounted_example : Accounted ℕ_discrete 7 working
Reach-Accounted_example = Reach-Accounted ℕ_discrete 7 (pos 2) working-Reach

submit_may_panic_example : (s : System ℕ) × Reach (started ℕ (pos 2)) s × (s.panicked ≡ true)
submit_may_panic_example = submit_may_panic ℕ (pos 2) 7

abbrev flagged : System ℕ
flagged = do_flag waiting

stop-Sealed_example : Sealed flagged (do_receive 1 7 [] flagged)
unfolding started new_worker_pool
stop-Sealed_example = stop-Sealed {s = flagged} refl refl (next here (receive 1 7 [] refl refl))

abbrev pool : WorkerPool ℕ
pool = new_worker_pool ℕ (pos 2)
