-- ===== src/Worker/Conservation.antt =====
-- No task is lost and none runs twice.
use gmaildigest_go.Prelude.{ℕ, suc, ◌+◌, ◌≡◌, refl, ap, List, [], ◌∷◌, ◌++◌, map, ite, arith}
use gmaildigest_go.Prelude.Int.{ℤ}
use gmaildigest_go.Worker.System.{
  System, started, Step, check, send, refuse, panic, count, receive, begin, finish, exit, flag,
  cancel, close, reset, Reach, here, next,
}

module _ {T : Type 0} (d : Discrete T) where
  -- How often `x` stands in a list.
  pub occurrences : T → List T → ℕ
  occurrences x [] = 0
  occurrences x (y ∷ l) = ite (d y x) (suc (occurrences x l)) (occurrences x l)

  occurrences-append :
      (x : T) (l m : List T) → occurrences x (l ++ m) ≡ occurrences x l + occurrences x m
  unfolding occurrences
  occurrences-append x [] m = omega arith
  occurrences-append x (y ∷ l) m = ground (arith, occurrences-append x l m)

  -- Taking one task out of the middle of a list.
  taken :
      (x : T) (l xs : List T) (t : T) (ys : List T)
      → l ≡ xs ++ t ∷ ys
      → occurrences x l ≡ occurrences x (t ∷ []) + occurrences x (xs ++ ys)
  taken x l xs t ys e = omega (
    arith,
    ap (occurrences x) e,
    occurrences-append x xs (t ∷ ys),
    occurrences-append x xs ys,
    occurrences-append x (t ∷ []) ys,
  )

  pub finished : System T → List T
  finished s = map (λ r. r.0) s.done

  -- The places where an accepted task can be, with multiplicity.
  abbrev pub Accounted : T → System T → Type 0
  Accounted x s =
      occurrences x s.accepted
      ≡ occurrences x s.pool.queue
        + occurrences x s.received
        + occurrences x s.executing
        + occurrences x (finished s)

  step-Accounted : (x : T) {s u : System T} → Step s u → Accounted x s → Accounted x u
  unfolding finished
  step-Accounted x {s} (check t h) a = a
  step-Accounted x {s} (send xs t ys e open' room) a = omega (
    arith,
    a,
    occurrences-append x (t ∷ []) s.accepted,
    occurrences-append x s.pool.queue (t ∷ []),
  )
  step-Accounted x {s} (refuse xs t ys e open' h) a = a
  step-Accounted x {s} (panic xs t ys e h) a = a
  step-Accounted x {s} (count n e) a = a
  step-Accounted x {s} (receive n t q e f) a = omega (
    arith,
    a,
    ap (occurrences x) f,
    occurrences-append x (t ∷ []) s.received,
    occurrences-append x (t ∷ []) q,
  )
  step-Accounted x {s} (begin xs t ys e) a =
      omega (arith, a, taken x s.received xs t ys e, occurrences-append x (t ∷ []) s.executing)
  step-Accounted x {s} (finish xs t ys duration now succeeded e) a = omega (
    arith,
    a,
    taken x s.executing xs t ys e,
    occurrences-append x (t ∷ []) (map (λ r. r.0) s.done),
  )
  step-Accounted x {s} (exit n e h) a = a
  step-Accounted x {s} flag a = a
  step-Accounted x {s} (cancel h) a = a
  step-Accounted x {s} (close h k) a = a
  step-Accounted x {s} reset a = a

  Reach-Accounted_from : (x : T) {s u : System T} → Accounted x s → Reach s u → Accounted x u
  Reach-Accounted_from x a here = a
  Reach-Accounted_from x a (next r st) = step-Accounted x st (Reach-Accounted_from x a r)

  started-Accounted : (x : T) (workers : ℤ) → Accounted x (started T workers)
  unfolding started finished occurrences
  started-Accounted x workers = refl

  -- In every state that a new pool reaches, each task that `Submit` put on the channel is, as often
  -- as it was put there, in exactly one place: the queue, a worker that is about to run it, a worker
  -- that runs it, or among the tasks that ran.
  pub Reach-Accounted :
      (x : T) (workers : ℤ) {s : System T} → Reach (started T workers) s → Accounted x s
  Reach-Accounted x workers r = Reach-Accounted_from x (started-Accounted x workers) r
