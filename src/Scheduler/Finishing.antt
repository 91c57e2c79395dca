-- ===== src/Scheduler/Finishing.antt =====
-- scheduler.c, `SchedulerRun`: the states its loop reaches, and its end.
use mathlib.Core.Path.{subst}
use daher_repo.Prelude.{
  ℕ, zero, suc, ◌+◌, ◌<◌, ◌≤◌, ◌≡◌, refl, sym, ap, ◌∙◌, Bool, true, false, some, List, [], ◌∷◌, pos,
  is_zero, length, arith, inl, inr, ◌⊎◌,
}
use daher_repo.Dlist.Changing.{IsMalloc}
use daher_repo.Task.{Task}
use daher_repo.Scheduler.{
  Machine, Calls, finish_all_work, with_flag, is_empty, reschedule, round, run_from, run,
}
use daher_repo.Scheduler.Deadlines.{IsTime}
use daher_repo.Scheduler.Adding.{IsScheduler, same_queue}
use daher_repo.Scheduler.Running.{
  IsKind, is_empty-none, is_empty-more, round-first, round-IsScheduler,
}

module _ {World : Type 0} (fuel : ℕ) (calls : Calls World) where
  -- The states in which the loop of `SchedulerRun` tests whether to go on.
  pub data Reached (m : Machine World) : Machine World → Type 0 where
    start : Reached m (with_flag (pos 0) m)
    again :
        {n k : Machine World}
        → Reached m n
        → is_empty n ≡ some false
        → is_zero n.stop_flag ≡ true
        → round calls fuel n ≡ some (k, false)
        → Reached m k

module _ {World : Type 0} (longest fuel : ℕ) (calls : Calls World) where
  some-inj : {a b : Machine World × Bool} → some a ≡ some b → a ≡ b
  some-inj e = cc

  -- From a scheduler with fewer tasks than the fuel, where malloc returns NULL or an address not in
  -- use, the clock and the longest interval stay within 32 bits, and the functions of the tasks
  -- leave a scheduler of no more tasks: each time SchedulerRun tests whether to go on, it holds
  -- such a scheduler of no more tasks, which is empty or from which a round of its loop comes to
  -- its end, with no failed assert and no access through a lost node.
  pub Reached-IsScheduler :
      IsMalloc calls.malloc
      → ((w : World) → IsTime ((calls.time w).0 + longest))
      → IsKind longest fuel calls
      → (m n : Machine World) (xs : List (ℕ × Task)) → IsScheduler longest m xs
      → length xs < fuel
      → Reached fuel calls m n
      → (ys : List (ℕ × Task)) × IsScheduler longest n ys
        × (length ys ≤ length xs)
        × ((is_empty n ≡ some true)
            ⊎ ((k : Machine World) × (failed : Bool) × (round calls fuel n ≡ some (k, failed))))
  Reached-IsScheduler law clock kind m n xs v f reached =
      let (ys, u, no_more) = holds n reached in (ys, u, no_more, goes_on n ys u no_more)
    where
      goes_on :
          (n : Machine World) (ys : List (ℕ × Task))
          → IsScheduler longest n ys
          → length ys ≤ length xs
          → (is_empty n ≡ some true)
            ⊎ ((k : Machine World) × (failed : Bool) × (round calls fuel n ≡ some (k, failed)))
      goes_on n [] u l = inl (is_empty-none longest fuel calls n u)
      goes_on n (y ∷ ys) u l =
          let (k, failed, _, ran, _, _) =
            round-IsScheduler longest fuel calls law clock kind n y ys u (omega arith) in
          inr (k, failed, ran)

      after :
          (n k : Machine World) (ys : List (ℕ × Task))
          → IsScheduler longest n ys
          → length ys ≤ length xs
          → is_empty n ≡ some false
          → round calls fuel n ≡ some (k, false)
          → (zs : List (ℕ × Task)) × IsScheduler longest k zs × (length zs ≤ length xs)
      after n k [] u l e ran =
          let bad : some true ≡ some false = sym (is_empty-none longest fuel calls n u) ∙ e in cc
      after n k (y ∷ ys) u l e ran =
          let (k', failed, zs, ran', w, no_more) =
            round-IsScheduler longest fuel calls law clock kind n y ys u (omega arith) in
          let same : k' ≡ k = ap (λ p. p.0) (some-inj (sym ran' ∙ ran)) in
          (zs, subst (λ k. IsScheduler longest k zs) same w, omega arith)

      holds :
          (n : Machine World)
          → Reached fuel calls m n
          → (ys : List (ℕ × Task)) × IsScheduler longest n ys × (length ys ≤ length xs)
      holds n start = (xs, same_queue longest m (with_flag (pos 0) m) xs refl refl v, omega arith)
      holds n (again {n = before} {k = k} r e flag ran) =
          let (ys, u, no_more) = holds before r in after before n ys u no_more e ran

  finish_from :
      IsKind longest fuel calls
      → ((f a : ℕ) (m : Machine World) → is_zero (calls.activate f a m).1 ≡ false)
      → ((f a : ℕ) (m : Machine World) → (calls.activate f a m).0.stop_flag ≡ m.stop_flag)
      → (rounds : ℕ) (m : Machine World) (xs : List (ℕ × Task)) → IsScheduler longest m xs
      → m.stop_flag ≡ pos 0
      → length xs < rounds
      → (n : Machine World) × (run_from calls fuel rounds m ≡ some (n, finish_all_work))
        × IsScheduler longest n []
  unfolding run_from reschedule
  finish_from kind done quiet zero m xs v s l = elim l [ ]
  finish_from kind done quiet (suc rounds) m [] v s l =
      (m, rw (is_empty-none longest fuel calls m v) refl, v)
  finish_from kind done quiet (suc rounds) m (x ∷ xs) v s l =
      let (ready, ran, w, _, flag, _) = round-first longest fuel calls m x xs v in
      let go_on : is_zero m.stop_flag ≡ true = ap is_zero s in
      let called = calls.activate (x.1).task_action (x.1).data_in ready in
      let (ys, u, no_more) = kind.kept (x.1).task_action (x.1).data_in ready xs w in
      let (n, finished, e) =
        finish_from kind done quiet rounds called.0 ys u
          (quiet (x.1).task_action (x.1).data_in ready ∙ flag ∙ s) (omega arith) in
      (
        n,
        rw
            (
              is_empty-more longest fuel calls m x xs v,
              go_on,
              ran,
              done (x.1).task_action (x.1).data_in ready,
            )
            finished,
        e,
      )

  -- Where the function of each task returns other than 0, leaves the stop flag as it is and a
  -- scheduler of no more tasks, SchedulerRun on a scheduler with fewer tasks than rounds allowed
  -- returns FINISH_ALL_WORK, and no task is left.
  pub run_finish :
      IsKind longest fuel calls
      → ((f a : ℕ) (m : Machine World) → is_zero (calls.activate f a m).1 ≡ false)
      → ((f a : ℕ) (m : Machine World) → (calls.activate f a m).0.stop_flag ≡ m.stop_flag)
      → (rounds : ℕ) (m : Machine World) (xs : List (ℕ × Task)) → IsScheduler longest m xs
      → length xs < rounds
      → (n : Machine World) × (run calls fuel rounds m ≡ some (n, finish_all_work))
        × IsScheduler longest n []
  unfolding run
  run_finish kind done quiet rounds m xs v l =
      finish_from kind done quiet rounds (with_flag (pos 0) m) xs
        (same_queue longest m (with_flag (pos 0) m) xs refl refl v) refl l
