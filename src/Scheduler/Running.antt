-- ===== src/Scheduler/Running.antt =====
-- scheduler.c: the loop of `SchedulerRun`, round by round.
use daher_repo.Prelude.{
  ◌≢◌, ℕ, suc, ◌+◌, ◌^◌, ◌<◌, ◌≤◌, ◌≡◌, refl, sym, ap, ◌∙◌, Bool, true, false, some, List, [], ◌∷◌,
  ℤ, is_zero, length, arith, inl, inr, ◌⊎◌, Bool-cases, All, mod_below,
}
use daher_repo.Dlist.View.{data_of}
use daher_repo.Dlist.Changing.{IsMalloc}
use daher_repo.Dlist.Walking.{is_empty-IsDlist, length-data_of}
use daher_repo.SortedList.Order.{place}
use daher_repo.SortedList
use daher_repo.PQueue
use daher_repo.PQueue.Laws.{dequeue-first}
use daher_repo.Task.{Task}
use daher_repo.Task
use daher_repo.Scheduler.{
  Machine, Calls, with_heap, with_world, compar_func, is_empty, wait, reschedule, round,
}
use daher_repo.Scheduler.Deadlines.{IsTime, length-place}
use daher_repo.Scheduler.Adding.{IsTask, IsScheduler, same_queue, enqueue-IsScheduler}

module _ {World : Type 0} (longest fuel : ℕ) (calls : Calls World) where
  -- What is asked of the users' functions: they may remove tasks of the scheduler, read its clock, pause
  -- it and put other tasks for removed ones.
  pub record IsKind : Type 0 where
    pub kept :
        (f a : ℕ) (m : Machine World) (xs : List (ℕ × Task))
        → IsScheduler longest m xs
        → (ys : List (ℕ × Task)) × IsScheduler longest (calls.activate f a m).0 ys
          × (length ys ≤ length xs)

  pub is_empty-none : (m : Machine World) → IsScheduler longest m [] → is_empty m ≡ some true
  unfolding is_empty PQueue.is_empty SortedList.is_empty
  is_empty-none m v = is_empty-IsDlist m.heap ((m.container).queue).list_of [] v.queued

  pub is_empty-more :
      (m : Machine World) (x : ℕ × Task) (xs : List (ℕ × Task))
      → IsScheduler longest m (x ∷ xs)
      → is_empty m ≡ some false
  unfolding is_empty PQueue.is_empty SortedList.is_empty
  is_empty-more m x xs v = is_empty-IsDlist m.heap ((m.container).queue).list_of (x ∷ xs) v.queued

  -- A round of SchedulerRun takes the first task of a scheduler, which is at most one second later
  -- than any other, and calls its function after the wait, while the scheduler holds the other
  -- tasks.
  pub round-first :
      (m : Machine World) (x : ℕ × Task) (xs : List (ℕ × Task))
      → IsScheduler longest m (x ∷ xs)
      → (ready : Machine World) × (round calls fuel m
          ≡ reschedule calls fuel x.1 (calls.activate (x.1).task_action (x.1).data_in ready))
        × IsScheduler longest ready xs
        × (ready.world ≡ wait calls (x.1).time_to_execute m.world)
        × (ready.stop_flag ≡ m.stop_flag)
        × All (λ u. (x.1).time_to_execute ≤ u.time_to_execute + 1) (data_of xs)
  unfolding round
  round-first m x xs v =
      let (g, ran, w, _) = dequeue-first m.heap m.container xs x v.queued in
      (
        with_world (wait calls (x.1).time_to_execute m.world) (with_heap g m),
        rw ran refl,
        record { queued = w; compared = v.compared; nearly = (v.nearly).1; timed = (v.timed).1 },
        refl,
        refl,
        (v.nearly).0,
      )

  -- Where malloc returns NULL or an address not in use, the clock and the longest interval stay
  -- within 32 bits, and fuel is above the number of tasks: a task whose function returned 0 is put
  -- back with the time of the clock and its interval before the first task that is more than one
  -- second later if malloc has memory for its node, and only if it has none is ERROR returned and
  -- the other tasks are kept; after another result nothing changes.
  pub reschedule-IsScheduler :
      IsMalloc calls.malloc
      → ((w : World) → IsTime ((calls.time w).0 + longest))
      → (m : Machine World) (ys : List (ℕ × Task)) (t : Task) (return_status : ℤ)
      → IsScheduler longest m ys
      → IsTask longest t
      → length ys < fuel
      → ((is_zero return_status ≡ false)
          × (reschedule calls fuel t (m, return_status) ≡ some (m, false)))
        ⊎ ((is_zero return_status ≡ true)
            × (((calls.malloc m.heap ≡ 0)
                  × ((n : Machine World) × (reschedule calls fuel t (m, return_status)
                        ≡ some (n, true))
                      × IsScheduler longest n ys))
                ⊎ ((calls.malloc m.heap ≢ 0)
                    × ((n : Machine World) × (zs : List (ℕ × Task)) × (reschedule calls fuel t
                            (m, return_status)
                          ≡ some (n, false))
                        × IsScheduler longest n zs
                        × (data_of zs
                            ≡ place compar_func
                                (Task.set_time_to_execute (calls.time m.world).0 t)
                                (data_of ys))))))
  unfolding reschedule Task.set_time_to_execute
  reschedule-IsScheduler law clock m ys t return_status v k f =
      elim (Bool-cases (is_zero return_status)) [
        | inr e ↦ inl (e, rw e refl)
        | inl e ↦
            let w = (calls.time m.world).1 in
            let soon = clock m.world in
            let next = Task.set_time_to_execute (calls.time m.world).0 t in
            let sum : next.time_to_execute ≡ (calls.time m.world).0 + t.interval =
              mod_below ((calls.time m.world).0 + t.interval) (2 ^ 64) (omega arith) in
            let is_task : IsTask longest next = (omega arith, k.1) in
            inr (
              e,
              elim (enqueue-IsScheduler longest calls.malloc law fuel m ys next v is_task f) [
                | inl (no_memory, ran) ↦ inl (
                  no_memory,
                  (
                    with_world w m,
                    rw (e, ran) refl,
                    same_queue longest m (with_world w m) ys refl refl v,
                  ),
                )
                | inr (given, (g, zs, ran, u, placed)) ↦
                    let n = with_world w (with_heap g m) in
                    inr (
                      given,
                      (
                        n,
                        zs,
                        rw (e, ran) refl,
                        same_queue longest (with_heap g m) n zs refl refl u,
                        placed,
                      ),
                    )
              ],
            )
      ]

  module _ (law : IsMalloc calls.malloc) (clock : (w : World) → IsTime ((calls.time w).0 + longest))
      (kind : IsKind) where
    -- a round keeps a scheduler, and has no more tasks after it
    pub round-IsScheduler :
        (m : Machine World) (x : ℕ × Task) (xs : List (ℕ × Task))
        → IsScheduler longest m (x ∷ xs)
        → length (x ∷ xs) < fuel
        → (n : Machine World) × (failed : Bool) × (zs : List (ℕ × Task)) × (round calls fuel m
            ≡ some (n, failed))
          × IsScheduler longest n zs
          × (length zs ≤ length (x ∷ xs))
    round-IsScheduler m x xs v f =
        let (ready, ran, w, _, _, _) = round-first m x xs v in
        let called = calls.activate (x.1).task_action (x.1).data_in ready in
        let (ys, u, no_more) = kind.kept (x.1).task_action (x.1).data_in ready xs w in
        elim (reschedule-IsScheduler law clock called.0 ys x.1 called.1 u (v.timed).0
          (omega arith)) [
            | inl (_, same) ↦ (called.0, false, ys, ran ∙ same, u, omega arith)
            | inr (_, inl (_, (n, done, u'))) ↦ (n, true, ys, ran ∙ done, u', omega arith)
            | inr (_, inr (_, (n, zs, done, u', placed))) ↦
                let size : length zs ≡ suc (length ys) =
                  sym (length-data_of zs)
                  ∙ ap length placed
                  ∙ length-place _ (data_of ys)
                  ∙ ap suc (length-data_of ys) in
                (n, false, zs, ran ∙ done, u', omega arith)
          ]
