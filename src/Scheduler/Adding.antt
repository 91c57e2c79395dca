-- ===== src/Scheduler/Adding.antt =====
-- scheduler.c: the tasks that a scheduler holds, and `SchedulerAdd`, `SchedulerRemove` and
-- `SchedulerClear`, which change them.
use mathlib.Core.Path.{subst}
use daher_repo.Prelude.{
  ==→eq, ℕ, ◌+◌, ◌^◌, ◌<◌, ◌≤◌, ◌≡◌, ◌≢◌, refl, sym, ap, ◌∙◌, true, false, Option, none, some, List,
  [], ◌∷◌, ◌++◌, ◌==◌, is_zero, length, arith, inl, inr, ◌⊎◌, Bool-cases, All, add_word, mod_below,
}
use daher_repo.Dlist.{Store}
use daher_repo.Dlist.View.{data_of}
use daher_repo.Dlist.Changing.{IsMalloc}
use daher_repo.SortedList.Order.{place, place-InOrder, All-place}
use daher_repo.PQueue
use daher_repo.PQueue.Laws.{IsPQueue, enqueue-place, erase-first_match}
use daher_repo.Dlist.Matching.{first_match, without_match}
use daher_repo.Task.{Task}
use daher_repo.Task
use daher_repo.Uid.{Uid}
use daher_repo.Uid
use daher_repo.Scheduler.{Machine, Calls, with_heap, compar_func, compar_uid, add, new_task, remove}
use daher_repo.Scheduler.Deadlines.{
  IsTime, HasTime, Nearly, InOrder-Nearly, Nearly-InOrder, compar_func-IsSortFunc,
  compar_func_not_late,
}

-- A task to be executed while a 32-bit clock can show it, whose interval is no longer than the given.
abbrev pub IsTask : ℕ → Task → Type 0
IsTask longest task = HasTime task × (task.interval ≤ longest)

times : (longest : ℕ) → (ts : List Task) → All (IsTask longest) ts → All HasTime ts
times longest [] k = tt
times longest (t ∷ ts) k = (k.0.0, times longest ts k.1)

place_last :
    (t : Task) (ts : List Task)
    → HasTime t
    → All HasTime ts
    → All (λ u. u.time_to_execute ≤ t.time_to_execute + 1) ts
    → place compar_func t ts ≡ ts ++ (t ∷ [])
unfolding place
place_last t [] k ks a = refl
place_last t (u ∷ us) k ks a =
    rw (compar_func_not_late u t ks.0 k a.0) (ap (λ r. u ∷ r) (place_last t us k ks.1 a.1))

-- the result of `SchedulerRemove`: 0 where there was a task
abbrev pub missing : Option Task → ℕ
missing none = 1
missing (some t) = 0

without-All :
    (P : Task → Type 0) (uid : Uid) (ts : List Task)
    → All P ts
    → All P (without_match compar_uid uid ts)
without-All P uid [] k = tt
without-All P uid (t ∷ ts) k = elim (Bool-cases (is_zero (compar_uid t uid))) [
  | inl e ↦ rw e (k.0, without-All P uid ts k.1)
  | inr e ↦ rw e k.1
]

without-Nearly : (uid : Uid) (ts : List Task) → Nearly ts → Nearly (without_match compar_uid uid ts)
without-Nearly uid [] k = tt
without-Nearly uid (t ∷ ts) k = elim (Bool-cases (is_zero (compar_uid t uid))) [
  | inl e ↦ rw e (
    without-All (λ u. t.time_to_execute ≤ u.time_to_execute + 1) uid ts k.0,
    without-Nearly uid ts k.1,
  )
  | inr e ↦ rw e k.1
]

module _ {World : Type 0} (longest : ℕ) where
  -- The scheduler holds these tasks: no task is more than one second later than one behind it.
  pub record IsScheduler (m : Machine World) (xs : List (ℕ × Task)) : Type 0 where
    pub queued : IsPQueue m.heap m.container xs
    pub compared : ((m.container).queue).sort_func ≡ compar_func
    pub nearly : Nearly (data_of xs)
    pub timed : All (IsTask longest) (data_of xs)

  -- `PQEnpqueue` of a task into a scheduler
  pub enqueue-IsScheduler :
      (malloc : Store Task → ℕ)
      → IsMalloc malloc
      → (fuel : ℕ) (m : Machine World) (xs : List (ℕ × Task)) (t : Task) → IsScheduler m xs
      → IsTask longest t
      → length xs < fuel
      → ((malloc m.heap ≡ 0)
          × (PQueue.enqueue malloc fuel m.heap m.container t ≡ some (m.heap, true)))
        ⊎ ((malloc m.heap ≢ 0)
            × ((g : Store Task) × (ys : List (ℕ × Task)) × (PQueue.enqueue malloc fuel m.heap
                    m.container t
                  ≡ some (g, false))
                × IsScheduler (with_heap g m) ys
                × (data_of ys ≡ place compar_func t (data_of xs))))
  enqueue-IsScheduler malloc law fuel m xs t v k f =
      elim (enqueue-place malloc law fuel m.heap m.container xs t v.queued f) [
        | inl (no_memory, same) ↦ inl (no_memory, same)
        | inr (ne, (g, ys, ran, w, placed)) ↦
            let put_in : data_of ys ≡ place compar_func t (data_of xs) =
              placed ∙ ap (λ s. place s t (data_of xs)) v.compared in
            let ks = times longest (data_of xs) v.timed in
            inr (
              ne,
              (
                g,
                ys,
                ran,
                record {
                  queued = w;
                  compared = v.compared;
                  nearly = subst Nearly (sym put_in) (
                      InOrder-Nearly (place compar_func t (data_of xs))
                        (All-place compar_func HasTime t (data_of xs) k.0 ks)
                        (place-InOrder compar_func HasTime compar_func-IsSortFunc t (data_of xs) k.0
                          ks (Nearly-InOrder (data_of xs) ks v.nearly)));
                  timed =
                      subst (All (IsTask longest)) (sym put_in)
                        (All-place compar_func (IsTask longest) t (data_of xs) k v.timed);
                },
                put_in,
              ),
            )
      ]

  -- Where malloc returns an address not in use and fuel is above the number of tasks, PQEnpqueue
  -- puts a task of a scheduler behind all others where none of them is more than one second later:
  -- also behind those that are due one second after it.
  pub enqueue_behind :
      (malloc : Store Task → ℕ)
      → IsMalloc malloc
      → (fuel : ℕ) (m : Machine World) (xs : List (ℕ × Task)) (t : Task) → IsScheduler m xs
      → IsTask longest t
      → length xs < fuel
      → malloc m.heap ≢ 0
      → All (λ u. u.time_to_execute ≤ t.time_to_execute + 1) (data_of xs)
      → (g : Store Task) × (ys : List (ℕ × Task)) × (PQueue.enqueue malloc fuel m.heap m.container t
          ≡ some (g, false))
        × IsScheduler (with_heap g m) ys
        × (data_of ys ≡ data_of xs ++ (t ∷ []))
  enqueue_behind malloc law fuel m xs t v k f ne late =
      elim (enqueue-IsScheduler malloc law fuel m xs t v k f) [
        | inl (no_memory, _) ↦ absurd (ne no_memory)
        | inr (_, (g, ys, ran, w, placed)) ↦ (
          g,
          ys,
          ran,
          w,
          placed ∙ place_last t (data_of xs) k.0 (times longest (data_of xs) v.timed) late,
        )
      ]

  -- The scheduler with another machine around the same queue.
  pub same_queue :
      (m n : Machine World) (xs : List (ℕ × Task))
      → n.heap ≡ m.heap
      → n.container ≡ m.container
      → IsScheduler m xs
      → IsScheduler n xs
  same_queue m n xs e c v = record {
    queued =
        subst (λ h. IsPQueue h n.container xs) (sym e)
          (subst (λ p. IsPQueue m.heap p xs) (sym c) v.queued);
    compared = ap (λ p. (p.queue).sort_func) c ∙ v.compared;
    nearly = v.nearly;
    timed = v.timed;
  }

  module _ (calls : Calls World) where
    -- Where malloc returns NULL or an address not in use, the clock and the interval stay within 32
    -- bits, the interval is at most the longest allowed, and fuel is above the number of tasks: if
    -- malloc has memory for the task and for its node, SchedulerAdd keeps a scheduler, puts a task
    -- of this action, argument and time before the first that is more than one second later, and
    -- returns its identifier, which has the value of the counter; only if malloc returns NULL for
    -- one of them does it return the bad identifier, and then it keeps the tasks.
    pub add-IsScheduler :
        IsMalloc calls.malloc
        → (fuel : ℕ) (m : Machine World) (xs : List (ℕ × Task)) (action_func param interval : ℕ)
        → IsScheduler m xs
        → interval ≤ longest
        → IsTime ((calls.time m.world).0 + interval)
        → length xs < fuel
        → (((calls.task_malloc m.world ≡ 0) ⊎ (calls.malloc m.heap ≡ 0))
            × ((n : Machine World) × (add calls fuel m action_func param interval
                  ≡ some (n, Uid.get_bad_uid))
                × IsScheduler n xs))
          ⊎ (((calls.task_malloc m.world ≢ 0) × (calls.malloc m.heap ≢ 0))
              × ((n : Machine World) × (ys : List (ℕ × Task)) × (t : Task) × (add calls fuel m
                      action_func param interval
                    ≡ some (n, t.task_uid))
                  × IsScheduler n ys
                  × (data_of ys ≡ place compar_func t (data_of xs))
                  × (t.time_to_execute ≡ (calls.time m.world).0 + interval)
                  × ((t.task_action ≡ action_func)
                      × ((t.data_in ≡ param) × ((t.task_uid).counter ≡ m.inner_counter)))))
    unfolding add new_task Task.create Uid.create
    add-IsScheduler law fuel m xs action_func param interval v i k f =
        elim (Bool-cases (calls.task_malloc m.world == 0)) [
          | inl no_task ↦
              inl (inl (==→eq (calls.task_malloc m.world) 0 no_task), (m, rw no_task refl, v))
          | inr given ↦
              let has_task : calls.task_malloc m.world ≢ 0 =
                (λ e. let bad : true ≡ false = sym (ap (λ z. z == 0) e) ∙ given in cc) in
              let (t, m1) = new_task calls m interval action_func param in
              let u : IsScheduler m1 xs = same_queue m m1 xs refl refl v in
              let sum : add_word (calls.time m.world).0 interval
                  ≡ (calls.time m.world).0 + interval =
                mod_below ((calls.time m.world).0 + interval) (2 ^ 64) (omega arith) in
              let is_task : IsTask longest t = (rw sum k, i) in
              elim (enqueue-IsScheduler calls.malloc law fuel m1 xs t u is_task f) [
                | inl (no_node, ran) ↦ inl (inr no_node, (m1, rw (given, ran) refl, u))
                | inr (has_node, (g, ys, ran, w, placed)) ↦ inr (
                  (has_task, has_node),
                  (
                    with_heap g m1,
                    ys,
                    t,
                    rw (given, ran) refl,
                    w,
                    placed,
                    sum,
                    (refl, (refl, refl)),
                  ),
                )
              ]
        ]

  -- With fuel above the number of tasks, SchedulerRemove takes the first task with the identifier
  -- out of a scheduler and returns 0; where there is none it returns 1 and the tasks stay.
  pub remove-IsScheduler :
      (fuel : ℕ) (m : Machine World) (xs : List (ℕ × Task)) (uid : Uid)
      → IsScheduler m xs
      → length xs < fuel
      → (n : Machine World) × (ys : List (ℕ × Task)) × (remove fuel m uid
          ≡ some (n, missing (first_match compar_uid uid (data_of xs))))
        × IsScheduler n ys
        × (data_of ys ≡ without_match compar_uid uid (data_of xs))
  unfolding remove
  remove-IsScheduler fuel m xs uid v f =
      let (g, ys, ran, w, rest) =
        erase-first_match compar_uid uid fuel m.heap m.container xs v.queued f in
      (
        with_heap g m,
        ys,
        rw ran (removed g (first_match compar_uid uid (data_of xs))),
        record {
          queued = w;
          compared = v.compared;
          nearly = subst Nearly (sym rest) (without-Nearly uid (data_of xs) v.nearly);
          timed =
              subst (All (IsTask longest)) (sym rest)
                (without-All (IsTask longest) uid (data_of xs) v.timed);
        },
        rest,
      )
    where
      removed :
          (g : Store Task) (found : Option Task)
          → ◌≡◌ {A = Option (Machine World × ℕ)}
              (some (with_heap g m, elim found [ none ↦ 1 | some task ↦ 0 ]))
              (some (with_heap g m, missing found))
      removed g none = refl
      removed g (some task) = refl
