-- ===== src/Scheduler/Identifying.antt =====
-- scheduler.c and uid.c: the identifier that `SchedulerAdd` gives, and `SchedulerRemove` with it.
use daher_repo.Prelude.{
  ℕ, suc, ◌+◌, ◌<◌, ◌≤◌, ◌≡◌, ◌≢◌, refl, sym, ap, ◌∙◌, Bool, true, false, some, List, [], ◌∷◌, ◌==◌,
  ◌&&◌, is_zero, is_neg, length, arith, inl, inr, ◌⊎◌, Bool-cases, All, All-imp,
}
use daher_repo.Dlist.Segments.{eq_test, same_test}
use daher_repo.Dlist.View.{data_of}
use daher_repo.Dlist.Changing.{IsMalloc}
use daher_repo.Dlist.Walking.{length-data_of}
use daher_repo.Dlist.Matching.{first_match, without_match}
use daher_repo.SortedList.Order.{place}
use daher_repo.Task.{Task}
use daher_repo.Uid.{Uid}
use daher_repo.Uid
use daher_repo.Scheduler.{Machine, Calls, compar_func, compar_uid, add, remove}
use daher_repo.Scheduler.Deadlines.{IsTime, length-place}
use daher_repo.Scheduler.Adding.{IsScheduler, missing, add-IsScheduler, remove-IsScheduler}

and_false : (a b : Bool) → a && b && false ≡ false
and_false true true = refl
and_false true false = refl
and_false false b = refl

is_same_self : (u : Uid) → is_zero (Uid.is_same u u) ≡ false
unfolding Uid.is_same
is_same_self u = rw (same_test u.pid, same_test u.time_stamp, same_test u.counter) refl

is_same_other : (u v : Uid) → u.counter ≢ v.counter → is_zero (Uid.is_same u v) ≡ true
unfolding Uid.is_same
is_same_other u v ne =
    rw (eq_test u.counter v.counter ne, and_false (u.pid == v.pid) (u.time_stamp == v.time_stamp))
      refl

-- The only task with an identifier is the first match, and the others are left without it.
placed_match :
    (uid : Uid) (t : Task) (ts : List Task)
    → is_zero (compar_uid t uid) ≡ false
    → All (λ u. is_zero (compar_uid u uid) ≡ true) ts
    → (first_match compar_uid uid (place compar_func t ts) ≡ some t)
      × (without_match compar_uid uid (place compar_func t ts) ≡ ts)
unfolding place
placed_match uid t [] m a = rw m (refl, refl)
placed_match uid t (u ∷ us) m a = elim (Bool-cases (is_neg (compar_func u t))) [
  | inl e ↦ rw (e, m) (refl, refl)
  | inr e ↦
      let (first, others) = placed_match uid t us m a.1 in
      rw (e, a.0) (first, ap (λ r. u ∷ r) others)
]

module _ {World : Type 0} (longest : ℕ) (calls : Calls World) where
  -- Where malloc returns NULL or an address not in use, the clock and the interval stay within 32
  -- bits, the interval is at most the longest allowed, fuel is above the number of tasks and one,
  -- and no waiting task has the counter of the next identifier: if malloc has memory for the task
  -- and for its node, SchedulerRemove with the identifier that SchedulerAdd returned returns 0 and
  -- leaves the tasks of before; only if malloc returns NULL for one of them does SchedulerAdd
  -- return the bad identifier, and then it keeps the tasks.
  pub remove-add :
      IsMalloc calls.malloc
      → (fuel : ℕ) (m : Machine World) (xs : List (ℕ × Task)) (action_func param interval : ℕ)
      → IsScheduler longest m xs
      → interval ≤ longest
      → IsTime ((calls.time m.world).0 + interval)
      → suc (length xs) < fuel
      → All (λ u. (u.task_uid).counter ≢ m.inner_counter) (data_of xs)
      → (((calls.task_malloc m.world ≡ 0) ⊎ (calls.malloc m.heap ≡ 0))
          × ((n : Machine World) × (add calls fuel m action_func param interval
                ≡ some (n, Uid.get_bad_uid))
              × IsScheduler longest n xs))
        ⊎ (((calls.task_malloc m.world ≢ 0) × (calls.malloc m.heap ≢ 0))
            × ((n k : Machine World) × (uid : Uid) × (zs : List (ℕ × Task)) × (add calls fuel m
                    action_func param interval
                  ≡ some (n, uid))
                × (remove fuel n uid ≡ some (k, 0))
                × IsScheduler longest k zs
                × (data_of zs ≡ data_of xs)))
  unfolding compar_uid
  remove-add law fuel m xs action_func param interval v i k f fresh =
      elim (add-IsScheduler longest calls law fuel m xs action_func param interval v i k
        (omega arith)) [
          | inl failed ↦ inl failed
          | inr (given, (n, ys, t, ran, w, placed, _, (_, (_, counted)))) ↦
              let uid = t.task_uid in
              let (first, others) = placed_match uid t (data_of xs) (is_same_self uid) (
                All-imp (λ u ne. is_same_other u.task_uid uid (λ e. ne (e ∙ counted))) (data_of xs)
                  fresh) in
              let size : length ys ≡ suc (length xs) =
                sym (length-data_of ys)
                ∙ ap length placed
                ∙ length-place t (data_of xs)
                ∙ ap suc (length-data_of xs) in
              let (after, zs, removed, u, left) =
                remove-IsScheduler longest fuel n ys uid w (omega arith) in
              inr (
                given,
                (
                  n,
                  after,
                  uid,
                  zs,
                  ran,
                  removed
                      ∙ ap (λ r. some (after, missing (first_match compar_uid uid r))) placed
                      ∙ ap (λ r. some (after, missing r)) first,
                  u,
                  left ∙ ap (without_match compar_uid uid) placed ∙ others,
                ),
              )
        ]
