-- ===== src/Scheduler/Tests.antt =====
-- scheduler.c, run: a scheduler of two tasks, in worlds that are the time.
use daher_repo.Prelude.{
  ℕ, ◌+◌, ◌≤◌, ◌≡◌, ◌≢◌, refl, Bool, true, false, some, List, [], ◌∷◌, ◌⊎◌, arith, pos, All,
  is_zero, length,
}
use daher_repo.Dlist.{Store}
use daher_repo.Dlist.View.{data_of}
use daher_repo.Dlist.Tests.{list, pair, pair_store, pair-IsDlist, one_block, one_block-IsMalloc}
use daher_repo.SortedList.Order.{place}
use daher_repo.PQueue
use daher_repo.Task.{Task}
use daher_repo.Task
use daher_repo.Uid.{Uid, get_bad_uid}
use daher_repo.Scheduler.{
  Machine, Calls, with_heap, finish_all_work, compar_func, add, remove, wait, reschedule, round,
  is_empty, run, with_flag,
}
use daher_repo.Scheduler.Waiting.{IsClock, wait-not_early}
use daher_repo.Scheduler.Adding.{IsScheduler, add-IsScheduler, enqueue_behind}
use daher_repo.Scheduler.Identifying.{remove-add}
use daher_repo.Scheduler.Running.{IsKind, round-first, reschedule-IsScheduler}
use daher_repo.Scheduler.Finishing.{start, Reached-IsScheduler, run_finish}

abbrev first_uid : Uid
first_uid = record { pid = 1; time_stamp = 80; counter = 1 }

abbrev second_uid : Uid
second_uid = record { pid = 1; time_stamp = 80; counter = 2 }

abbrev soon : Task
soon = record {
  interval = 5;
  data_in = 0;
  task_action = 0;
  time_to_execute = 100;
  task_uid = first_uid;
}

abbrev later : Task
later = record {
  interval = 7;
  data_in = 0;
  task_action = 0;
  time_to_execute = 103;
  task_uid = second_uid;
}

abbrev cells : List (ℕ × Task)
cells = pair soon later

abbrev machine : Machine ℕ
machine = record {
  heap = pair_store soon later;
  container = record { queue = record { list_of = list; sort_func = compar_func } };
  stop_flag = pos 0;
  inner_counter = 3;
  world = 90;
}

machine-IsScheduler : IsScheduler 10 machine cells
machine-IsScheduler = record {
  queued = pair-IsDlist soon later;
  compared = refl;
  nearly = ((omega arith, tt), (tt, tt));
  timed = ((omega arith, omega arith), ((omega arith, omega arith), tt));
}

-- a clock that moves, and one that stands; each task is completed, or is to run again
abbrev moving : Calls ℕ
moving = record {
  time = λ w. (w, w);
  sleep = λ n w. w + n;
  malloc = one_block;
  task_malloc = λ w. 9;
  getpid = 1;
  activate = λ f a m. (m, pos 1);
}

abbrev standing : Calls ℕ
standing = record {
  time = λ w. (90, w);
  sleep = λ n w. w;
  malloc = one_block;
  task_malloc = λ w. 9;
  getpid = 1;
  activate = λ f a m. (m, pos 0);
}

moving-IsClock : IsClock moving
moving-IsClock = record { onward = λ w. omega arith; slept = λ w n h. omega arith }

moving-IsKind : IsKind 10 3 moving
moving-IsKind = record { kept = λ f a m xs v. (xs, v, omega arith) }

standing-IsKind : IsKind 10 3 standing
standing-IsKind = record { kept = λ f a m xs v. (xs, v, omega arith) }

-- due one second before the second task
abbrev between : Task
between = record {
  interval = 3;
  data_in = 0;
  task_action = 0;
  time_to_execute = 102;
  task_uid = second_uid;
}

enqueue_behind_example :
    (g : Store Task) × (ys : List (ℕ × Task)) × (PQueue.enqueue one_block 3 machine.heap
        machine.container between
      ≡ some (g, false))
    × IsScheduler 10 (with_heap g machine) ys
    × (data_of ys ≡ soon ∷ later ∷ between ∷ [])
enqueue_behind_example =
    enqueue_behind 10 one_block one_block-IsMalloc 3 machine cells between machine-IsScheduler
      (omega arith, omega arith) (omega arith) (omega arith) (omega arith, (omega arith, tt))

add-IsScheduler_example :
    (((moving.task_malloc machine.world ≡ 0) ⊎ (moving.malloc machine.heap ≡ 0))
      × ((n : Machine ℕ) × (add moving 3 machine 4 5 6 ≡ some (n, get_bad_uid))
          × IsScheduler 10 n cells))
    ⊎ (((moving.task_malloc machine.world ≢ 0) × (moving.malloc machine.heap ≢ 0))
        × ((n : Machine ℕ) × (ys : List (ℕ × Task)) × (t : Task) × (add moving 3 machine 4 5 6
              ≡ some (n, t.task_uid))
            × IsScheduler 10 n ys
            × (data_of ys ≡ place compar_func t (data_of cells))
            × (t.time_to_execute ≡ 96)
            × ((t.task_action ≡ 4) × ((t.data_in ≡ 5) × ((t.task_uid).counter ≡ 3)))))
add-IsScheduler_example =
    add-IsScheduler 10 moving one_block-IsMalloc 3 machine cells 4 5 6 machine-IsScheduler
      (omega arith) (omega arith) (omega arith)

wait-not_early_example : 100 ≤ (moving.time (wait moving 100 90)).0
wait-not_early_example = wait-not_early moving moving-IsClock 100 90 (omega arith) (omega arith)

round-first_example :
    (ready : Machine ℕ) × (round moving 3 machine
      ≡ reschedule moving 3 soon (moving.activate 0 0 ready))
    × IsScheduler 10 ready ((4, later) ∷ [])
    × (ready.world ≡ wait moving 100 90)
    × (ready.stop_flag ≡ pos 0)
    × All (λ u. 100 ≤ u.time_to_execute + 1) (later ∷ [])
round-first_example =
    round-first 10 3 moving machine (3, soon) ((4, later) ∷ []) machine-IsScheduler

reschedule-IsScheduler_example :
    ((is_zero (pos 0) ≡ false)
      × (reschedule standing 3 soon (machine, pos 0) ≡ some (machine, false)))
    ⊎ ((is_zero (pos 0) ≡ true)
        × (((standing.malloc machine.heap ≡ 0)
              × ((n : Machine ℕ) × (reschedule standing 3 soon (machine, pos 0) ≡ some (n, true))
                  × IsScheduler 10 n cells))
            ⊎ ((standing.malloc machine.heap ≢ 0)
                × ((n : Machine ℕ) × (zs : List (ℕ × Task)) × (reschedule standing 3 soon
                        (machine, pos 0)
                      ≡ some (n, false))
                    × IsScheduler 10 n zs
                    × (data_of zs
                        ≡ place compar_func (Task.set_time_to_execute 90 soon) (data_of cells))))))
reschedule-IsScheduler_example =
    reschedule-IsScheduler 10 3 standing one_block-IsMalloc (λ w. omega arith) machine cells soon
      (pos 0) machine-IsScheduler (omega arith, omega arith) (omega arith)

Reached-IsScheduler_example :
    (ys : List (ℕ × Task)) × IsScheduler 10 (with_flag (pos 0) machine) ys
    × (length ys ≤ length cells)
    × ((is_empty (with_flag (pos 0) machine) ≡ some true)
        ⊎ ((k : Machine ℕ) × (failed : Bool) × (round standing 3 (with_flag (pos 0) machine)
              ≡ some (k, failed))))
Reached-IsScheduler_example =
    Reached-IsScheduler 10 3 standing one_block-IsMalloc (λ w. omega arith) standing-IsKind machine
      (with_flag (pos 0) machine) cells machine-IsScheduler (omega arith) start

run_finish_example :
    (n : Machine ℕ) × (run moving 3 3 machine ≡ some (n, finish_all_work)) × IsScheduler 10 n []
run_finish_example =
    run_finish 10 3 moving moving-IsKind (λ f a m. refl) (λ f a m. refl) 3 machine cells
      machine-IsScheduler (omega arith)

remove-add_example :
    (((moving.task_malloc machine.world ≡ 0) ⊎ (moving.malloc machine.heap ≡ 0))
      × ((n : Machine ℕ) × (add moving 4 machine 4 5 6 ≡ some (n, get_bad_uid))
          × IsScheduler 10 n cells))
    ⊎ (((moving.task_malloc machine.world ≢ 0) × (moving.malloc machine.heap ≢ 0))
        × ((n k : Machine ℕ) × (uid : Uid) × (zs : List (ℕ × Task)) × (add moving 4 machine 4 5 6
              ≡ some (n, uid))
            × (remove 4 n uid ≡ some (k, 0))
            × IsScheduler 10 k zs
            × (data_of zs ≡ data_of cells)))
remove-add_example =
    remove-add 10 moving one_block-IsMalloc 4 machine cells 4 5 6 machine-IsScheduler (omega arith)
      (omega arith) (omega arith) (omega arith, (omega arith, tt))
