-- ===== src/Scheduler.antt =====
-- infinity/ds/scheduler/scheduler.c: a scheduler that keeps its tasks in the priority queue of
-- pqueue.c. The state that a call sees and changes is a `Machine`; the clock, `sleep`, `malloc` and the
-- user's functions are parameters.
pub mod Deadlines
pub mod Waiting
pub mod Adding
pub mod Identifying
pub mod Running
pub mod Finishing
pub mod Tests
use daher_repo.Prelude.{
  ℕ, zero, suc, ◌+◌, ◌-◌, ◌%◌, ◌^◌, Bool, true, false, not, ◌||◌, ◌&&◌, Option, none, some, ◌==◌,
  if◌then◌else◌, ◌>>=◌, ℤ, pos, negsuc, is_zero, ltb, sub_word,
}
use daher_repo.Dlist.{Store}
use daher_repo.PQueue.{PQueue}
use daher_repo.PQueue
use daher_repo.Task.{Task}
use daher_repo.Task
use daher_repo.Uid.{Uid}
use daher_repo.Uid

-- the value of an `int` with these low 32 bits
unfoldable pub to_int : ℕ → ℤ
to_int n =
    let bits = n % 2 ^ 32 in if ltb bits (2 ^ 31) then pos bits else negsuc (2 ^ 32 - 1 - bits)

-- `ComparFunc` and `ComparUID`
unfoldable pub compar_func : Task → Task → ℤ
compar_func on_container to_add =
    to_int (sub_word to_add.time_to_execute on_container.time_to_execute + 1)

unfoldable pub compar_uid : Task → Uid → ℤ
compar_uid on_container uid = Uid.is_same on_container.task_uid uid

-- the results of `SchedulerRun`
pub data Status : Type 0 where
  finish_all_work : Status
  stopped : Status
  error : Status

-- `struct scheduler`, with the nodes of its queue, the static counter of uid.c and what lies outside
pub record Machine (World : Type 0) : Type 0 where
  pub heap : Store Task
  pub container : PQueue Task
  pub stop_flag : ℤ
  pub inner_counter : ℕ
  pub world : World

-- What the scheduler calls: `time(NULL)`, `sleep`, `malloc` for a node and for a task (0 for NULL),
-- `getpid`, and the user's function on its argument.
pub record Calls (World : Type 0) : Type 0 where
  pub time : World → ℕ × World
  pub sleep : ℕ → World → World
  pub malloc : Store Task → ℕ
  pub task_malloc : World → ℕ
  pub getpid : ℕ
  pub activate : ℕ → ℕ → Machine World → Machine World × ℤ

module _ {World : Type 0} where
  abbrev pub with_heap : Store Task → Machine World → Machine World
  with_heap g m = record {
    heap = g;
    container = m.container;
    stop_flag = m.stop_flag;
    inner_counter = m.inner_counter;
    world = m.world;
  }

  abbrev pub with_world : World → Machine World → Machine World
  with_world w m = record {
    heap = m.heap;
    container = m.container;
    stop_flag = m.stop_flag;
    inner_counter = m.inner_counter;
    world = w;
  }

  abbrev pub with_flag : ℤ → Machine World → Machine World
  with_flag z m = record {
    heap = m.heap;
    container = m.container;
    stop_flag = z;
    inner_counter = m.inner_counter;
    world = m.world;
  }

  abbrev pub with_counter : ℕ → Machine World → Machine World
  with_counter n m = record {
    heap = m.heap;
    container = m.container;
    stop_flag = m.stop_flag;
    inner_counter = n;
    world = m.world;
  }

  -- `SchedulerCreate`, once its own `malloc` and that of `PQCreate` have succeeded
  unfoldable pub create : World → ℕ → Store Task → ℕ → ℕ → ℤ → Option (Machine World)
  create w counter h b e garbage =
      let made = PQueue.create compar_func h b e in
      elim made.1 [
        | none ↦ none
        | some pqueue ↦ some (record {
          heap = made.0;
          container = pqueue;
          stop_flag = garbage;
          inner_counter = counter;
          world = w;
        })
      ]

  unfoldable pub size : ℕ → Machine World → Option ℕ
  size fuel m = PQueue.size fuel m.heap m.container

  unfoldable pub is_empty : Machine World → Option Bool
  is_empty m = PQueue.is_empty m.heap m.container

  -- `SchedulerPause`
  unfoldable pub pause : Machine World → Machine World
  pause m = with_flag (pos 1) m

  -- `SchedulerRemove`: 0 where a task has been removed
  unfoldable pub remove : ℕ → Machine World → Uid → Option (Machine World × ℕ)
  remove fuel m uid = PQueue.erase fuel m.heap m.container compar_uid uid >>= λ r.
      some (with_heap r.0 m, elim r.1 [ none ↦ 1 | some task ↦ 0 ])

  -- `SchedulerClear`
  unfoldable pub clear : ℕ → Machine World → Option (Machine World)
  clear zero m = none
  clear (suc fuel) m = is_empty m >>= λ e.
      if e
      then some m
      else (PQueue.dequeue m.heap m.container >>= λ r. clear fuel (with_heap r.0 m))

  module _ (calls : Calls World) where
    -- `TaskCreate` with its calls of `time` and `UIDCreate`
    unfoldable pub new_task : Machine World → ℕ → ℕ → ℕ → Task × Machine World
    new_task m interval action_func param =
        let (now, w) = calls.time m.world in
        let (stamp, w') = calls.time w in
        let (uid, counter) = Uid.create calls.getpid stamp m.inner_counter in
        (Task.create interval action_func param now uid, with_counter counter (with_world w' m))

    unfoldable pub add : ℕ → Machine World → ℕ → ℕ → ℕ → Option (Machine World × Uid)
    add fuel m action_func param interval_in_sec =
        if calls.task_malloc m.world == 0
        then some (m, Uid.get_bad_uid)
        else let (task, m1) = new_task m interval_in_sec action_func param in
          (PQueue.enqueue calls.malloc fuel m1.heap m1.container task >>= λ r.
          some (with_heap r.0 m1, if r.1 then Uid.get_bad_uid else task.task_uid))

    -- the wait of `SchedulerRun` until the time of a task; the clock is read twice
    unfoldable pub wait : ℕ → World → World
    wait until w =
        let (now, w1) = calls.time w in
        let left = sub_word until now in
        if not (left == 0) && ltb left (2 ^ 63)
        then (let (now', w2) = calls.time w1 in calls.sleep (sub_word until now' % 2 ^ 32) w2)
        else w1

    -- What the loop of `SchedulerRun` does with a task after its function: the task goes back to the
    -- queue where it returned 0. The result is true where `SchedulerRun` returns ERROR.
    unfoldable pub reschedule : ℕ → Task → Machine World × ℤ → Option (Machine World × Bool)
    reschedule fuel exe_task (m, return_status) =
        if is_zero return_status
        then (let (now, w) = calls.time m.world in
            PQueue.enqueue calls.malloc fuel m.heap m.container
              (Task.set_time_to_execute now exe_task)
            >>= λ s. some (with_heap s.0 (with_world w m), s.1))
        else some (m, false)

    -- one round of the loop
    unfoldable pub round : ℕ → Machine World → Option (Machine World × Bool)
    round fuel m = PQueue.dequeue m.heap m.container >>= λ r. reschedule fuel r.1 (
        calls.activate (r.1).task_action (r.1).data_in
          (with_world (wait (r.1).time_to_execute m.world) (with_heap r.0 m)))

    unfoldable pub run_from : ℕ → ℕ → Machine World → Option (Machine World × Status)
    run_from fuel zero m = none
    run_from fuel (suc rounds) m = is_empty m >>= λ e.
        if e
        then some (m, finish_all_work)
        else if is_zero m.stop_flag
        then (round fuel m >>= λ r. if r.1 then some (r.0, error) else run_from fuel rounds r.0)
        else some (m, stopped)

    -- `SchedulerRun`
    unfoldable pub run : ℕ → ℕ → Machine World → Option (Machine World × Status)
    run fuel rounds m = run_from fuel rounds (with_flag (pos 0) m)
