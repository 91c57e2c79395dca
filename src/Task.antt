-- ===== src/Task.antt =====
-- infinity/ds/task/task.c: a task of the scheduler. `time_to_execute` holds the 64 bits of a `time_t`;
-- the user's function and its argument are two numbers, which a parameter of the scheduler runs.
use daher_repo.Prelude.{ℕ, add_word}
use daher_repo.Uid.{Uid}

-- `struct task`
pub record Task : Type 0 where
  pub interval : ℕ
  pub data_in : ℕ
  pub task_action : ℕ
  pub time_to_execute : ℕ
  pub task_uid : Uid

-- `TaskCreate`, once its `malloc` has succeeded
unfoldable pub create : ℕ → ℕ → ℕ → ℕ → Uid → Task
create interval action_func data_in now uid = record {
  interval = interval;
  data_in = data_in;
  task_action = action_func;
  time_to_execute = add_word now interval;
  task_uid = uid;
}

-- `TaskSetTimeToExecute`
unfoldable pub set_time_to_execute : ℕ → Task → Task
set_time_to_execute now task = record {
  interval = task.interval;
  data_in = task.data_in;
  task_action = task.task_action;
  time_to_execute = add_word now task.interval;
  task_uid = task.task_uid;
}
