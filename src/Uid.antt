-- ===== src/Uid.antt =====
-- infinity/ds/uid/uid.c: identifiers made of the process, the time and a counter. The process id, the
-- clock and the value of the static counter are arguments.
use daher_repo.Prelude.{ℕ, ◌==◌, ◌&&◌, add_word, ℤ, pos, if◌then◌else◌}

-- `UID_t`
pub record Uid : Type 0 where
  pub pid : ℕ
  pub time_stamp : ℕ
  pub counter : ℕ

-- `UIDCreate`: the new identifier and the counter after it
unfoldable pub create : ℕ → ℕ → ℕ → Uid × ℕ
create getpid now inner_counter =
    (record { pid = getpid; time_stamp = now; counter = inner_counter }, add_word inner_counter 1)

unfoldable pub is_same : Uid → Uid → ℤ
is_same one two =
    if one.pid == two.pid && one.time_stamp == two.time_stamp && one.counter == two.counter
    then pos 1
    else pos 0

unfoldable pub get_bad_uid : Uid
get_bad_uid = record { pid = 0; time_stamp = 0; counter = 0 }
