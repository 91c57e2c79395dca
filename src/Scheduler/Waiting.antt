-- ===== src/Scheduler/Waiting.antt =====
-- scheduler.c: the wait of `SchedulerRun` before it executes a task.
use daher_repo.Prelude.{
  ℕ, ◌+◌, ◌%◌, ◌^◌, ◌<◌, ◌≤◌, ◌≡◌, true, false, not, ◌&&◌, ◌==◌, ltb, sub_word, arith, dec_lt,
}
use daher_repo.Scheduler.{Calls, wait}
use daher_repo.Scheduler.Deadlines.{IsTime}

-- What the scheduler relies on in its clock: it does not go back when it is read, and a `sleep` that no
-- signal ends lets as many seconds pass as it is given.
pub record IsClock {World : Type 0} (calls : Calls World) : Type 0 where
  pub onward : (w : World) → (calls.time w).0 ≤ (calls.time (calls.time w).1).0
  pub slept :
      (w : World) (n : ℕ)
      → n < 2 ^ 32
      → (calls.time w).0 + n ≤ (calls.time (calls.sleep n (calls.time w).1)).0

not_left :
    (until now : ℕ)
    → IsTime until
    → now < 2 ^ 63
    → until ≤ now
    → not (sub_word until now == 0) && ltb (sub_word until now) (2 ^ 63) ≡ false
not_left until now h k l = ground arith

left :
    (until now : ℕ)
    → IsTime until
    → now < until
    → not (sub_word until now == 0) && ltb (sub_word until now) (2 ^ 63) ≡ true
left until now h l = ground arith

mod_lt : (n : ℕ) → n % 2 ^ 32 < 2 ^ 32
mod_lt n = omega arith

to_sleep : (until now : ℕ) → IsTime until → now ≤ until → now + sub_word until now % 2 ^ 32 ≡ until
to_sleep until now h l = omega arith

-- Where the clock shows less than 2 ^ 63 and does not go back, and no signal ends a sleep, the wait
-- for a time below 2 ^ 31 - 1 is not over before that time.
pub wait-not_early :
    {World : Type 0} (calls : Calls World)
    → IsClock calls
    → (until : ℕ) (w : World) → IsTime until
    → (calls.time w).0 < 2 ^ 63
    → until ≤ (calls.time (wait calls until w)).0
unfolding wait
wait-not_early calls clock until w h b =
    let onward = clock.onward w in
    let now' : ℕ = (calls.time (calls.time w).1).0 in
    let slept =
      clock.slept (calls.time w).1 (sub_word until now' % 2 ^ 32) (mod_lt (sub_word until now')) in
    elim (dec_lt (calls.time w).0 until) [
      | no l ↦ rw (not_left until (calls.time w).0 h b (omega arith)) (omega arith)
      | yes l ↦ rw (left until (calls.time w).0 h l) (elim (dec_lt now' until) [
        | yes k ↦ let e = to_sleep until now' h (omega arith) in omega arith
        | no k ↦ omega arith
      ])
    ]
