-- ===== src/Scheduler/Deadlines.antt =====
-- scheduler.c, `ComparFunc`: how it compares two times, and the order it keeps.
use daher_repo.Prelude.{
  refl, Bool-cases, inl, inr, ap, dec_lt, ℕ, suc, length, ◌+◌, ◌-◌, ◌^◌, ◌<◌, ◌≤◌, ◌≡◌, sym, ◌∙◌,
  true, false, List, [], ◌∷◌, is_neg, sub_word, arith, All,
}
use daher_repo.Task.{Task}
use daher_repo.Scheduler.{to_int, compar_func}
use daher_repo.SortedList.Order.{place, InOrder, IsSortFunc}

-- The times that a 32-bit clock can show, less its last second.
abbrev pub IsTime : ℕ → Type 0
IsTime t = t < 2 ^ 31 - 1

abbrev pub HasTime : Task → Type 0
HasTime task = IsTime task.time_to_execute

pub sub_word_above : (a b : ℕ) → b ≤ a → a < 2 ^ 64 → sub_word a b ≡ a - b
sub_word_above a b h k = omega arith

not_late : (a c : ℕ) → IsTime a → IsTime c → c ≤ a + 1 → is_neg (to_int (sub_word a c + 1)) ≡ false
unfolding to_int
not_late a c h k l = ground arith

late : (a c : ℕ) → IsTime a → IsTime c → a + 1 < c → is_neg (to_int (sub_word a c + 1)) ≡ true
unfolding to_int
late a c h k l = ground arith

-- For two times that a 32-bit clock shows, `ComparFunc` is negative exactly where the task in the queue
-- is more than one second later than the task to add.
pub compar_func_not_late :
    (t new : Task)
    → HasTime t
    → HasTime new
    → t.time_to_execute ≤ new.time_to_execute + 1
    → is_neg (compar_func t new) ≡ false
unfolding compar_func
compar_func_not_late t new h k l = not_late new.time_to_execute t.time_to_execute k h l

pub compar_func_late :
    (t new : Task)
    → HasTime t
    → HasTime new
    → new.time_to_execute + 1 < t.time_to_execute
    → is_neg (compar_func t new) ≡ true
unfolding compar_func
compar_func_late t new h k l = late new.time_to_execute t.time_to_execute k h l

pub compar_func_within :
    (t new : Task)
    → HasTime t
    → HasTime new
    → is_neg (compar_func t new) ≡ false
    → t.time_to_execute ≤ new.time_to_execute + 1
compar_func_within t new h k f = elim (dec_lt (new.time_to_execute + 1) t.time_to_execute) [
  | yes l ↦ let bad : true ≡ false = sym (compar_func_late t new h k l) ∙ f in cc
  | no l ↦ omega arith
]

compar_func_beyond :
    (t new : Task)
    → HasTime t
    → HasTime new
    → is_neg (compar_func t new) ≡ true
    → new.time_to_execute + 1 < t.time_to_execute
compar_func_beyond t new h k f = elim (dec_lt (new.time_to_execute + 1) t.time_to_execute) [
  | yes l ↦ l
  | no l ↦ let bad : true ≡ false = sym f ∙ compar_func_not_late t new h k (omega arith) in cc
]

pub compar_func-IsSortFunc : IsSortFunc compar_func HasTime
compar_func-IsSortFunc = record {
  turned = λ x d h k t.
      let far = compar_func_beyond x d h k t in compar_func_not_late d x k h (omega arith);
  onwards = λ d x y k h l t f.
      let far = compar_func_beyond x d h k t in
      let near = compar_func_within x y h l f in compar_func_not_late d y k l (omega arith);
}

-- the tasks in an order where none is more than one second later than one behind it
abbrev pub Nearly : List Task → Type 0
Nearly [] = Unit
Nearly (t ∷ ts) = All (λ u. t.time_to_execute ≤ u.time_to_execute + 1) ts × Nearly ts

pub InOrder-Nearly : (ts : List Task) → All HasTime ts → InOrder compar_func ts → Nearly ts
InOrder-Nearly [] k o = tt
InOrder-Nearly (t ∷ ts) k o = (all ts k.1 o.0, InOrder-Nearly ts k.1 o.1)
  where
    all :
        (us : List Task)
        → All HasTime us
        → All (λ u. is_neg (compar_func t u) ≡ false) us
        → All (λ u. t.time_to_execute ≤ u.time_to_execute + 1) us
    all [] a b = tt
    all (u ∷ us) a b = (compar_func_within t u k.0 a.0 b.0, all us a.1 b.1)

pub Nearly-InOrder : (ts : List Task) → All HasTime ts → Nearly ts → InOrder compar_func ts
Nearly-InOrder [] k o = tt
Nearly-InOrder (t ∷ ts) k o = (all ts k.1 o.0, Nearly-InOrder ts k.1 o.1)
  where
    all :
        (us : List Task)
        → All HasTime us
        → All (λ u. t.time_to_execute ≤ u.time_to_execute + 1) us
        → All (λ u. is_neg (compar_func t u) ≡ false) us
    all [] a b = tt
    all (u ∷ us) a b = (compar_func_not_late t u k.0 a.0 b.0, all us a.1 b.1)

-- one element more in a placed list
pub length-place : (t : Task) (ts : List Task) → length (place compar_func t ts) ≡ suc (length ts)
unfolding place
length-place t [] = refl
length-place t (u ∷ us) = elim (Bool-cases (is_neg (compar_func u t))) [
  | inl e ↦ rw e refl
  | inr e ↦ rw e (ap suc (length-place t us))
]
