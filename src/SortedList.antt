-- ===== src/SortedList.antt =====
-- infinity/ds/sorted_list/sorted_list.c: a list of dlist.c that is kept in the order of a callback. An
-- iterator is its `internal_itr`.
pub mod Order
pub mod Tests
use daher_repo.Prelude.{
  ℕ, zero, suc, Bool, true, false, not, Option, none, some, ◌==◌, if◌then◌else◌, ◌>>=◌, ◌>>◌, ℤ,
  pos, is_zero, is_neg, is_pos, ltb,
}
use daher_repo.Dlist.{Store, Dlist, scan, is_same_iter}
use daher_repo.Dlist

-- `struct sorted_list`
pub record SortedList {ℓ} (A : Type ℓ) : Type ℓ where
  pub list_of : Dlist
  pub sort_func : A → A → ℤ

module _ {ℓ} {A : Type ℓ} where
  -- `SortedListCreate`, once its own `malloc` has succeeded
  unfoldable pub create : (A → A → ℤ) → Store A → ℕ → ℕ → Store A × Option (SortedList A)
  create sort_func h b e =
      let made = Dlist.create h b e in
      (
        made.0,
        elim made.1 [ none ↦ none | some l ↦ some (record { list_of = l; sort_func = sort_func }) ],
      )

  unfoldable pub is_empty : Store A → SortedList A → Option Bool
  is_empty h list = Dlist.is_empty h list.list_of

  unfoldable pub size : ℕ → Store A → SortedList A → Option ℕ
  size fuel h list = Dlist.size fuel h list.list_of

  unfoldable pub begin : Store A → SortedList A → Option ℕ
  begin h list = Dlist.begin h list.list_of

  unfoldable pub list_end : SortedList A → ℕ
  list_end list = list.list_of.end_dummy

  unfoldable pub insert : (Store A → ℕ) → ℕ → Store A → SortedList A → A → Option (Store A × ℕ)
  insert malloc fuel h list x = begin h list >>= λ b.
      (scan (λ y. not (is_neg (list.sort_func y x))) fuel h b (list_end list) >>= λ runner.
      Dlist.insert malloc h list.list_of runner x)

  unfoldable pub remove : Store A → SortedList A → ℕ → Option (Store A × ℕ)
  remove h list iter = Dlist.remove h list.list_of iter

  unfoldable pub pop_front : Store A → SortedList A → Option (Store A)
  pop_front h list = begin h list >>= λ b. (Dlist.remove h list.list_of b >>= λ r. some r.0)

  unfoldable pub pop_back : Store A → SortedList A → Option (Store A)
  pop_back h list =
      Dlist.prev h (list_end list) >>= λ b. (Dlist.remove h list.list_of b >>= λ r. some r.0)

  unfoldable pub next : Store A → ℕ → Option ℕ
  next h iter = Dlist.next h iter

  unfoldable pub prev : Store A → ℕ → Option ℕ
  prev h iter = Dlist.prev h iter

  unfoldable pub get_data : Store A → ℕ → Option A
  get_data h iter = Dlist.get_data h iter

  unfoldable pub find : ℕ → Store A → SortedList A → ℕ → ℕ → A → Option ℕ
  find fuel h list from to key = scan (λ y. not (is_zero (list.sort_func y key))) fuel h from to

  unfoldable pub find_if {κ} : {B : Type κ} → ℕ → Store A → ℕ → ℕ → (A → B → ℤ) → B → Option ℕ
  find_if fuel h from to search_func key =
      scan (λ y. not (is_zero (search_func y key))) fuel h from to

  unfoldable pub for_each {κ} :
      {S : Type κ} → ℕ → Store A → ℕ → ℕ → (A → S → S × ℤ) → S → Option (S × ℤ)
  for_each zero h runner to action param = none
  for_each (suc fuel) h runner to action param = is_same_iter runner to >>= λ s.
      if s
      then some (param, pos 0)
      else (get_data h runner >>= λ x.
          (if is_zero (action x param).1
            then (next h runner >>= λ m. for_each fuel h m to action (action x param).0)
            else some (action x param)))

  -- The outer loop of `SortedListMerge`, one round of it for each element of `src`; `dest_runner` stays
  -- where it is from round to round.
  unfoldable pub merge_from : ℕ → ℕ → Store A → SortedList A → SortedList A → ℕ → Option (Store A)
  merge_from fuel zero h dest src dest_runner = none
  merge_from fuel (suc rounds) h dest src dest_runner = is_empty h src >>= λ e.
      if e
      then some h
      else (begin h src >>= λ b.
          (get_data h b >>= λ x.
          (scan (λ y. is_pos (dest.sort_func y x)) fuel h dest_runner (list_end dest) >>= λ runner.
          (next h b >>= λ behind.
          (Dlist.splice h runner b behind >>= λ r. merge_from fuel rounds r.0 dest src runner)))))

  unfoldable pub merge : ℕ → ℕ → Store A → SortedList A → SortedList A → Option (Store A)
  merge fuel rounds h dest src = begin h dest >>= λ b. merge_from fuel rounds h dest src b
