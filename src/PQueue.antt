-- ===== src/PQueue.antt =====
-- infinity/ds/pqueue/pqueue.c: a priority queue on the sorted list of sorted_list.c.
pub mod Laws
pub mod Tests
use daher_repo.Prelude.{
  ℕ, zero, suc, Bool, true, false, not, Option, none, some, if◌then◌else◌, ◌>>=◌, ℤ, pos, is_zero,
}
use daher_repo.Dlist.{Store, is_same_iter}
use daher_repo.SortedList.{SortedList}
use daher_repo.SortedList

-- `struct pqueue`
pub record PQueue {ℓ} (A : Type ℓ) : Type ℓ where
  pub queue : SortedList A

module _ {ℓ} {A : Type ℓ} where
  -- `PQCreate`, once its own `malloc` has succeeded
  unfoldable pub create : (A → A → ℤ) → Store A → ℕ → ℕ → Store A × Option (PQueue A)
  create compare_func h b e =
      let made = SortedList.create compare_func h b e in
      (made.0, elim made.1 [ none ↦ none | some list ↦ some (record { queue = list }) ])

  unfoldable pub size : ℕ → Store A → PQueue A → Option ℕ
  size fuel h pqueue = SortedList.size fuel h pqueue.queue

  unfoldable pub is_empty : Store A → PQueue A → Option Bool
  is_empty h pqueue = SortedList.is_empty h pqueue.queue

  -- `PQEnpqueue`; its result is true where the insertion failed
  unfoldable pub enqueue : (Store A → ℕ) → ℕ → Store A → PQueue A → A → Option (Store A × Bool)
  enqueue malloc fuel h pqueue x = SortedList.insert malloc fuel h pqueue.queue x >>= λ r.
      (is_same_iter (SortedList.list_end pqueue.queue) r.1 >>= λ failed. some (r.0, failed))

  unfoldable pub peek : Store A → PQueue A → Option A
  peek h pqueue = SortedList.begin h pqueue.queue >>= λ b. SortedList.get_data h b

  unfoldable pub dequeue : Store A → PQueue A → Option (Store A × A)
  dequeue h pqueue =
      peek h pqueue >>= λ x. (SortedList.pop_front h pqueue.queue >>= λ g. some (g, x))

  unfoldable pub clear : ℕ → Store A → PQueue A → Option (Store A)
  clear zero h pqueue = none
  clear (suc fuel) h pqueue = is_empty h pqueue >>= λ e.
      if e then some h else (dequeue h pqueue >>= λ r. clear fuel r.0 pqueue)

  -- `WrapIsMatch`: zero where the user's function says that it is a match
  unfoldable pub wrap_is_match {κ} : {B : Type κ} → (A → B → ℤ) → A → B → ℤ
  wrap_is_match is_match x key = if is_zero (is_match x key) then pos 1 else pos 0

  -- `PQErase`; `none` inside the result is the NULL of no match
  unfoldable pub erase {κ} :
      {B : Type κ} → ℕ → Store A → PQueue A → (A → B → ℤ) → B → Option (Store A × Option A)
  erase fuel h pqueue is_match key = SortedList.begin h pqueue.queue >>= λ b.
      (SortedList.find_if fuel h b (SortedList.list_end pqueue.queue) (wrap_is_match is_match) key
        >>= λ remove_iter.
            (is_same_iter (SortedList.list_end pqueue.queue) remove_iter >>= λ absent.
            (if absent
              then some (h, none)
              else (SortedList.get_data h remove_iter >>= λ x.
                  (SortedList.remove h pqueue.queue remove_iter >>= λ r. some (r.0, some x))))))
