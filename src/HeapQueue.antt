-- ===== src/HeapQueue.antt =====
-- infinity/ds/pqueue/heap_PQ.c: the interface of pqueue.c on the heap of heap.c. The queue is the
-- vector of its heap; `cmp` is the comparison of the heap, and `none` as in Heap.
pub mod Greatest
mod Tests
use daher_repo.Prelude.{ℕ, zero, suc, Bool, Option, none, some, List, if◌then◌else◌, ◌>>=◌, ℤ}
use daher_repo.Vector.{Vector}
use daher_repo.Heap

module _ {ℓ} {A : Type ℓ} where
  -- `PQCreate`, on what the two `malloc` of the heap and the vector give
  unfoldable pub create : Bool → Option (List A) → Option (Vector A)
  create ok memory = Heap.heap_create ok memory

  unfoldable pub size : Vector A → ℕ
  size pqueue = Heap.heap_size pqueue

  unfoldable pub is_empty : Vector A → Bool
  is_empty pqueue = Heap.is_empty pqueue

module _ {ℓ} {A : Type ℓ} (cmp : A → A → ℤ) where
  unfoldable pub enqueue : (List A → ℕ → Option (List A)) → Vector A → A → Option (ℕ × Vector A)
  enqueue realloc pqueue data_in = Heap.push cmp realloc pqueue data_in

  unfoldable pub peek : Vector A → Option A
  peek pqueue = Heap.peek cmp pqueue

  unfoldable pub dequeue : Vector A → Option (Vector A × A)
  dequeue pqueue = Heap.peek cmp pqueue >>= λ x. (Heap.pop cmp pqueue >>= λ w. some (w, x))

  unfoldable pub clear : ℕ → Vector A → Option (Vector A)
  clear zero pqueue = none
  clear (suc fuel) pqueue =
      if is_empty pqueue then some pqueue else (dequeue pqueue >>= λ r. clear fuel r.0)

  unfoldable pub erase {κ} :
      {B : Type κ} → (A → B → ℤ) → Vector A → B → Option (Option A × Vector A)
  erase is_match pqueue data_to_compare = Heap.remove cmp is_match pqueue data_to_compare
