-- ===== src/Heap.antt =====
-- infinity/ds/heap/heap.c: a heap in the dynamic vector. `cmp` is the comparison of the heap,
-- `realloc` the parameter of the vector, and `none` a failed assert or an access outside of the
-- array. Indices stay below the size of a vector, so their sums do not wrap. Fuel bounds the loops;
-- `none` is also its end.
pub mod Swaps
pub mod Breaking
pub mod Order
pub mod Sifting
pub mod Ordering
pub mod Priority
pub mod Removing
mod Tests
use daher_repo.Prelude.{
  ℕ, zero, suc, ◌+◌, ◌-◌, ◌*◌, ◌/◌, Bool, not, ◌&&◌, Option, none, some, List, ltb, leb, ◌==◌,
  if◌then◌else◌, ◌>>=◌, ℤ, is_pos, is_neg, is_zero,
}
use daher_repo.Vector.{create, Vector, get_element, set_element, pop_back, push_back, size}

-- `GetParent`
unfoldable pub get_parent : ℕ → ℕ
get_parent index = if index == 0 then 0 else (index - 1) / 2

module _ {ℓ} {A : Type ℓ} where
  -- `HeapCreate`, on what the two `malloc` of the vector give
  unfoldable pub heap_create : Bool → Option (List A) → Option (Vector A)
  heap_create ok memory = if ok then create memory 7 else none

  -- `SwapByIndex`
  unfoldable pub swap_by_index : Vector A → ℕ → ℕ → Option (Vector A)
  swap_by_index v index big_child = get_element v (index + 1) >>= λ container.
      get_element v (big_child + 1) >>= λ container2.
      set_element v container2 (index + 1) >>= λ w. set_element w container (big_child + 1)

module _ {ℓ} {A : Type ℓ} (cmp : A → A → ℤ) where
  -- `GetBigChild`
  unfoldable pub get_big_child : Vector A → ℕ → ℕ → Option ℕ
  get_big_child v child1 child2 =
      if leb (size v) child2
      then (if leb (size v) child1 then some ((child1 - 1) / 2) else some child1)
      else (get_element v (child1 + 1) >>= λ a.
          get_element v (child2 + 1) >>= λ b. some (if is_pos (cmp a b) then child1 else child2))

  -- `HeapIfyUp`
  unfoldable pub heapify_up : ℕ → Vector A → ℕ → A → Option (Vector A)
  heapify_up zero v index data_in = none
  heapify_up (suc fuel) v index data_in =
      if index == 0
      then some v
      else (get_element v (get_parent index + 1) >>= λ above.
          if is_neg (cmp above data_in)
          then (swap_by_index v (get_parent index) index >>= λ w.
              heapify_up fuel w (get_parent index) data_in)
          else some v)

  -- `HeapIfyDown`
  unfoldable pub heapify_down : ℕ → Vector A → ℕ → A → Option (Vector A)
  heapify_down zero v index data_in = none
  heapify_down (suc fuel) v index data_in =
      get_big_child v (2 * index + 1) (2 * index + 2) >>= λ big_child.
      if ltb (index + 1) (size v)
      then (get_element v (big_child + 1) >>= λ below.
          if is_pos (cmp below data_in)
          then (swap_by_index v index big_child >>= λ w. heapify_down fuel w big_child data_in)
          else some v)
      else some v

  -- `HeapPop`
  unfoldable pub pop : Vector A → Option (Vector A)
  pop v = get_element v (size v) >>= λ last_element.
      set_element v last_element 1 >>= λ w. heapify_down (suc (size v)) (pop_back w) 0 last_element

  -- `HeapPush`: the status of the vector, or 0
  unfoldable pub push : (List A → ℕ → Option (List A)) → Vector A → A → Option (ℕ × Vector A)
  push realloc v data_in = push_back realloc v data_in >>= λ p.
      if p.0 == 0
      then (heapify_up (size p.1) p.1 (size p.1 - 1) data_in >>= λ w. some (0, w))
      else some p

  -- `HeapPeek`
  unfoldable pub peek : Vector A → Option A
  peek v = get_element v 1

-- `HeapIsEmpty` and `HeapSize`
module _ {ℓ} {A : Type ℓ} where
  unfoldable pub is_empty : Vector A → Bool
  is_empty v = 0 == size v

  unfoldable pub heap_size : Vector A → ℕ
  heap_size v = size v

module _ {ℓ κ} {A : Type ℓ} {B : Type κ} (cmp : A → A → ℤ) (match_func : A → B → ℤ) where
  -- the loop of `HeapRemove`, from the runner on: where it ends, and the data there
  unfoldable pub search_from : ℕ → Vector A → ℕ → B → Option (ℕ × A)
  search_from zero v runner data_in = none
  search_from (suc fuel) v runner data_in = get_element v (runner + 1) >>= λ data_of_runner.
      if ltb (runner + 1) (size v) && not (is_zero (match_func data_of_runner data_in))
      then search_from fuel v (runner + 1) data_in
      else some (runner + 1, data_of_runner)

  -- `HeapRemove`: the removed data, or `none` for `NULL`
  unfoldable pub remove : Vector A → B → Option (Option A × Vector A)
  remove v data_in = search_from (suc (size v)) v 0 data_in >>= λ found.
      if found.0 == size v
      then some (none, v)
      else (get_element v (size v) >>= λ last_element. set_element v last_element found.0 >>= λ w.
          heapify_down cmp (suc (size v)) (pop_back w) (found.0 - 1) last_element >>= λ u.
          some (some found.1, u))
