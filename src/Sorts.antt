-- ===== src/Sorts.antt =====
-- infinity/ds/utils/sorts/sorts.c: the sorts that swap, on arrays of `int`, and a search. Fuel
-- bounds the loops; `none` is its end or an access outside of the array.
pub mod Ascending
pub mod Elements
pub mod Merge
mod Tests
use daher_repo.Prelude.{
  ℕ, zero, suc, ◌+◌, ◌-◌, Option, none, some, List, ltb, if◌then◌else◌, ◌>>=◌, sub_word, ℤ, ltb_ℤ,
  get_elem?, store, length, ◌/◌, ◌%◌, ◌==◌, is_zero, is_pos,
}

-- `SwapInt` of two places of an array
unfoldable pub swap_int : List ℤ → ℕ → ℕ → Option (List ℤ)
swap_int arr first second = get_elem? arr first >>= λ tmp.
    get_elem? arr second >>= λ other. store arr first other >>= λ w. store w second tmp

-- one round of the inner loop of `BubbleSort`
unfoldable pub order_neighbours : List ℤ → ℕ → Option (List ℤ)
order_neighbours arr sort_index = get_elem? arr sort_index >>= λ a.
    get_elem? arr (sort_index + 1) >>= λ b.
    if ltb_ℤ b a then swap_int arr sort_index (sort_index + 1) else some arr

-- the inner loop of `BubbleSort`
unfoldable pub bubble_pass : ℕ → List ℤ → ℕ → ℕ → Option (List ℤ)
bubble_pass zero arr runner sort_index = none
bubble_pass (suc fuel) arr runner sort_index =
    if ltb sort_index (sub_word (sub_word (length arr) runner) 1)
    then (order_neighbours arr sort_index >>= λ ws. bubble_pass fuel ws runner (sort_index + 1))
    else some arr

-- `BubbleSort`, from the runner on
unfoldable pub bubble_sort_from : ℕ → List ℤ → ℕ → Option (List ℤ)
bubble_sort_from zero arr runner = none
bubble_sort_from (suc fuel) arr runner =
    if ltb runner (sub_word (length arr) 1)
    then (bubble_pass (suc (length arr)) arr runner 0 >>= λ ws.
        bubble_sort_from fuel ws (runner + 1))
    else some arr

unfoldable pub bubble_sort : ℕ → List ℤ → Option (List ℤ)
bubble_sort fuel arr = bubble_sort_from fuel arr 0

-- the inner loop of `SelectionSort`: the index of the minimum
unfoldable pub find_minimum : ℕ → List ℤ → ℕ → ℕ → Option ℕ
find_minimum zero arr runner min_index = none
find_minimum (suc fuel) arr runner min_index =
    if ltb runner (length arr)
    then (get_elem? arr runner >>= λ a. get_elem? arr min_index >>= λ b.
        find_minimum fuel arr (runner + 1) (if ltb_ℤ a b then runner else min_index))
    else some min_index

-- `SelectionSort`, from the index on
unfoldable pub selection_sort_from : ℕ → List ℤ → ℕ → Option (List ℤ)
selection_sort_from zero arr sort_index = none
selection_sort_from (suc fuel) arr sort_index =
    if ltb sort_index (sub_word (length arr) 1)
    then (find_minimum (suc (length arr)) arr sort_index sort_index >>= λ min_index.
        swap_int arr sort_index min_index >>= λ ws. selection_sort_from fuel ws (sort_index + 1))
    else some arr

unfoldable pub selection_sort : ℕ → List ℤ → Option (List ℤ)
selection_sort fuel arr = selection_sort_from fuel arr 0

-- the inner loop of `InsertionSort`
unfoldable pub sift_back : List ℤ → ℕ → Option (List ℤ)
sift_back arr zero = some arr
sift_back arr (suc before) = get_elem? arr before >>= λ a. get_elem? arr (suc before) >>= λ b.
    if ltb_ℤ b a then (swap_int arr (suc before) before >>= λ ws. sift_back ws before) else some arr

-- `InsertionSort`, from the runner on
unfoldable pub insertion_sort_from : ℕ → List ℤ → ℕ → Option (List ℤ)
insertion_sort_from zero arr runner = none
insertion_sort_from (suc fuel) arr runner =
    if ltb runner (length arr)
    then (sift_back arr runner >>= λ ws. insertion_sort_from fuel ws (runner + 1))
    else some arr

unfoldable pub insertion_sort : ℕ → List ℤ → Option (List ℤ)
insertion_sort fuel arr = insertion_sort_from fuel arr 1

-- `BinarySearchRecursive`: the index of the match, or `none` for `NULL`. The part of the array starts
-- at `first`; a half of its bytes, rounded down to whole elements, is a half of its elements.
module _ {ℓ κ} {A : Type ℓ} {B : Type κ} (cmp_func : A → B → ℤ) where
  unfoldable pub binary_search_recursive : ℕ → List A → ℕ → ℕ → B → Option (Option ℕ)
  binary_search_recursive zero arr first num_of_elements key = none
  binary_search_recursive (suc fuel) arr first num_of_elements key =
      let mid = first + num_of_elements / 2 in
      let rest = num_of_elements / 2 + num_of_elements % 2 in
      get_elem? arr mid >>= λ x.
      if is_zero (cmp_func x key)
      then some (some mid)
      else if num_of_elements == 1
      then some none
      else if is_pos (cmp_func x key)
      then binary_search_recursive fuel arr first rest key
      else binary_search_recursive fuel arr mid rest key
