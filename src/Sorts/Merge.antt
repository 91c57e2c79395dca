-- ===== src/Sorts/Merge.antt =====
-- sorts.c, `MergeSort` and `MergeBySize`, on the part of the array that a call is given. `memory` says
-- whether `malloc` of so many elements succeeds.
pub mod Ordered
pub mod Permutes
use daher_repo.Prelude.{
  ℕ, zero, suc, ◌+◌, ◌-◌, ◌/◌, ◌%◌, Bool, Option, none, some, List, [], ◌∷◌, ◌++◌, if◌then◌else◌,
  ◌>>=◌, ℤ, ltb_ℤ, ◌==◌, get_elem?, length, take, drop,
}

-- the loops of `MergeBySize`: the two halves into the array of the swap
unfoldable pub merge_loop : List ℤ → List ℤ → List ℤ
merge_loop [] ys = ys
merge_loop (x ∷ xs) [] = x ∷ xs
merge_loop (x ∷ xs) (y ∷ ys) =
    let first = merge_loop xs (y ∷ ys) in
    let second = merge_loop (x ∷ xs) ys in if ltb_ℤ x y then x ∷ first else y ∷ second

-- `MergeBySize`: the whole part afterwards
unfoldable pub merge_by_size : (ℕ → Bool) → List ℤ → List ℤ → Option (List ℤ)
merge_by_size memory arr1 arr2 = get_elem? arr2 0 >>= λ y. get_elem? arr1 (length arr1 - 1) >>= λ x.
    if ltb_ℤ x y
    then some (arr1 ++ arr2)
    else if memory (length arr1 + length arr2)
    then some (merge_loop arr1 arr2)
    else some (arr1 ++ arr2)

-- `MergeSort`; it does not end for no elements.
unfoldable pub merge_sort : (ℕ → Bool) → ℕ → List ℤ → Option (List ℤ)
merge_sort memory zero arr = none
merge_sort memory (suc fuel) arr =
    if length arr == 1
    then some arr
    else (merge_sort memory fuel (take (length arr / 2) arr) >>= λ low.
        merge_sort memory fuel (drop (length arr / 2) arr) >>= λ high.
        merge_by_size memory low high)
