-- ===== src/Sorts/Tests.antt =====
-- sorts.c, run on three numbers.
use mathlib.Core.List.{Perm}
use daher_repo.Prelude.{ℕ, Bool, true, ◌≡◌, refl, some, List, [], ◌∷◌, arith, ℤ, pos, negsuc, ltb_ℤ}
use daher_repo.Sorts.{
  bubble_sort, bubble_sort_from, bubble_pass, order_neighbours, swap_int, selection_sort,
  selection_sort_from, find_minimum, insertion_sort, insertion_sort_from, sift_back,
}
use daher_repo.Sorts.Merge.{merge_sort, merge_by_size, merge_loop}
use daher_repo.Sorts.Merge.Ordered.{merge_sort-IsAscending}
use daher_repo.Sorts.Ascending.{IsAscending}

abbrev three : List ℤ
three = pos 4 ∷ negsuc 1 ∷ pos 3 ∷ []

abbrev sorted : List ℤ
sorted = negsuc 1 ∷ pos 3 ∷ pos 4 ∷ []

bubbled : bubble_sort 3 three ≡ some sorted
unfolding bubble_sort bubble_sort_from bubble_pass order_neighbours swap_int ltb_ℤ
bubbled = refl

selected : selection_sort 3 three ≡ some sorted
unfolding selection_sort selection_sort_from find_minimum swap_int ltb_ℤ
selected = refl

inserted : insertion_sort 4 three ≡ some sorted
unfolding insertion_sort insertion_sort_from sift_back swap_int ltb_ℤ
inserted = refl

abbrev always : ℕ → Bool
always n = true

merged : merge_sort always 3 three ≡ some sorted
unfolding merge_sort merge_by_size merge_loop ltb_ℤ
merged = refl

merge_sort-IsAscending_example :
    (ys : List ℤ) × (merge_sort always 3 three ≡ some ys) × IsAscending ys × Perm ys three
merge_sort-IsAscending_example =
    merge_sort-IsAscending always 3 three (λ n. refl) (omega arith) (omega arith)
