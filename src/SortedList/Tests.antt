-- ===== src/SortedList/Tests.antt =====
-- sorted_list.c, run: a list of 10 and 20 in ascending order.
use daher_repo.Prelude.{ℕ, ◌≡◌, ◌≢◌, refl, some, List, [], ◌∷◌, ◌⊎◌, arith, sub_ℕ}
use daher_repo.Dlist.{Store}
use daher_repo.Dlist.Segments.{Outside}
use daher_repo.Dlist.View.{IsDlist, full, data_of}
use daher_repo.Dlist.Tests.{list, pair, pair_store, pair-IsDlist, one_block, one_block-IsMalloc}
use daher_repo.SortedList.{SortedList, insert, list_end}
use daher_repo.SortedList.Order.{place, insert-place}

abbrev ascending : SortedList ℕ
ascending = record { list_of = list; sort_func = λ x d. sub_ℕ d x }

abbrev store : Store ℕ
store = pair_store 10 20

abbrev ten_twenty : List (ℕ × ℕ)
ten_twenty = pair 10 20

between : place ascending.sort_func 15 (data_of ten_twenty) ≡ 10 ∷ 15 ∷ 20 ∷ []
unfolding place sub_ℕ
between = refl

insert-place_example :
    ((one_block store ≡ 0)
      × (insert one_block 3 store ascending 15 ≡ some (store, list_end ascending)))
    ⊎ ((one_block store ≢ 0)
        × ((g : Store ℕ) × (ys : List (ℕ × ℕ)) × (insert one_block 3 store ascending 15
              ≡ some (g, one_block store))
            × IsDlist g list ys
            × (data_of ys ≡ place ascending.sort_func 15 (data_of ten_twenty))
            × (one_block store ≢ list_end ascending)
            × ((a : ℕ) → a ≢ one_block store → Outside a (full list ten_twenty) → g a ≡ store a)))
insert-place_example =
    insert-place one_block one_block-IsMalloc 3 store ascending ten_twenty 15 (pair-IsDlist 10 20)
      (omega arith)
