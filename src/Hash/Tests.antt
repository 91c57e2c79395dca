-- ===== src/Hash/Tests.antt =====
-- hash.c, run: a table of two buckets, for the even and the odd numbers, with 10 and 20 in the first.
use daher_repo.Prelude.{
  ℕ, zero, suc, ◌%◌, ◌<◌, ◌≡◌, ◌≢◌, refl, none, some, List, [], ◌∷◌, ◌==◌, if◌then◌else◌, arith,
  ◌⊎◌, ℤ, pos, get_elem?,
}
use daher_repo.Dlist.{Store, Dlist, cell}
use daher_repo.Dlist.View.{IsDlist, full, data_of}
use daher_repo.Dlist.Matching.{without_match, put_in}
use daher_repo.Dlist.Tests.{list, pair, pair_store, one_block, one_block-IsMalloc}
use daher_repo.Hash.{HashTable, find, insert, remove}
use daher_repo.Hash.Rows.{IsTable, Apart, with_row}
use daher_repo.Hash.Inserting.{insert-IsTable, find-insert}
use daher_repo.Hash.Removing.{remove-IsTable}

abbrev odd_list : Dlist
odd_list = record { begin_dummy = 11; end_dummy = 12 }

abbrev store : Store ℕ
store a =
    if a == 11
    then some (cell none 12 0)
    else if a == 12
    then some (cell none 0 11)
    else pair_store 10 20 a

abbrev same : ℕ → ℕ → ℤ
same x y = if x == y then pos 1 else pos 0

abbrev table : HashTable ℕ
table = record {
  hash_func = λ x. x % 2;
  match_func = same;
  capacity = 2;
  hash_arr = list ∷ odd_list ∷ [];
}

abbrev bucket : ℕ → Dlist
bucket zero = list
bucket (suc i) = odd_list

abbrev ten_twenty : List (ℕ × ℕ)
ten_twenty = pair 10 20

abbrev rows : ℕ → List (ℕ × ℕ)
rows zero = ten_twenty
rows (suc i) = []

table-IsTable : IsTable table bucket store rows
table-IsTable = record { there = there_at; holds = holds_at; apart = apart_at }
  where
    there_at : (i : ℕ) → i < 2 → get_elem? (list ∷ odd_list ∷ []) i ≡ some (bucket i)
    there_at zero p = refl
    there_at (suc zero) p = refl
    there_at (suc (suc i)) p = absurd (omega arith)

    holds_at : (i : ℕ) → i < 2 → IsDlist store (bucket i) (rows i)
    holds_at zero p = record {
      chain = (refl, (refl, (refl, (refl, tt))));
      distinct = (
        omega arith,
        (omega arith, (omega arith, (omega arith, tt))),
        (
          omega arith,
          (omega arith, (omega arith, tt)),
          (omega arith, (omega arith, tt), (omega arith, tt, tt)),
        ),
      );
    }
    holds_at (suc i) p = record {
      chain = (refl, (refl, tt));
      distinct = (omega arith, (omega arith, tt), (omega arith, tt, tt));
    }

    apart_at :
        (i j : ℕ)
        → i < 2
        → j < 2
        → i ≢ j
        → Apart (full (bucket i) (rows i)) (full (bucket j) (rows j))
    apart_at zero zero p q ne = absurd (ne refl)
    apart_at zero (suc j) p q ne = (
      (omega arith, (omega arith, tt)),
      (
        (omega arith, (omega arith, tt)),
        ((omega arith, (omega arith, tt)), ((omega arith, (omega arith, tt)), tt)),
      ),
    )
    apart_at (suc i) zero p q ne = (
      (omega arith, (omega arith, (omega arith, (omega arith, tt)))),
      ((omega arith, (omega arith, (omega arith, (omega arith, tt)))), tt),
    )
    apart_at (suc zero) (suc zero) p q ne = absurd (ne refl)
    apart_at (suc (suc i)) (suc j) p q ne = absurd (omega arith)
    apart_at (suc zero) (suc (suc j)) p q ne = absurd (omega arith)

insert-IsTable_example :
    ((one_block store ≡ 0) × (insert one_block 3 store table 30 ≡ some (store, 0)))
    ⊎ ((g : Store ℕ) × (ys : List (ℕ × ℕ)) × (insert one_block 3 store table 30 ≡ some (g, 1))
        × IsTable table bucket g (with_row table bucket rows 0 ys)
        × (data_of ys ≡ put_in same 30 30 (data_of ten_twenty)))
insert-IsTable_example =
    insert-IsTable table bucket 3 30 one_block one_block-IsMalloc store rows (omega arith)
      table-IsTable (omega arith)

remove-IsTable_example :
    (g : Store ℕ) × (ys : List (ℕ × ℕ)) × (remove 3 store table 10 ≡ some g)
    × IsTable table bucket g (with_row table bucket rows 0 ys)
    × (data_of ys ≡ without_match same 10 (data_of ten_twenty))
remove-IsTable_example =
    remove-IsTable table bucket 3 10 store rows (omega arith) table-IsTable (omega arith)

find-insert_example :
    ((one_block store ≡ 0) × (insert one_block 4 store table 30 ≡ some (store, 0)))
    ⊎ ((g : Store ℕ) × (insert one_block 4 store table 30 ≡ some (g, 1))
        × (find 4 g table 30 ≡ some (some 30)))
find-insert_example =
    find-insert table bucket 4 30 one_block one_block-IsMalloc store rows (omega arith)
      table-IsTable (omega arith) refl
