-- ===== src/Dlist/Tests.antt =====
-- dlist.c, run: a list of two elements in the cells 3 and 4, between dummies at 1 and 2.
use daher_repo.Prelude.{
  ℕ, ◌+◌, ◌≡◌, ◌≢◌, refl, Option, none, some, List, [], ◌∷◌, ◌==◌, if◌then◌else◌, arith, ◌⊎◌, ℤ,
  pos,
}
use daher_repo.Dlist.{Node, Store, Dlist, cell, insert, remove, size}
use daher_repo.Dlist.Segments.{Outside}
use daher_repo.Dlist.View.{IsDlist, full}
use daher_repo.Dlist.Changing.{IsMalloc, insert-IsDlist, remove-IsDlist}
use daher_repo.Dlist.Walking.{size-IsDlist}

abbrev pub list : Dlist
list = record { begin_dummy = 1; end_dummy = 2 }

module _ {ℓ} {A : Type ℓ} where
  abbrev pub pair_store : A → A → Store A
  pair_store x y a =
      if a == 1
      then some (cell none 3 0)
      else if a == 2
      then some (cell none 0 4)
      else if a == 3
      then some (cell (some x) 4 1)
      else if a == 4
      then some (cell (some y) 2 3)
      else none

  abbrev pub pair : A → A → List (ℕ × A)
  pair x y = (3, x) ∷ (4, y) ∷ []

  pub pair-IsDlist : (x y : A) → IsDlist (pair_store x y) list (pair x y)
  pair-IsDlist x y = record {
    chain = (refl, (refl, (refl, (refl, tt))));
    distinct = (
      omega arith,
      (omega arith, (omega arith, (omega arith, tt))),
      (
        omega arith,
        (omega arith, (omega arith, tt)),
        (omega arith, (omega arith, tt), (omega arith, tt, tt)),
      ),
    );
  }

  -- The block at 7, while it is free.
  abbrev pub block_7 : Option (Node A) → ℕ
  block_7 none = 7
  block_7 (some n) = 0

  abbrev pub one_block : Store A → ℕ
  one_block h = block_7 (h 7)

  pub one_block-IsMalloc : IsMalloc {A = A} one_block
  one_block-IsMalloc h ne = free_there (h 7) refl ne
    where
      free_there : (c : Option (Node A)) → h 7 ≡ c → block_7 c ≢ 0 → h (block_7 c) ≡ none
      free_there none e ne = e
      free_there (some n) e ne = absurd (ne refl)

abbrev numbers : Store ℕ
numbers = pair_store 10 20

abbrev ten_twenty : List (ℕ × ℕ)
ten_twenty = pair 10 20

abbrev add_up : ℕ → ℕ → ℕ × ℤ
add_up x s = (s + x, pos 0)

ten_twenty_size : size 3 numbers list ≡ some 2
unfolding size
ten_twenty_size = size-IsDlist 3 numbers list (pair 10 20) (pair-IsDlist 10 20) (omega arith)

insert-IsDlist_example :
    ((one_block numbers ≡ 0) × (insert one_block numbers list 4 15 ≡ some (numbers, 2)))
    ⊎ ((one_block numbers ≢ 0)
        × ((g : Store ℕ) × (insert one_block numbers list 4 15 ≡ some (g, one_block numbers))
            × IsDlist g list ((3, 10) ∷ (one_block numbers, 15) ∷ (4, 20) ∷ [])
            × ((a : ℕ)
                → a ≢ one_block numbers
                → Outside a (full list ten_twenty)
                → g a ≡ numbers a)))
insert-IsDlist_example =
    insert-IsDlist one_block one_block-IsMalloc numbers list ((3, 10) ∷ []) ((4, 20) ∷ []) 15
      (pair-IsDlist 10 20)

remove-IsDlist_example :
    (g : Store ℕ) × (remove numbers list 3 ≡ some (g, 4))
    × IsDlist g list ((4, 20) ∷ [])
    × (g 3 ≡ none)
    × ((a : ℕ) → Outside a (full list ten_twenty) → g a ≡ numbers a)
remove-IsDlist_example = remove-IsDlist numbers list [] ((4, 20) ∷ []) (3, 10) (pair-IsDlist 10 20)
