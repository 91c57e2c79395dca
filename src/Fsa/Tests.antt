-- ===== src/Fsa/Tests.antt =====
-- fsa.c, run: an allocator on 64 bytes whose blocks are of one word.
use daher_repo.Prelude.{ℕ, ◌≡◌, ◌-◌, ◌/◌, ◌^◌, refl, List, [], ◌∷◌, some, none, arith, replicate}
use daher_repo.Fsa.{Fsa, init, alloc, free, calculate_block_size, suggest_size}
use daher_repo.Fsa.FreeList.{IsFree, blocks, init_lem, alloc-free}

abbrev memory : List ℕ
memory = replicate 8 7

abbrev two_free : Fsa
two_free = record {
  block_size = 8;
  num_of_free_blocks = 2;
  next_free = 24;
  words = 7 ∷ 7 ∷ 7 ∷ 40 ∷ 9 ∷ 0 ∷ 9 ∷ 9 ∷ [];
}

two_free-IsFree : IsFree two_free (24 ∷ 40 ∷ [])
two_free-IsFree = record {
  chain = (refl, refl, 40, refl, (refl, refl, 0, refl, refl));
  counted = refl;
}

round_up : calculate_block_size 13 ≡ 16
unfolding calculate_block_size
round_up = refl

suggested : suggest_size 13 4 ≡ some 88
unfolding suggest_size calculate_block_size
suggested = refl

too_small : init memory 31 5 ≡ some none
unfolding init suggest_size calculate_block_size
too_small = refl

-- the block size rounds up to 0
divides_by_zero : init memory 64 (2 ^ 64 - 1) ≡ none
unfolding init suggest_size calculate_block_size
divides_by_zero = refl

init_lem_example :
    (a : Fsa) × (init memory 64 5 ≡ some (some a))
    × IsFree a (blocks (calculate_block_size 5) 24 ((64 - 24) / calculate_block_size 5))
    × (a.block_size ≡ calculate_block_size 5)
unfolding calculate_block_size
init_lem_example =
    init_lem memory 64 5 (omega arith) (omega arith) (omega arith) (omega arith) (omega arith)

alloc-free_example :
    (a1 a2 : Fsa) × (alloc two_free ≡ some (some 24, a1))
    × (free a1 24 ≡ some a2)
    × IsFree a2 (24 ∷ 40 ∷ [])
alloc-free_example = alloc-free two_free 24 (40 ∷ []) two_free-IsFree ((λ e. omega (arith, e)), tt)
