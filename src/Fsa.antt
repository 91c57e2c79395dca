-- ===== src/Fsa.antt =====
-- infinity/system_programming/fsa/fsa.c: the fixed size allocator. `words` is the managed memory as
-- words of 8 bytes, of which the struct takes the first three; its fields stand beside them. A block
-- is named by its distance in bytes from the allocator. Sums, differences and products of sizes wrap
-- around at 2 ^ 64, as `size_t` does; the counter of free blocks stays below, since the blocks lie in
-- the memory. `none` is a failed assert, an access outside of the memory or a division by zero.
pub mod FreeList
mod Tests
use daher_repo.Prelude.{
  ℕ, zero, suc, ◌+◌, ◌-◌, ◌*◌, ◌/◌, ◌%◌, Option, none, some, List, ltb, ◌==◌, not, if◌then◌else◌,
  ◌>>=◌, ◌>>◌, guard, add_word, sub_word, mul_word, get_elem?, store,
}

-- `struct fixed_size_allocator`
pub record Fsa : Type 0 where
  pub block_size : ℕ
  pub num_of_free_blocks : ℕ
  pub next_free : ℕ
  pub words : List ℕ

-- `SIZE_OF_WORD` and `sizeof(FSA_t)`
abbrev pub size_of_word : ℕ
size_of_word = 8

abbrev pub size_of_fsa : ℕ
size_of_fsa = 24

-- `CALCULATE_BLOCK_SIZE`
unfoldable pub calculate_block_size : ℕ → ℕ
calculate_block_size block_size =
    sub_word
      (add_word block_size
        (mul_word size_of_word (if block_size % size_of_word == 0 then 0 else 1)))
      (block_size % size_of_word)

-- `FSASuggestSize`
unfoldable pub suggest_size : ℕ → ℕ → Option ℕ
suggest_size block_size num_of_blocks =
    guard (ltb 0 block_size)
    >> (guard (ltb 0 num_of_blocks)
        >> some (add_word size_of_fsa (mul_word (calculate_block_size block_size) num_of_blocks)))

-- `CreatFreeList`, on the number of blocks left, the offset, the index of the running word and the
-- memory. Its loop ends at one block; with none it would leave the memory.
unfoldable pub create_free_list : ℕ → ℕ → ℕ → ℕ → List ℕ → Option (List ℕ)
create_free_list block_size zero offset runner words = none
create_free_list block_size (suc zero) offset runner words = store words runner 0
create_free_list block_size (suc (suc n)) offset runner words =
    store words runner (add_word offset block_size) >>= λ ws.
    create_free_list block_size (suc n) (add_word offset block_size)
      (runner + block_size / size_of_word) ws

-- `FSAInit`: the inner `none` is its `NULL`.
unfoldable pub init : List ℕ → ℕ → ℕ → Option (Option Fsa)
init words memory_size block_size = suggest_size block_size 1 >>= λ least.
    if ltb memory_size least
    then some none
    else (let size = calculate_block_size block_size in
        let num = sub_word memory_size size_of_fsa / size in
        guard (not (size == 0))
        >> (create_free_list size num size_of_fsa 3 words >>= λ ws. some (
            some (record {
              block_size = size;
              num_of_free_blocks = num;
              next_free = size_of_fsa;
              words = ws;
            }))))

-- `FSAAlloc`: the block, or `none` for `NULL`, and the allocator afterwards.
unfoldable pub alloc : Fsa → Option (Option ℕ × Fsa)
alloc a =
    if ltb 0 a.num_of_free_blocks
    then (get_elem? a.words (a.next_free / size_of_word) >>= λ next. some (
      some (a.next_free / size_of_word * size_of_word),
      record a { next_free = next; num_of_free_blocks = a.num_of_free_blocks - 1 },
    ))
    else some (none, a)

-- `FSAFree`
unfoldable pub free : Fsa → ℕ → Option Fsa
free a block = store a.words (block / size_of_word) a.next_free >>= λ ws.
    some (record a { words = ws; next_free = block; num_of_free_blocks = a.num_of_free_blocks + 1 })

-- `FSACountFree`
unfoldable pub count_free : Fsa → ℕ
count_free a = a.num_of_free_blocks
