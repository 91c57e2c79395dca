-- ===== src/Fsa/FreeList.antt =====
-- fsa.c: the chain of free blocks through the memory, as a stack of blocks.
use mathlib.Core.Path.{subst}
use native.Mathlib.Nat.{mul_assoc, div-eq-sub-div, div-mul-le_self}
use daher_repo.Prelude.{
  ℕ, zero, suc, ◌+◌, ◌-◌, ◌*◌, ◌/◌, ◌%◌, ◌≤◌, ◌<◌, ◌≡◌, ◌≢◌, refl, sym, ap, ◌∙◌, none, some, List,
  [], ◌∷◌, arith, length, length-set, set, get_elem?, get_elem?-set_self, get_elem?-set_ne,
  store-set, All, add_word, mul_word, sub_word, mod_below, true, not, ◌==◌, ◌^◌, lt→ltb, ge→ltb,
}
use daher_repo.Fsa.{Fsa, calculate_block_size, suggest_size, create_free_list, init, alloc, free}

-- The word at each block holds the next block, and the last 0.
abbrev pub Chain : List ℕ → ℕ → List ℕ → Type 0
Chain words next [] = next ≡ 0
Chain words next (block ∷ rest) =
    (next ≡ block)
    × (block % 8 ≡ 0)
    × (after : ℕ) × (get_elem? words (block / 8) ≡ some after)
    × Chain words after rest

-- `n` blocks from `off` on
abbrev pub blocks : ℕ → ℕ → ℕ → List ℕ
blocks size off zero = []
blocks size off (suc n) = off ∷ blocks size (off + size) n

-- The free blocks of an allocator are those of the list, the first one next.
pub record IsFree (a : Fsa) (free_blocks : List ℕ) : Type 0 where
  pub chain : Chain a.words a.next_free free_blocks
  pub counted : a.num_of_free_blocks ≡ length free_blocks

-- A write at a word that no block of the chain starts at leaves the chain.
Chain-set :
    (words : List ℕ) (next : ℕ) (bs : List ℕ) (i v : ℕ)
    → All (λ b. i ≢ b / 8) bs
    → Chain words next bs
    → Chain (set words i v) next bs
Chain-set words next [] i v a c = c
Chain-set words next (b ∷ bs) i v a c =
    let (e, aligned, after, reads, rest) = c in
    (e, aligned, after, get_elem?-set_ne words v a.0 ∙ reads, Chain-set words after bs i v a.1 rest)

calculate_block_size_lem :
    (b : ℕ)
    → 0 < b
    → b ≤ 2 ^ 64 - 8
    → (calculate_block_size b % 8 ≡ 0)
      × (b ≤ calculate_block_size b)
      × (calculate_block_size b < b + 8)
unfolding calculate_block_size
calculate_block_size_lem b h k = ground arith

read_inside : (ws : List ℕ) (i : ℕ) {v : ℕ} → get_elem? ws i ≡ some v → i < length ws
read_inside [] i h = cc
read_inside (w ∷ ws) zero h = omega arith
read_inside (w ∷ ws) (suc i) h = omega (arith, read_inside ws i h)

word_start : (b : ℕ) → b % 8 ≡ 0 → b / 8 * 8 ≡ b
word_start b h = omega (arith, h)

other_words :
    (words : List ℕ) (next b : ℕ) (bs : List ℕ)
    → b % 8 ≡ 0
    → Chain words next bs
    → All (λ c. b ≢ c) bs
    → All (λ c. b / 8 ≢ c / 8) bs
other_words words next b [] h c new = tt
other_words words next b (d ∷ bs) h c new =
    let (e, aligned, after, reads, rest) = c in
    (
      (λ same. new.0 (sym (word_start b h) ∙ ap (λ q. q * 8) same ∙ word_start d aligned)),
      other_words words after b bs h rest new.1,
    )

length-blocks : (size off n : ℕ) → length (blocks size off n) ≡ n
length-blocks size off zero = refl
length-blocks size off (suc n) = ap suc (length-blocks size (off + size) n)

-- what `FSAAlloc` must return on an allocator with these free blocks
abbrev pub Allocates : Fsa → List ℕ → Type 0
Allocates a [] = alloc a ≡ some (none, a)
Allocates a (b ∷ bs) =
    (a' : Fsa) × (alloc a ≡ some (some b, a')) × IsFree a' bs × (a'.words ≡ a.words)

-- `FSAAlloc` takes the next free block, and returns null when there is none.
pub alloc_lem : (a : Fsa) (bs : List ℕ) → IsFree a bs → Allocates a bs
unfolding alloc
alloc_lem a [] f = rw (ge→ltb 0 a.num_of_free_blocks (omega (arith, f.counted)))
alloc_lem a (b ∷ bs) f =
    let (e, aligned, after, reads, rest) = f.chain in
    (
      record a { next_free = after; num_of_free_blocks = a.num_of_free_blocks - 1 },
      rw (lt→ltb 0 a.num_of_free_blocks (omega (arith, f.counted)), e, reads, word_start b aligned),
      record { chain = rest; counted = omega (arith, f.counted) },
      refl,
    )

-- `FSAFree` of a block that is not free puts it first.
pub free_lem :
    (a : Fsa) (bs : List ℕ) (b : ℕ)
    → IsFree a bs
    → b % 8 ≡ 0
    → b / 8 < length a.words
    → All (λ c. b ≢ c) bs
    → (a' : Fsa) × (free a b ≡ some a') × IsFree a' (b ∷ bs)
unfolding free
free_lem a bs b f aligned inside new = (
  record a {
    words = set a.words (b / 8) a.next_free;
    next_free = b;
    num_of_free_blocks = a.num_of_free_blocks + 1;
  },
  rw (store-set a.words (b / 8) a.next_free inside),
  record {
    chain = (
      refl,
      aligned,
      a.next_free,
      get_elem?-set_self a.words (b / 8) a.next_free inside,
      Chain-set a.words a.next_free bs (b / 8) a.next_free
          (other_words a.words a.next_free b bs aligned f.chain new) f.chain,
    );
    counted = omega (arith, f.counted);
  },
)

-- What `CreatFreeList` makes of the memory: a chain of the blocks, nothing touched below.
record Lists (size n off runner : ℕ) (words ws : List ℕ) : Type 0 where
  made : create_free_list size n off runner words ≡ some ws
  chain : Chain ws off (blocks size off n)
  below : (i : ℕ) → i < runner → get_elem? ws i ≡ get_elem? words i
  same_length : length ws ≡ length words

size_words : (size : ℕ) → size % 8 ≡ 0 → 0 < size → 1 ≤ size / 8
size_words size al pos = omega (arith, al)

room_suc : (r n k l : ℕ) → 1 ≤ k → r + suc n * k ≤ l → r < l
room_suc r n k l h room = grind (arith, room)

room_next : (r n k l : ℕ) → r + suc (suc n) * k ≤ l → r + k ≤ l
room_next r n k l room = grind (arith, room)

create_free_list-next :
    (size n off runner : ℕ) (words ws : List ℕ)
    → add_word off size ≡ off + size
    → runner < length words
    → create_free_list size (suc n) (off + size) (runner + size / 8) (set words runner (off + size))
      ≡ some ws
    → create_free_list size (suc (suc n)) off runner words ≡ some ws
unfolding create_free_list
create_free_list-next size n off runner words ws no_wrap inside rest =
    rw (no_wrap, store-set words runner (off + size) inside) rest

create_free_list_lem :
    (size n off runner top : ℕ) (words : List ℕ)
    → size % 8 ≡ 0
    → off ≡ runner * 8
    → 0 < size
    → runner + suc n * (size / 8) ≤ top
    → top * 8 < 2 ^ 64
    → top ≤ length words
    → (ws : List ℕ) × Lists size (suc n) off runner words ws
unfolding create_free_list
create_free_list_lem size zero off runner top words al at pos room bound fits =
    let below_top = room_suc runner 0 (size / 8) top (size_words size al pos) room in
    let inside : runner < length words = omega (arith, below_top, fits) in
    (
      set words runner 0,
      record {
        made = store-set words runner 0 inside;
        chain = (
          refl,
          omega (arith, at),
          0,
          ap (λ q. get_elem? (set words runner 0) q) (omega (arith, at))
              ∙ get_elem?-set_self words runner 0 inside,
          refl,
        );
        below = λ i h. get_elem?-set_ne words 0 (λ e. omega (arith, e, h));
        same_length = length-set words runner 0;
      },
    )
create_free_list_lem size (suc n) off runner top words al at pos room bound fits =
    let below_top = room_suc runner (suc n) (size / 8) top (size_words size al pos) room in
    let inside : runner < length words = omega (arith, below_top, fits) in
    let no_wrap : add_word off size ≡ off + size =
      mod_below (off + size) (2 ^ 64)
        (omega (arith, at, al, bound, room_next runner n (size / 8) top room)) in
    let (ws, l) =
      create_free_list_lem size n (off + size) (runner + size / 8) top
        (set words runner (off + size)) al (omega (arith, at, al)) pos (omega (arith, room)) bound
        (omega (arith, fits, length-set words runner (off + size))) in
    (
      ws,
      record {
        made = create_free_list-next size n off runner words ws no_wrap inside l.made;
        chain = (
          refl,
          omega (arith, at),
          off + size,
          ap (λ q. get_elem? ws q) (omega (arith, at))
              ∙ l.below runner (omega (arith, size_words size al pos))
              ∙ get_elem?-set_self words runner (off + size) inside,
          l.chain,
        );
        below = λ i h.
            l.below i (omega arith)
            ∙ get_elem?-set_ne words (off + size) (λ e. omega (arith, e, h));
        same_length = l.same_length ∙ length-set words runner (off + size);
      },
    )

room_init :
    (m c : ℕ)
    → c % 8 ≡ 0
    → 0 < c
    → 24 + c ≤ m
    → (q : ℕ) × ((m - 24) / c ≡ suc q) × (3 + suc q * (c / 8) ≤ m / 8)
room_init m c al pos room =
    let q = (m - 24 - c) / c in
    let num : (m - 24) / c ≡ suc q =
      div-eq-sub-div {m = c} {n = m - 24} pos (omega arith) ∙ omega arith in
    let whole : suc q * (c / 8) * 8 ≡ suc q * c =
      mul_assoc (suc q) (c / 8) 8 ∙ ap (λ d. suc q * d) (word_start c al) in
    let below : suc q * c ≤ m - 24 = subst (λ d. d * c ≤ m - 24) num (div-mul-le_self (m - 24) c) in
    (q, num, omega (arith, whole, below, room))

abbrev made_of : ℕ → ℕ → List ℕ → Fsa
made_of size num ws = record {
  block_size = size;
  num_of_free_blocks = num;
  next_free = 24;
  words = ws;
}

not_zero : (n : ℕ) → 0 < n → not (n == 0) ≡ true
not_zero n h = ground arith

init_run :
    (words : List ℕ) (m b q : ℕ) (ws : List ℕ)
    → 0 < b
    → 0 < calculate_block_size b
    → 24 + calculate_block_size b ≤ m
    → m < 2 ^ 64
    → (m - 24) / calculate_block_size b ≡ suc q
    → create_free_list (calculate_block_size b) (suc q) 24 3 words ≡ some ws
    → init words m b ≡ some (some (made_of (calculate_block_size b) (suc q) ws))
unfolding init suggest_size
init_run words m b q ws pos some_size room size_t num made =
    let least : add_word 24 (mul_word (calculate_block_size b) 1) ≡ 24 + calculate_block_size b =
      omega arith in
    let rest : sub_word m 24 ≡ m - 24 = omega arith in
    rw
      (
        lt→ltb 0 b pos,
        least,
        ge→ltb m (24 + calculate_block_size b) room,
        rest,
        not_zero (calculate_block_size b) some_size,
        num,
        made,
      )
      refl

-- Where memory_size is a size_t, block_size is not 0 and at most 2 ^ 64 - 8, and the memory has
-- room for the struct and a block, FSAInit makes every block that fits free, in order.
pub init_lem :
    (words : List ℕ) (memory_size block_size : ℕ)
    → 0 < block_size
    → block_size ≤ 2 ^ 64 - 8
    → memory_size < 2 ^ 64
    → 24 + calculate_block_size block_size ≤ memory_size
    → memory_size ≤ length words * 8
    → (a : Fsa) × (init words memory_size block_size ≡ some (some a))
      × IsFree a (
          blocks
            (calculate_block_size block_size)
            24
            ((memory_size - 24) / calculate_block_size block_size))
      × (a.block_size ≡ calculate_block_size block_size)
init_lem words m b pos narrow size_t room fits =
    let (al, ge, _) = calculate_block_size_lem b pos narrow in
    let some_size : 0 < calculate_block_size b = omega (arith, ge) in
    let (q, num, enough) = room_init m (calculate_block_size b) al some_size room in
    let (ws, l) =
      create_free_list_lem (calculate_block_size b) q 24 3 (m / 8) words al refl some_size enough
        (omega arith) (omega arith) in
    (
      made_of (calculate_block_size b) (suc q) ws,
      init_run words m b q ws pos some_size room size_t num l.made,
      subst
          (λ k.
            IsFree (made_of (calculate_block_size b) (suc q) ws)
              (blocks (calculate_block_size b) 24 k))
          (sym num)
          (record {
            chain = l.chain;
            counted = sym (length-blocks (calculate_block_size b) 24 (suc q));
          }),
      refl,
    )

-- `FSAAlloc` and then `FSAFree` of the block it gave: the free blocks are those of before, and no
-- block before the first is taken.
pub alloc-free :
    (a : Fsa) (b : ℕ) (bs : List ℕ)
    → IsFree a (b ∷ bs)
    → All (λ c. b ≢ c) bs
    → (a1 a2 : Fsa) × (alloc a ≡ some (some b, a1)) × (free a1 b ≡ some a2) × IsFree a2 (b ∷ bs)
alloc-free a b bs f new =
    let (e, aligned, after, reads, rest) = f.chain in
    let (a1, took, f1, same) = alloc_lem a (b ∷ bs) f in
    let (a2, gave, f2) =
      free_lem a1 bs b f1 aligned
        (subst (λ ws. b / 8 < length ws) (sym same) (read_inside a.words (b / 8) reads)) new in
    (a1, a2, took, gave, f2)
