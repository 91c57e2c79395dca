-- ===== src/CircularBuffer/Bytes.antt =====
-- circular_buffer.c as a queue of bytes.
use native.Mathlib.Nat.{mod-lt, mod-add-mod}
use daher_repo.Prelude.{
  ℕ, ◌+◌, ◌-◌, ◌%◌, ◌^◌, ◌≤◌, ◌<◌, ◌≡◌, sym, ap, ◌∙◌, min, List, ◌++◌, arith, length, get_or, take,
  drop, ltb, if◌then◌else◌, tabulate, tabulate_ext, tabulate-append, take-tabulate, drop-tabulate,
  length-tabulate, ◌⊎◌, sub_word, add_word, slice, ap₂, slice-tabulate, mod_below, mod_above,
}
use daher_repo.CircularBuffer.{CBuffer, size, free_space, minimum, read}

-- The array has the bytes of the capacity, which no object of C exceeds, and both indices are in it.
pub record IsValid (c : CBuffer) : Type 0 where
  pub array : length c.buffer_array ≡ c.capacity
  pub limit : c.capacity ≤ 2 ^ 63
  pub read_in : c.read_index < c.capacity
  pub write_in : c.write_index < c.capacity

-- The number of bytes from the read to the write index, going round.
pub size-cases :
    {c : CBuffer}
    → IsValid c
    → size c ≡ (
        if ltb c.write_index c.read_index
        then c.write_index + c.capacity - c.read_index
        else c.write_index - c.read_index)
unfolding size
size-cases {c} v = ground (arith, mod_below (w + cap - r) cap, mod_above (w + cap - r) cap)
  where
    open c use {capacity as cap, read_index as r, write_index as w}

pub size-place :
    {c : CBuffer}
    → IsValid c
    → (c.read_index + size c ≡ c.write_index) ⊎ (c.read_index + size c ≡ c.write_index + c.capacity)
size-place {c} v = ground (arith, size-cases v)

pub size-lt : {c : CBuffer} → IsValid c → size c < c.capacity
size-lt {c} v = ground (arith, size-cases v)

pub free_space-lem : {c : CBuffer} → IsValid c → free_space c + size c + 1 ≡ c.capacity
unfolding free_space
free_space-lem {c} v = omega (arith, size-lt v)

-- the byte at `i` places behind the read index
abbrev pub byte_at : CBuffer → ℕ → ℕ
byte_at c i = get_or c.buffer_array ((c.read_index + i) % c.capacity) 0

-- the bytes in the buffer, oldest first
abbrev pub contents : CBuffer → List ℕ
contents c = tabulate (byte_at c) 0 (size c)

pub length-contents : (c : CBuffer) → length (contents c) ≡ size c
length-contents c = length-tabulate (byte_at c) 0 (size c)

-- where the two `memcpy` of a transfer of `n` bytes from index `start` on divide it
pub record Divides (cap start n first second : ℕ) : Type 0 where
  pub sum : first + second ≡ n
  pub fits : start + first ≤ cap
  pub round : (second ≡ 0) ⊎ (start + first ≡ cap)

pub divides :
    (cap start n : ℕ)
    → cap ≤ 2 ^ 63
    → start < cap
    → n < cap
    → let first = minimum n (sub_word cap start) in Divides cap start n first (sub_word n first)
divides cap start n h k m = ground arith

-- the buffer after `n` of its bytes are read
abbrev advanced : CBuffer → ℕ → CBuffer
advanced c n = record c { read_index = (c.read_index + n) % c.capacity }

advanced-IsValid : {c : CBuffer} (n : ℕ) → IsValid c → IsValid (advanced c n)
advanced-IsValid {c} n v = record {
  array = v.array;
  limit = v.limit;
  read_in = mod-lt (c.read_index + n) (omega (arith, v.read_in));
  write_in = v.write_in;
}

size-advanced : {c : CBuffer} (n : ℕ) → IsValid c → n ≤ size c → size (advanced c n) ≡ size c - n
size-advanced {c} n v h = ground (
  arith,
  size-cases v,
  size-cases (advanced-IsValid n v),
  mod_below (c.read_index + n) c.capacity,
  mod_above (c.read_index + n) c.capacity,
)

contents-advanced :
    {c : CBuffer} (n : ℕ) → IsValid c → n ≤ size c → contents (advanced c n) ≡ drop n (contents c)
contents-advanced {c} n v h =
    rw (size-advanced n v h, drop-tabulate (byte_at c) 0 n (size c) h)
      (tabulate_ext (byte_at (advanced c n)) (byte_at c) 0 (0 + n) (size c - n)
        (λ i p. same_byte i))
  where
    same_byte : (i : ℕ) → byte_at (advanced c n) (0 + i) ≡ byte_at c (0 + n + i)
    same_byte i =
        ap (λ k. get_or c.buffer_array k 0)
          (mod-add-mod (c.read_index + n) c.capacity (0 + i)
            ∙ ap (λ k. k % c.capacity) (omega arith))

pub place_before : (cap start i : ℕ) → start + i < cap → (start + (0 + i)) % cap ≡ start + i
place_before cap start i h = mod_below (start + (0 + i)) cap (omega arith) ∙ omega arith

pub place_after :
    (cap start first i : ℕ)
    → start + first ≡ cap
    → i < cap
    → (start + (0 + first + i)) % cap ≡ 0 + i
place_after cap start first i e h =
    mod_above (start + (0 + first + i)) cap (omega arith) (omega arith) ∙ omega arith

-- the bytes that the two `memcpy` of a read move
moved :
    {c : CBuffer} {n first second : ℕ}
    → IsValid c
    → n ≤ size c
    → Divides c.capacity c.read_index n first second
    → slice c.buffer_array c.read_index first ++ slice c.buffer_array 0 second ≡ take n (contents c)
moved {c} {n} {first} {second} v h d =
    ap₂ ◌++◌ first_block second_block
    ∙ tabulate-append (byte_at c) 0 first second
    ∙ ap (tabulate (byte_at c) 0) d.sum
    ∙ sym (take-tabulate (byte_at c) 0 n (size c) h)
  where
    byte : ℕ → ℕ
    byte i = get_or c.buffer_array i 0

    first_block : slice c.buffer_array c.read_index first ≡ tabulate (byte_at c) 0 first
    first_block =
        slice-tabulate c.buffer_array c.read_index first 0 (omega (arith, v.array, d.fits))
        ∙ tabulate_ext byte (byte_at c) c.read_index 0 first (λ i p.
          ap byte (sym (place_before c.capacity c.read_index i (omega (arith, p, d.fits)))))

    second_block : slice c.buffer_array 0 second ≡ tabulate (byte_at c) (0 + first) second
    second_block =
        slice-tabulate c.buffer_array 0 second 0 (omega (arith, v.array, d.sum, size-lt v))
        ∙ tabulate_ext byte (byte_at c) 0 (0 + first) second (λ i p. ap byte (
            sym (
              place_after c.capacity c.read_index first i (omega (arith, d.round, p))
                (omega (arith, p, d.sum, d.round, v.read_in, size-lt v)))))

-- From a valid buffer, `CBufferRead` returns the smaller of the count asked for and the number of
-- bytes held, moves that many of the oldest bytes to the output in their order, and leaves the others.
pub read_lem :
    {c : CBuffer} (count_bytes : ℕ)
    → IsValid c
    → let (n, output, c') = read c count_bytes in
      (n ≡ min (length (contents c)) count_bytes)
      × (output ≡ take n (contents c))
      × (contents c' ≡ drop n (contents c))
      × IsValid c'
unfolding read
read_lem {c} count_bytes v =
    let n = minimum (size c) count_bytes in
    let first = minimum n (sub_word c.capacity c.read_index) in
    let h : n ≤ size c = ground arith in
    let d = divides c.capacity c.read_index n v.limit v.read_in (omega (arith, h, size-lt v)) in
    let after : record c {
      read_index = add_word (add_word c.read_index first) (sub_word n first) % c.capacity;
    }
        ≡ advanced c n =
      ap (λ k. record c { read_index = k % c.capacity })
        (omega (arith, d.sum, d.fits, h, size-lt v, v.limit, v.read_in)) in
    (
      ground (arith, length-contents c),
      moved v h d,
      ap contents after ∙ contents-advanced n v h,
      rw after (advanced-IsValid n v),
    )
