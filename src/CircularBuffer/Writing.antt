-- ===== src/CircularBuffer/Writing.antt =====
-- circular_buffer.c: what `CBufferWrite` appends to the bytes of the buffer, and a new buffer.
use native.Mathlib.Nat.{mod-lt}
use daher_repo.Prelude.{
  ℕ, ◌+◌, ◌-◌, ◌%◌, ◌^◌, ◌≤◌, ◌<◌, ◌≡◌, refl, sym, ap, ap₂, ◌∙◌, ◌⊎◌, inl, inr, min, List, [], ◌++◌,
  some, arith, length, get_or, take, drop, tabulate, tabulate_ext, tabulate-append, length-take,
  length-drop, get_or-take, get_or-drop, slice-tabulate, splice, mod_below, mod_above,
  get_or-splice_in, get_or-splice_before, get_or-splice_after, length-splice, sub_word, add_word,
  place_cases,
}
use daher_repo.CircularBuffer.{CBuffer, create, size, free_space, minimum, write}
use daher_repo.CircularBuffer.Bytes.{
  IsValid, Divides, divides, size-cases, size-lt, free_space-lem, byte_at, contents,
  length-contents, size-place,
}

-- the array after the two `memcpy` of a write
module _ (xs input : List ℕ) (start first second : ℕ) where
  abbrev written : List ℕ
  written = splice (splice xs start (take first input)) 0 (take second (drop first input))

  module _ (first_fits : start + first ≤ length xs) (second_fits : second ≤ length xs)
      (enough : first + second ≤ length input) where
    length-first : length (take first input) ≡ first
    length-first = omega (arith, length-take first input)

    length-second : length (take second (drop first input)) ≡ second
    length-second = omega (arith, length-take second (drop first input), length-drop first input)

    written_first :
        (k : ℕ)
        → second ≤ k
        → start ≤ k
        → k < start + first
        → get_or written k 0 ≡ get_or input (k - start) 0
    written_first k p q m =
        get_or-splice_after (splice xs start (take first input)) (take second (drop first input)) 0
          k 0 (omega (arith, length-second))
        ∙ get_or-splice_in xs (take first input) start k 0 (omega (arith, length-first)) q
            (omega (arith, length-first))
        ∙ get_or-take input first (k - start) 0 (omega arith)

    written_second : (k : ℕ) → k < second → get_or written k 0 ≡ get_or input (first + k) 0
    written_second k p =
        get_or-splice_in (splice xs start (take first input)) (take second (drop first input)) 0 k 0
          (omega (arith, length-second, length-splice xs (take first input) start)) (omega arith)
          (omega (arith, length-second))
        ∙ get_or-take (drop first input) second (k - 0) 0 (omega arith)
        ∙ get_or-drop input first (k - 0) 0
        ∙ ap (λ i. get_or input i 0) (omega arith)

    written_kept :
        (k : ℕ)
        → second ≤ k
        → (k < start) ⊎ (start + first ≤ k)
        → get_or written k 0 ≡ get_or xs k 0
    written_kept k p place =
        get_or-splice_after (splice xs start (take first input)) (take second (drop first input)) 0
          k 0 (omega (arith, length-second))
        ∙ outside place
      where
        outside :
            (k < start) ⊎ (start + first ≤ k)
            → get_or (splice xs start (take first input)) k 0 ≡ get_or xs k 0
        outside (inl q) = get_or-splice_before xs (take first input) start k 0 q
        outside (inr q) =
            get_or-splice_after xs (take first input) start k 0 (omega (arith, length-first))

-- the buffer after `n` bytes of the input are written
abbrev filled : CBuffer → List ℕ → ℕ → ℕ → ℕ → CBuffer
filled c input n first second = record c {
  buffer_array = written c.buffer_array input c.write_index first second;
  write_index = (c.write_index + n) % c.capacity;
}

module _ {c : CBuffer} {n first second : ℕ} (input : List ℕ) (v : IsValid c)
    (room : n ≤ free_space c) (enough : n ≤ length input)
    (d : Divides c.capacity c.write_index n first second) where
  filled-IsValid : IsValid (filled c input n first second)
  filled-IsValid = record {
    array =
        length-splice (splice c.buffer_array c.write_index (take first input))
          (take second (drop first input)) 0
        ∙ length-splice c.buffer_array (take first input) c.write_index
        ∙ v.array;
    limit = v.limit;
    read_in = v.read_in;
    write_in = mod-lt (c.write_index + n) (omega (arith, v.write_in));
  }

  size-filled : size (filled c input n first second) ≡ size c + n
  size-filled = ground (
    arith,
    size-cases v,
    size-cases filled-IsValid,
    free_space-lem v,
    mod_below (c.write_index + n) c.capacity,
    mod_above (c.write_index + n) c.capacity,
  )

  -- the numbers that the places below follow from
  fits : c.write_index + first ≤ length c.buffer_array
  fits = omega (arith, d.fits, v.array)

  second_fits : second ≤ length c.buffer_array
  second_fits = omega (arith, d.sum, v.array, free_space-lem v)

  both_enough : first + second ≤ length input
  both_enough = omega (arith, d.sum, enough)

  kept_at :
      (x k : ℕ)
      → x % c.capacity ≡ k
      → second ≤ k
      → (k < c.write_index) ⊎ (c.write_index + first ≤ k)
      → get_or (filled c input n first second).buffer_array (x % c.capacity) 0
        ≡ get_or c.buffer_array (x % c.capacity) 0
  kept_at x k e p q = rw e (
      written_kept c.buffer_array input c.write_index first second fits second_fits both_enough k p
        q)

  old_byte :
      (i : ℕ) → i < size c → byte_at (filled c input n first second) (0 + i) ≡ byte_at c (0 + i)
  old_byte i p = elim (place_cases (c.read_index + (0 + i)) c.capacity bound) [
    | inl (low, e) ↦ elim (size-place v) [
      | inl straight ↦
          kept_at _ _ e
            (omega (
              arith,
              p,
              size-lt v,
              v.read_in,
              v.write_in,
              free_space-lem v,
              room,
              d.sum,
              d.fits,
              d.round,
              size-place v,
            ))
            (inl (
              omega (
                arith,
                p,
                size-lt v,
                v.read_in,
                v.write_in,
                free_space-lem v,
                room,
                d.sum,
                d.fits,
                d.round,
                size-place v,
              )))
      | inr around ↦
          kept_at _ _ e
            (omega (
              arith,
              p,
              size-lt v,
              v.read_in,
              v.write_in,
              free_space-lem v,
              room,
              d.sum,
              d.fits,
              d.round,
              size-place v,
            ))
            (inr (
              omega (
                arith,
                p,
                size-lt v,
                v.read_in,
                v.write_in,
                free_space-lem v,
                room,
                d.sum,
                d.fits,
                d.round,
                size-place v,
              )))
    ]
    | inr (high, e) ↦
        kept_at _ _ e
          (omega (
            arith,
            p,
            size-lt v,
            v.read_in,
            v.write_in,
            free_space-lem v,
            room,
            d.sum,
            d.fits,
            d.round,
            size-place v,
          ))
          (inl (
            omega (
              arith,
              p,
              size-lt v,
              v.read_in,
              v.write_in,
              free_space-lem v,
              room,
              d.sum,
              d.fits,
              d.round,
              size-place v,
            )))
  ]
    where
      bound : c.read_index + (0 + i) < c.capacity + c.capacity
      bound = omega (arith, p, size-lt v, v.read_in)

  new_at :
      (x i : ℕ)
      → i < n
      → (x % c.capacity ≡ c.write_index + i) × (c.write_index + i < c.capacity)
        ⊎ (x % c.capacity + c.capacity ≡ c.write_index + i)
      → get_or (filled c input n first second).buffer_array (x % c.capacity) 0
        ≡ get_or input (0 + i) 0
  new_at x i p (inl (e, low)) =
      written_first c.buffer_array input c.write_index first second fits second_fits both_enough
        (x % c.capacity)
        (omega (
          arith,
          e,
          p,
          size-lt v,
          v.read_in,
          v.write_in,
          free_space-lem v,
          room,
          d.sum,
          d.fits,
          d.round,
          size-place v,
        ))
        (omega (
          arith,
          e,
          p,
          size-lt v,
          v.read_in,
          v.write_in,
          free_space-lem v,
          room,
          d.sum,
          d.fits,
          d.round,
          size-place v,
        ))
        (omega (
          arith,
          e,
          p,
          size-lt v,
          v.read_in,
          v.write_in,
          free_space-lem v,
          room,
          d.sum,
          d.fits,
          d.round,
          size-place v,
        ))
      ∙ ap (λ k. get_or input k 0) (omega (arith, e))
  new_at x i p (inr e) =
      written_second c.buffer_array input c.write_index first second fits second_fits both_enough
        (x % c.capacity)
        (omega (
          arith,
          e,
          p,
          size-lt v,
          v.read_in,
          v.write_in,
          free_space-lem v,
          room,
          d.sum,
          d.fits,
          d.round,
          size-place v,
        ))
      ∙ ap (λ k. get_or input k 0)
          (omega (
            arith,
            e,
            p,
            size-lt v,
            v.read_in,
            v.write_in,
            free_space-lem v,
            room,
            d.sum,
            d.fits,
            d.round,
            size-place v,
          ))

  new_byte :
      (i : ℕ)
      → i < n
      → byte_at (filled c input n first second) (0 + size c + i) ≡ get_or input (0 + i) 0
  new_byte i p = elim (place_cases x c.capacity bound) [
    | inl (low, e) ↦ elim (size-place v) [
      | inl straight ↦ new_at x i p (inl (omega (arith, e), omega (arith, e)))
      | inr around ↦ absurd (omega (arith, around))
    ]
    | inr (high, e) ↦ elim (size-place v) [
      | inl straight ↦ new_at x i p (inr (omega (arith, e)))
      | inr around ↦
          new_at x i p
            (inl (omega (arith, e), omega (arith, around, size-lt v, free_space-lem v, room, p)))
    ]
  ]
    where
      x : ℕ
      x = c.read_index + (0 + size c + i)

      bound : c.read_index + (0 + size c + i) < c.capacity + c.capacity
      bound = omega (arith, p, free_space-lem v, room, v.read_in)

  contents-filled : contents (filled c input n first second) ≡ contents c ++ take n input
  contents-filled =
      ap (tabulate (byte_at after) 0) size-filled
      ∙ sym (tabulate-append (byte_at after) 0 (size c) n)
      ∙ ap₂ ◌++◌ (tabulate_ext (byte_at after) (byte_at c) 0 0 (size c) old_byte) (
          tabulate_ext (byte_at after) (λ i. get_or input i 0) (0 + size c) 0 n new_byte
          ∙ sym (slice-tabulate input 0 n 0 (omega (arith, enough))))
    where
      after : CBuffer
      after = filled c input n first second

-- From a valid buffer and an input of at least the count asked for, `CBufferWrite` returns the
-- smaller of the count and the free space, puts that many bytes of the input behind the bytes held,
-- in their order, and leaves those.
pub write_lem :
    {c : CBuffer} (input : List ℕ) (count_bytes : ℕ)
    → IsValid c
    → count_bytes ≤ length input
    → let (n, c') = write c input count_bytes in
      (n ≡ min (c.capacity - 1 - length (contents c)) count_bytes)
      × (contents c' ≡ contents c ++ take n input)
      × IsValid c'
unfolding write
write_lem {c} input count_bytes v enough =
    let n = minimum (free_space c) count_bytes in
    let first = minimum n (sub_word c.capacity c.write_index) in
    let second = sub_word n first in
    let h : n ≤ free_space c = ground arith in
    let enough' : n ≤ length input = ground arith in
    let d =
      divides c.capacity c.write_index n v.limit v.write_in (omega (arith, h, free_space-lem v)) in
    let after : record c {
      buffer_array = written c.buffer_array input c.write_index first second;
      write_index = add_word (add_word c.write_index first) second % c.capacity;
    }
        ≡ filled c input n first second =
      ap
        (λ k. record c {
          buffer_array = written c.buffer_array input c.write_index first second;
          write_index = k % c.capacity;
        })
        (omega (arith, d.sum, d.fits, h, free_space-lem v, v.limit, v.write_in)) in
    (
      ground (arith, length-contents c, free_space-lem v),
      ap contents after ∙ contents-filled input v h enough' d,
      rw after (filled-IsValid input v h enough' d),
    )

-- A new buffer of a capacity below 2 ^ 63, over memory of one byte more, is valid and empty, and
-- has the whole capacity free.
pub create_lem :
    (memory : List ℕ) (capacity : ℕ)
    → capacity < 2 ^ 63
    → length memory ≡ capacity + 1
    → (c : CBuffer) × (create (some memory) capacity ≡ some c)
      × IsValid c
      × (contents c ≡ [])
      × (free_space c ≡ capacity)
unfolding create
create_lem memory capacity h e = (
  fresh,
  refl,
  valid,
  ap (tabulate (byte_at fresh) 0) nothing,
  omega (arith, free_space-lem valid, nothing),
)
  where
    fresh : CBuffer
    fresh = record {
      capacity = add_word capacity 1;
      read_index = 0;
      write_index = 0;
      buffer_array = memory;
    }

    valid : IsValid fresh
    valid = omega (arith, e)

    nothing : size fresh ≡ 0
    nothing = ground (arith, size-cases valid)
