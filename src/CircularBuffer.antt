-- ===== src/CircularBuffer.antt =====
-- infinity/ds/circular_buffer/circular_buffer.c: a byte queue of fixed capacity in an array of one
-- byte more. A byte is any number, since bytes are only moved. `size_t` arithmetic wraps.
pub mod Bytes
pub mod Writing
mod Tests
use daher_repo.Prelude.{
  ℕ, ◌+◌, ◌-◌, ◌%◌, Bool, Option, none, some, List, ltb, ◌==◌, if◌then◌else◌, add_word, sub_word,
  take, drop, slice, splice, ◌++◌,
}

-- `struct CBuffer`
pub record CBuffer : Type 0 where
  pub capacity : ℕ
  pub read_index : ℕ
  pub write_index : ℕ
  pub buffer_array : List ℕ

-- `CBufferCreate`: `memory` is what `malloc` returns for the array, with whatever it holds.
unfoldable pub create : Option (List ℕ) → ℕ → Option CBuffer
create none capacity = none
create (some memory) capacity = some (record {
  capacity = add_word capacity 1;
  read_index = 0;
  write_index = 0;
  buffer_array = memory;
})

-- `CBufferSize`
unfoldable pub size : CBuffer → ℕ
size c = add_word (sub_word c.write_index c.read_index) c.capacity % c.capacity

-- `CBufferIsEmpty`
unfoldable pub is_empty : CBuffer → Bool
is_empty c = size c == 0

-- `CBufferFreeSpace`
unfoldable pub free_space : CBuffer → ℕ
free_space c = sub_word (sub_word c.capacity 1) (size c)

-- `MIN(x,y)`
abbrev pub minimum : ℕ → ℕ → ℕ
minimum x y = if ltb y x then y else x

-- `CBufferRead`: the count, the bytes that reach `output`, and the buffer afterwards.
unfoldable pub read : CBuffer → ℕ → ℕ × List ℕ × CBuffer
read c count_bytes =
    let count = minimum (size c) count_bytes in
    let first = minimum count (sub_word c.capacity c.read_index) in
    let second = sub_word count first in
    (
      count,
      slice c.buffer_array c.read_index first ++ slice c.buffer_array 0 second,
      record c { read_index = add_word (add_word c.read_index first) second % c.capacity },
    )

-- `CBufferWrite`: the count, and the buffer afterwards.
unfoldable pub write : CBuffer → List ℕ → ℕ → ℕ × CBuffer
write c input count_bytes =
    let count = minimum (free_space c) count_bytes in
    let first = minimum count (sub_word c.capacity c.write_index) in
    let second = sub_word count first in
    (
      count,
      record c {
        buffer_array =
            splice (splice c.buffer_array c.write_index (take first input)) 0
              (take second (drop first input));
        write_index = add_word (add_word c.write_index first) second % c.capacity;
      },
    )
