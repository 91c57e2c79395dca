-- ===== src/BitArray.antt =====
-- infinity/ds/bit_array/bit_array.c: an array of 64 bits, as a number below 2 ^ 64. `none` is a
-- failed assert or a shift by 64 bits or more, which is undefined. An index counts from 1.
pub mod Counting
pub mod Rotating
mod Tests
use Prim.Native.Nat.{bit_or, bit_and}
use daher_repo.Prelude.{
  ℕ, zero, suc, ◌+◌, ◌-◌, ◌*◌, ◌/◌, ◌%◌, ◌^◌, Bool, true, false, Option, none, some, List, [], ◌∷◌,
  get_elem?, leb, ◌==◌, if◌then◌else◌, ◌>>=◌,
}

unfoldable pub set_all : ℕ → ℕ
set_all arr = 2 ^ 64 - 1

unfoldable pub reset_all : ℕ → ℕ
reset_all arr = 0

-- `assert(SIZE_OF_BIT_ARRAY >= idx)`, and then `(size_t)1 << (idx-1)`
unfoldable pub mask : ℕ → Option ℕ
mask zero = none
mask (suc k) = if leb (suc k) 64 then some (2 ^ k) else none

unfoldable pub set_on : ℕ → ℕ → Option ℕ
set_on arr idx = mask idx >>= λ m. some (bit_or arr m)

unfoldable pub set_off : ℕ → ℕ → Option ℕ
set_off arr idx = mask idx >>= λ m. some (bit_and arr (2 ^ 64 - 1 - m))

unfoldable pub get_val : ℕ → ℕ → Option ℕ
get_val arr idx = mask idx >>= λ m. some (if bit_and arr m == 0 then 0 else 1)

unfoldable pub set_bit : ℕ → ℕ → ℕ → Option ℕ
set_bit arr idx boolean_val = if boolean_val == 1 then set_on arr idx else set_off arr idx

unfoldable pub rot_r : ℕ → ℕ → Option ℕ
rot_r arr steps =
    let s = steps % 64 in
    if s == 0 then none else some (bit_or (arr * 2 ^ (64 - s) % 2 ^ 64) (arr / 2 ^ s))

unfoldable pub rot_l : ℕ → ℕ → Option ℕ
rot_l arr steps =
    let s = steps % 64 in
    if s == 0 then none else some (bit_or (arr * 2 ^ s % 2 ^ 64) (arr / 2 ^ (64 - s)))

-- the loop of `BitsArrCountOn`; `none` is no fuel left
unfoldable pub count_on_from : ℕ → ℕ → ℕ → Option ℕ
count_on_from zero arr count = none
count_on_from (suc fuel) arr count =
    let rest = count_on_from fuel (bit_and arr (arr - 1)) (count + 1) in
    if arr == 0 then some count else rest

unfoldable pub count_on : ℕ → Option ℕ
count_on arr = count_on_from 65 arr 0

unfoldable pub arr_lut_count : List ℕ
arr_lut_count = 0 ∷ 1 ∷ 1 ∷ 2 ∷ 1 ∷ 2 ∷ 2 ∷ 3 ∷ 1 ∷ 2 ∷ 2 ∷ 3 ∷ 2 ∷ 3 ∷ 3 ∷ 4 ∷ []

-- the loop of `BitsArrCountOnLut`, with so many rounds left
unfoldable pub count_lut_from : ℕ → ℕ → ℕ → Option ℕ
unfolding arr_lut_count
count_lut_from zero arr count = some count
count_lut_from (suc rounds) arr count =
    get_elem? arr_lut_count (arr % 16) >>= λ c. count_lut_from rounds (arr / 16) (count + c)

unfoldable pub count_on_lut : ℕ → Option ℕ
count_on_lut arr = count_lut_from 16 arr 0

unfoldable pub count_off : ℕ → Option ℕ
count_off arr = count_on arr >>= λ c. some (64 - c)

unfoldable pub flip : ℕ → ℕ
flip arr = 2 ^ 64 - 1 - arr

unfoldable pub arr_lut_mirror : List ℕ
arr_lut_mirror = 0 ∷ 8 ∷ 4 ∷ 12 ∷ 2 ∷ 10 ∷ 6 ∷ 14 ∷ 1 ∷ 9 ∷ 5 ∷ 13 ∷ 3 ∷ 11 ∷ 7 ∷ 15 ∷ []

-- the loop of `BitsArrMirrorLut`
unfoldable pub mirror_lut_from : ℕ → ℕ → ℕ → Option ℕ
unfolding arr_lut_mirror
mirror_lut_from zero arr mirror_arr = some mirror_arr
mirror_lut_from (suc rounds) arr mirror_arr = get_elem? arr_lut_mirror (arr % 16) >>= λ m.
    mirror_lut_from rounds (arr / 16) (bit_or (mirror_arr * 2 ^ 4 % 2 ^ 64) m)

unfoldable pub mirror_lut : ℕ → Option ℕ
mirror_lut arr = mirror_lut_from 16 arr 0

-- one line of `BitsArrMirror`: the bits of the two masks change places
unfoldable pub exchange : ℕ → ℕ → ℕ → ℕ → ℕ
exchange upper lower steps arr =
    bit_or (bit_and arr upper / 2 ^ steps) (bit_and arr lower * 2 ^ steps % 2 ^ 64)

unfoldable pub mirror : ℕ → ℕ
unfolding exchange
mirror arr =
    let halves = bit_or (arr / 2 ^ 32) (arr * 2 ^ 32 % 2 ^ 64) in
    let quarters = exchange 0xFFFF0000FFFF0000 0x0000FFFF0000FFFF 16 halves in
    let bytes = exchange 0xFF00FF00FF00FF00 0x00FF00FF00FF00FF 8 quarters in
    let nibbles = exchange 0xF0F0F0F0F0F0F0F0 0x0F0F0F0F0F0F0F0F 4 bytes in
    let pairs = exchange 0xCCCCCCCCCCCCCCCC 0x3333333333333333 2 nibbles in
    exchange 0xAAAAAAAAAAAAAAAA 0x5555555555555555 1 pairs
