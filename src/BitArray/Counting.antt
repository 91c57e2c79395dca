-- ===== src/BitArray/Counting.antt =====
-- bit_array.c, `BitsArrCountOn` and `BitsArrCountOnLut`: both count the bits that are on.
use Prim.Native.Nat.{bit_and}
use native.Mathlib.Nat.{two-pow-succ}
use daher_repo.Prelude.{
  ℕ, zero, suc, ◌+◌, ◌-◌, ◌*◌, ◌/◌, ◌%◌, ◌^◌, ◌≤◌, ◌<◌, min, ◌≡◌, ◌∙◌, refl, sym, ap, some,
  get_elem?, arith, inl, inr, false, ◌==◌, bit_and_step, bit_and_self, ◌⊎◌,
}
use daher_repo.BitArray.{
  count_on_from, count_on, count_off, count_lut_from, count_on_lut, arr_lut_count,
}

-- how many of the lowest bits are on
unfoldable pub ones : ℕ → ℕ → ℕ
ones zero a = 0
ones (suc k) a = a % 2 + ones k (a / 2)

ones-le : (k a : ℕ) → ones k a ≤ k
unfolding ones
ones-le zero a = omega arith
ones-le (suc k) a = omega (arith, ones-le k (a / 2))

ones-zero : (k : ℕ) → ones k 0 ≡ 0
unfolding ones
ones-zero zero = refl
ones-zero (suc k) = omega (arith, ones-zero k)

-- `arr & (arr - 1)` by halves
clear_odd : (a : ℕ) → a % 2 ≡ 1 → bit_and a (a - 1) ≡ a / 2 * 2
clear_odd a h =
    let half : (a - 1) / 2 ≡ a / 2 = omega (arith, h) in
    bit_and_step a (a - 1)
    ∙ ap (λ x. bit_and (a / 2) x * 2 + min (a % 2) ((a - 1) % 2)) half
    ∙ ap (λ x. x * 2 + min (a % 2) ((a - 1) % 2)) (bit_and_self (a / 2))
    ∙ omega (arith, h)

clear_even : (a : ℕ) → a % 2 ≡ 0 → 0 < a → bit_and a (a - 1) ≡ bit_and (a / 2) (a / 2 - 1) * 2
clear_even a h p =
    let half : (a - 1) / 2 ≡ a / 2 - 1 = omega (arith, h, p) in
    bit_and_step a (a - 1)
    ∙ ap (λ x. bit_and (a / 2) x * 2 + min (a % 2) ((a - 1) % 2)) half
    ∙ omega (arith, h)

ones-double : (k x : ℕ) → ones (suc k) (x * 2) ≡ ones k x
unfolding ones
ones-double k x =
    let half : x * 2 / 2 ≡ x = omega arith in
    let even : x * 2 % 2 ≡ 0 = omega arith in rw (half, even) (plain (ones k x))
  where
    plain : (y : ℕ) → 0 + y ≡ y
    plain y = omega arith

ones-half : (k a : ℕ) → a % 2 ≡ 0 → ones k (a / 2) ≡ ones (suc k) a
unfolding ones
ones-half k a e = omega (arith, e)

-- `arr & (arr - 1)` has one bit less.
clear_lowest :
    (k a : ℕ)
    → 0 < a
    → a < 2 ^ k
    → (ones k (bit_and a (a - 1)) + 1 ≡ ones k a) × (bit_and a (a - 1) < 2 ^ k)
clear_lowest zero a p h = absurd (omega (arith, p, h))
clear_lowest (suc k) a p h = elim (parity a) [
  | inl odd ↦ (
    ap (λ x. ones (suc k) x + 1) (clear_odd a odd)
        ∙ ap (λ x. x + 1) (ones-double k (a / 2))
        ∙ unfold ones in omega (arith, odd),
    omega (arith, clear_odd a odd, h),
  )
  | inr even ↦
      let (less, below) =
        clear_lowest k (a / 2) (omega (arith, even, p)) (omega (arith, h, two-pow-succ k)) in
      (
        ap (λ x. ones (suc k) x + 1) (clear_even a even p)
            ∙ ap (λ x. x + 1) (ones-double k (bit_and (a / 2) (a / 2 - 1)))
            ∙ less
            ∙ ones-half k a even,
        omega (arith, clear_even a even p, below, two-pow-succ k),
      )
]
  where
    parity : (a : ℕ) → (a % 2 ≡ 1) ⊎ (a % 2 ≡ 0)
    parity a = ground arith

count_on_from_lem :
    (fuel arr count : ℕ)
    → arr < 2 ^ 64
    → ones 64 arr < fuel
    → count_on_from fuel arr count ≡ some (count + ones 64 arr)
unfolding count_on_from
count_on_from_lem zero arr count h f = elim f [ ]
count_on_from_lem (suc fuel) zero count h f = ap some (none_on count (ones 64 0) (ones-zero 64))
  where
    none_on : (c x : ℕ) → x ≡ 0 → c ≡ c + x
    none_on c x e = omega (arith, e)
count_on_from_lem (suc fuel) (suc n) count h f =
    let (less, below) = clear_lowest 64 (suc n) (omega arith) h in
    rw (positive n) (
      count_on_from_lem fuel (bit_and (suc n) (suc n - 1)) (count + 1) below
        (omega (arith, less, f))
      ∙ ap some (regroup count (ones 64 (bit_and (suc n) (suc n - 1))) (ones 64 (suc n)) less))
  where
    positive : (n : ℕ) → (suc n == 0) ≡ false
    positive n = ground arith

    regroup : (c x y : ℕ) → x + 1 ≡ y → c + 1 + x ≡ c + y
    regroup c x y e = omega (arith, e)

-- On an array of 64 bits, the loop of `BitsArrCountOn` ends within 65 tests, and counts the bits that
-- are on.
pub count_on-ones : (arr : ℕ) → arr < 2 ^ 64 → count_on arr ≡ some (ones 64 arr)
unfolding count_on
count_on-ones arr h =
    count_on_from_lem 65 arr 0 h (omega (arith, ones-le 64 arr)) ∙ ap some (plain (ones 64 arr))
  where
    plain : (x : ℕ) → 0 + x ≡ x
    plain x = omega arith

-- the table holds the counts of the nibbles
nibble : (n : ℕ) → n < 16 → get_elem? arr_lut_count n ≡ some (ones 4 n)
unfolding ones arr_lut_count
nibble zero h = refl
nibble (suc zero) h = refl
nibble (suc (suc zero)) h = refl
nibble (suc (suc (suc zero))) h = refl
nibble (suc (suc (suc (suc zero)))) h = refl
nibble (suc (suc (suc (suc (suc zero))))) h = refl
nibble (suc (suc (suc (suc (suc (suc zero)))))) h = refl
nibble (suc (suc (suc (suc (suc (suc (suc zero))))))) h = refl
nibble (suc (suc (suc (suc (suc (suc (suc (suc zero)))))))) h = refl
nibble (suc (suc (suc (suc (suc (suc (suc (suc (suc zero))))))))) h = refl
nibble (suc (suc (suc (suc (suc (suc (suc (suc (suc (suc zero)))))))))) h = refl
nibble (suc (suc (suc (suc (suc (suc (suc (suc (suc (suc (suc zero))))))))))) h = refl
nibble (suc (suc (suc (suc (suc (suc (suc (suc (suc (suc (suc (suc zero)))))))))))) h = refl
nibble (suc (suc (suc (suc (suc (suc (suc (suc (suc (suc (suc (suc (suc zero))))))))))))) h = refl
nibble (suc (suc (suc (suc (suc (suc (suc (suc (suc (suc (suc (suc (suc (suc zero)))))))))))))) h =
    refl
nibble
      (suc (suc (suc (suc (suc (suc (suc (suc (suc (suc (suc (suc (suc (suc (suc zero)))))))))))))))
      h =
    refl
nibble
      (suc
        (suc (suc (suc (suc (suc (suc (suc (suc (suc (suc (suc (suc (suc (suc (suc n))))))))))))))))
      h =
    absurd (omega (arith, h))

ones-nibble : (a : ℕ) → ones 4 (a % 16) ≡ ones 4 a
unfolding ones
ones-nibble a = omega arith

ones-four : (k a : ℕ) → ones (suc (suc (suc (suc k)))) a ≡ ones 4 a + ones k (a / 16)
unfolding ones
ones-four k a =
    let sixteenth : a / 2 / 2 / 2 / 2 ≡ a / 16 = omega arith in rw sixteenth (omega arith)

-- The bits that as many nibbles have.
nibbles : ℕ → ℕ
nibbles zero = 0
nibbles (suc r) = suc (suc (suc (suc (nibbles r))))

count_lut_from_lem :
    (rounds arr count : ℕ)
    → count_lut_from rounds arr count ≡ some (count + ones (nibbles rounds) arr)
unfolding count_lut_from nibbles
count_lut_from_lem zero arr count = ap some (unfold ones in omega arith)
count_lut_from_lem (suc r) arr count = rw (nibble (arr % 16) (omega arith)) (
    count_lut_from_lem r (arr / 16) (count + ones 4 (arr % 16))
    ∙ ap some (
        regroup count (ones 4 (arr % 16)) (ones 4 arr) (ones (nibbles r) (arr / 16))
          (ones (suc (suc (suc (suc (nibbles r))))) arr) (ones-nibble arr)
          (ones-four (nibbles r) arr)))
  where
    regroup : (c x y z w : ℕ) → x ≡ y → w ≡ y + z → c + x + z ≡ c + w
    regroup c x y z w e d = omega (arith, e, d)

-- On an array of 64 bits, the count by the table is the count of `BitsArrCountOn`.
pub count_on_lut-eq-count_on : (arr : ℕ) → arr < 2 ^ 64 → count_on_lut arr ≡ count_on arr
unfolding count_on_lut nibbles
count_on_lut-eq-count_on arr h =
    count_lut_from_lem 16 arr 0 ∙ ap some (plain (ones 64 arr)) ∙ sym (count_on-ones arr h)
  where
    plain : (x : ℕ) → 0 + x ≡ x
    plain x = omega arith

-- On an array of 64 bits, the counts of `BitsArrCountOn` and `BitsArrCountOff` are at most 64, and come
-- to 64 together.
pub count_on-count_off :
    (arr : ℕ)
    → arr < 2 ^ 64
    → (on : ℕ) × (off : ℕ) × (count_on arr ≡ some on)
      × (count_off arr ≡ some off)
      × (on ≤ 64)
      × (off ≤ 64)
      × (on + off ≡ 64)
unfolding count_off
count_on-count_off arr h =
    let few : ones 64 arr ≤ 64 = ones-le 64 arr in
    (
      ones 64 arr,
      64 - ones 64 arr,
      count_on-ones arr h,
      rw (count_on-ones arr h) refl,
      few,
      omega arith,
      omega (arith, few),
    )
