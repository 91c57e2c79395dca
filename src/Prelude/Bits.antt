-- ===== src/Prelude/Bits.antt =====
-- The operations `|` and `&` of C on unsigned numbers, digit by digit.
use Prim.Native.Nat.{
  ℕ, zero, suc, ◌+◌, ◌*◌, ◌/◌, ◌%◌, ◌^◌, ◌≤◌, ◌<◌, min, max, bit_or, bit_or-bitwise, bit_and,
  bit_and-bitwise, digits,
}
use mathlib.Core.Path.{◌≡◌, ◌∙◌, refl, sym, ap}
use native.Mathlib.Nat.{
  two-pow-succ, one-le-pow, mod-add-div, mod-lt, add-mul-mod_self_left, mod-eq_of_lt,
  mul-lt-mul_of_pos_right,
}
use native.Mathlib.Omega.{arith}

-- A digit-wise operation does not depend on the count of digits to go, once it is enough.
module _ (rest : ℕ → ℕ) (op : ℕ → ℕ → ℕ) where
  enough : (n m a b : ℕ) → a ≤ n → a ≤ m → digits rest op n a b ≡ digits rest op m a b
  enough zero zero a b p q = refl
  enough zero (suc m) zero b p q = refl
  enough (suc n) zero zero b p q = refl
  enough (suc n) (suc m) zero b p q = refl
  enough zero m (suc a) b p q = absurd (omega (arith, p))
  enough n zero (suc a) b p q = absurd (omega (arith, q))
  enough (suc n) (suc m) (suc a) b p q =
      ap (λ x. x * 2 + op (suc a % 2) (b % 2))
        (enough n m (suc a / 2) (b / 2) (omega arith) (omega arith))

  -- Where the numbers of one digit less are put behind each other as `rest` wants it, the operation
  -- takes one digit after the other.
  by_digits :
      ((y : ℕ) → rest y ≡ rest (y / 2) * 2 + op 0 (y % 2))
      → (x y : ℕ)
      → digits rest op x x y ≡ digits rest op (x / 2) (x / 2) (y / 2) * 2 + op (x % 2) (y % 2)
  by_digits tail zero y = tail y
  by_digits tail (suc x) y =
      ap (λ upper. upper * 2 + op (suc x % 2) (y % 2))
        (enough x (suc x / 2) (suc x / 2) (y / 2) (omega arith) (omega arith))

pub zero-bit_or : (b : ℕ) → bit_or 0 b ≡ b
zero-bit_or b = bit_or-bitwise 0 b

pub bit_or_step : (a b : ℕ) → bit_or a b ≡ bit_or (a / 2) (b / 2) * 2 + max (a % 2) (b % 2)
bit_or_step a b =
    let lowest : (y : ℕ) → y ≡ y / 2 * 2 + max 0 (y % 2) = (λ y. omega arith) in
    bit_or-bitwise a b
    ∙ by_digits (λ y. y) max lowest a b
    ∙ ap (λ upper. upper * 2 + max (a % 2) (b % 2)) (sym (bit_or-bitwise (a / 2) (b / 2)))

pub bit_or_comm : (a b : ℕ) → bit_or a b ≡ bit_or b a
bit_or_comm a b = go (a + b) a b (omega arith) (omega arith)
  where
    go : (n a b : ℕ) → a ≤ n → b ≤ n → bit_or a b ≡ bit_or b a
    go zero zero zero p q = refl
    go zero (suc a) b p q = absurd (omega arith)
    go zero zero (suc b) p q = absurd (omega arith)
    go (suc n) a b p q =
        omega (
          arith,
          bit_or_step a b,
          bit_or_step b a,
          go n (a / 2) (b / 2) (omega arith) (omega arith),
        )

pub bit_and_step : (a b : ℕ) → bit_and a b ≡ bit_and (a / 2) (b / 2) * 2 + min (a % 2) (b % 2)
bit_and_step a b =
    let lowest : (y : ℕ) → 0 ≡ 0 * 2 + min 0 (y % 2) = (λ y. omega arith) in
    bit_and-bitwise a b
    ∙ by_digits (λ y. 0) min lowest a b
    ∙ ap (λ upper. upper * 2 + min (a % 2) (b % 2)) (sym (bit_and-bitwise (a / 2) (b / 2)))

pub bit_and_self : (a : ℕ) → bit_and a a ≡ a
bit_and_self a = halving a a (omega arith)
  where
    halving : (bound x : ℕ) → x ≤ bound → bit_and x x ≡ x
    halving bound zero h = bit_and-bitwise 0 0
    halving zero (suc x) h = absurd (omega arith)
    halving (suc bound) (suc x) h =
        bit_and_step (suc x) (suc x)
        ∙ ap (λ upper. upper * 2 + min (suc x % 2) (suc x % 2))
            (halving bound (suc x / 2) (omega arith))
        ∙ omega arith

-- Nothing is carried where one number lies above the other.
pub bit_or-above : (k x y : ℕ) → y < 2 ^ k → bit_or (x * 2 ^ k) y ≡ x * 2 ^ k + y
bit_or-above zero x y h =
    let none_left : y ≡ 0 = omega arith in
    ap (bit_or (x * 1)) none_left
    ∙ bit_or_comm (x * 1) 0
    ∙ zero-bit_or (x * 1)
    ∙ omega (arith, none_left)
bit_or-above (suc k) x y h =
    let double : x * 2 ^ suc k ≡ (x * 2 ^ k) * 2 = scaled x (2 ^ k) (2 ^ suc k) (two-pow-succ k) in
    let below : bit_or (x * 2 ^ k) (y / 2) ≡ x * 2 ^ k + y / 2 =
      bit_or-above k x (y / 2) (omega (arith, h, two-pow-succ k)) in
    ap (λ z. bit_or z y) double ∙ shifted (x * 2 ^ k) y below ∙ ap (λ z. z + y) (sym double)
  where
    scaled : (x w v : ℕ) → v ≡ w + w → x * v ≡ (x * w) * 2
    scaled x w v e = ap (λ v. x * v) e ∙ omega arith

    shifted : (w y : ℕ) → bit_or w (y / 2) ≡ w + y / 2 → bit_or (w * 2) y ≡ w * 2 + y
    shifted w y e =
        let half : w * 2 / 2 ≡ w = omega arith in
        bit_or_step (w * 2) y
        ∙ ap (λ z. bit_or z (y / 2) * 2 + max (w * 2 % 2) (y % 2)) half
        ∙ ap (λ z. z * 2 + max (w * 2 % 2) (y % 2)) e
        ∙ omega arith

-- Powers of two.
pub power_pos : (k : ℕ) → 0 < 2 ^ k
power_pos k = omega (arith, one-le-pow k 2 (omega arith))

pub power_suc : (k : ℕ) → 2 ^ suc k ≡ 2 ^ k + 2 ^ k
power_suc k = two-pow-succ k

pub power_split : (k r : ℕ) → 2 ^ (k + r) ≡ 2 ^ k * 2 ^ r
power_split zero r = ap (λ x. 2 ^ x) (plain r) ∙ once (2 ^ r)
  where
    plain : (r : ℕ) → 0 + r ≡ r
    plain r = omega arith

    once : (x : ℕ) → x ≡ 1 * x
    once x = omega arith
power_split (suc k) r =
    ap (λ x. 2 ^ x) (next k r)
    ∙ power_suc (k + r)
    ∙ ap (λ x. x + x) (power_split k r)
    ∙ doubled (2 ^ k) (2 ^ r)
    ∙ ap (λ x. x * 2 ^ r) (sym (power_suc k))
  where
    next : (k r : ℕ) → suc k + r ≡ suc (k + r)
    next k r = omega arith

    doubled : (v w : ℕ) → v * w + v * w ≡ (v + v) * w
    doubled v w = omega arith

-- a shift to the left that drops the bits above
pub scaled_mod : (x w v : ℕ) → 0 < w → 0 < v → x * v % (w * v) ≡ (x % w) * v
scaled_mod x w v pos_w pos_v =
    let split : x * v ≡ (x % w) * v + (w * v) * (x / w) =
      ap (λ z. z * v) (sym (mod-add-div x w)) ∙ regroup (x % w) w v (x / w) in
    ap (λ z. z % (w * v)) split
    ∙ add-mul-mod_self_left ((x % w) * v) (w * v) (x / w)
    ∙ mod-eq_of_lt (mul-lt-mul_of_pos_right (mod-lt x pos_w) pos_v)
  where
    regroup : (r w v q : ℕ) → (r + w * q) * v ≡ r * v + (w * v) * q
    regroup r w v q = omega arith
