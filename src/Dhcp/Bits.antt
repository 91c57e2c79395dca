-- ===== src/Dhcp/Bits.antt =====
-- dhcp.c: what the bit that chooses a direction says of an address, and the bit that is put in front.
use Prim.Native.Nat.{bit_or}
use daher_repo.Prelude.{zero-bit_or, bit_or_step}
use native.Mathlib.Nat.{
  mod-add-div, mod-lt, add-mul-mod_self_left, mod-eq_of_lt, div-eq_of_lt, add-mul-div_left,
}
use daher_repo.Prelude.{
  ℕ, zero, suc, max, ◌+◌, ◌*◌, ◌/◌, ◌%◌, ◌^◌, ◌<◌, ◌≡◌, ◌∙◌, refl, sym, ap, arith, ◌==◌,
  if◌then◌else◌,
}
pub use daher_repo.Prelude.{power_pos, power_suc, power_split}
use daher_repo.Dhcp.{Relatives, zeroth, first, value_of, direction_of}

-- A remainder by twice `w`, from the one by `w` and the bit above it.
mod_double : (j w : ℕ) → 0 < w → j % (w + w) ≡ j % w + w * (j / w % 2)
mod_double j w pos =
    let q = j / w in
    let whole : j ≡ (j % w + w * (q % 2)) + (w + w) * (q / 2) =
      sym (mod-add-div j w)
      ∙ ap (λ z. j % w + w * z) (sym (mod-add-div q 2))
      ∙ ring_step (j % w) w (q % 2) (q / 2) in
    ap (λ z. z % (w + w)) whole
    ∙ add-mul-mod_self_left (j % w + w * (q % 2)) (w + w) (q / 2)
    ∙ mod-eq_of_lt (small w (j % w) (q % 2) (mod-lt j pos) (mod-lt q (omega arith)))
  where
    ring_step : (r w d k : ℕ) → r + w * (d + 2 * k) ≡ (r + w * d) + (w + w) * k
    ring_step r w d k = omega arith

    small : (w r d : ℕ) → r < w → d < 2 → r + w * d < w + w
    small w r zero h k = omega (arith, h)
    small w r (suc zero) h k = omega (arith, h)
    small w r (suc (suc d)) h k = absurd (omega arith)

-- The lowest `suc k` bits of an address are the direction at `k` and the lowest `k` bits.
pub low_bits : (j k : ℕ) → j % 2 ^ suc k ≡ j % 2 ^ k + 2 ^ k * value_of (direction_of j k)
unfolding direction_of
low_bits j k =
    ap (λ w. j % w) (power_suc k)
    ∙ mod_double j (2 ^ k) (power_pos k)
    ∙ ap (λ d. j % 2 ^ k + 2 ^ k * d) (bit_value (j / 2 ^ k))
  where
    bit_value : (q : ℕ) → q % 2 ≡ value_of (if q % 2 == 1 then first else zeroth)
    bit_value q = ground arith

pub low_below : (j k : ℕ) → j % 2 ^ k < 2 ^ k
low_below j k = mod-lt j (power_pos k)

-- Addresses with the same lowest `suc k` bits go the same way, and have the same lowest `k` bits.
pub low_split :
    (i j k : ℕ)
    → i % 2 ^ suc k ≡ j % 2 ^ suc k
    → (direction_of i k ≡ direction_of j k) × (i % 2 ^ k ≡ j % 2 ^ k)
low_split i j k e =
    parts (direction_of i k) (direction_of j k) (sym (low_bits i k) ∙ e ∙ low_bits j k)
  where
    parts :
        (a b : Relatives)
        → i % 2 ^ k + 2 ^ k * value_of a ≡ j % 2 ^ k + 2 ^ k * value_of b
        → (a ≡ b) × (i % 2 ^ k ≡ j % 2 ^ k)
    parts zeroth zeroth h = (refl, omega (arith, h))
    parts first first h = (refl, omega (arith, h))
    parts zeroth first h = absurd (omega (arith, h, low_below i k))
    parts first zeroth h = absurd (omega (arith, h, low_below j k))

-- a bit put in front of the lowest `k`
pub front_direction :
    (d : Relatives) (a k : ℕ) → a < 2 ^ k → direction_of (a + 2 ^ k * value_of d) k ≡ d
unfolding direction_of
front_direction d a k h =
    let above : (a + 2 ^ k * value_of d) / 2 ^ k ≡ value_of d =
      add-mul-div_left a (value_of d) (power_pos k)
      ∙ ap (λ z. z + value_of d) (div-eq_of_lt h)
      ∙ omega arith in
    ap (λ q. if q % 2 == 1 then first else zeroth) above ∙ chosen d
  where
    chosen : (d : Relatives) → (if value_of d % 2 == 1 then first else zeroth) ≡ d
    chosen zeroth = refl
    chosen first = refl

pub front_low : (d : Relatives) (a k : ℕ) → a < 2 ^ k → (a + 2 ^ k * value_of d) % 2 ^ k ≡ a
front_low d a k h = add-mul-mod_self_left a (2 ^ k) (value_of d) ∙ mod-eq_of_lt h

pub front_below : (d : Relatives) (a k : ℕ) → a < 2 ^ k → a + 2 ^ k * value_of d < 2 ^ suc k
front_below zeroth a k h = omega (arith, h, power_suc k)
front_below first a k h = omega (arith, h, power_suc k)

pub low_direction : (j k : ℕ) → j < 2 ^ k → direction_of j k ≡ zeroth
low_direction j k h =
    ap (λ x. direction_of x k) (plus_zero j (2 ^ k)) ∙ front_direction zeroth j k h
  where
    plus_zero : (j w : ℕ) → j ≡ j + w * 0
    plus_zero j w = omega arith

pub high_direction : (i k : ℕ) → i < 2 ^ k → direction_of (i + 2 ^ k) k ≡ first
high_direction i k h = ap (λ x. direction_of x k) (plus_one i (2 ^ k)) ∙ front_direction first i k h
  where
    plus_one : (i w : ℕ) → i + w ≡ i + w * 1
    plus_one i w = omega arith

plus_none : (a x : ℕ) → a ≡ 0 → x ≡ a + x
plus_none a x e = omega (arith, e)

-- Nothing is carried where a bit is set above all others.
pub bit_or_front :
    (k a : ℕ) (d : Relatives) → a < 2 ^ k → bit_or a (value_of d * 2 ^ k) ≡ a + value_of d * 2 ^ k
bit_or_front zero a d h =
    let none_left : a ≡ 0 = omega arith in
    ap (λ z. bit_or z (value_of d * 1)) none_left
    ∙ zero-bit_or (value_of d * 1)
    ∙ plus_none a (value_of d * 1) none_left
bit_or_front (suc k) a d h =
    let double : value_of d * 2 ^ suc k ≡ (value_of d * 2 ^ k) * 2 =
      doubled (value_of d) (2 ^ k) (2 ^ suc k) (power_suc k) in
    let below : bit_or (a / 2) (value_of d * 2 ^ k) ≡ a / 2 + value_of d * 2 ^ k =
      bit_or_front k (a / 2) d (omega (arith, h, power_suc k)) in
    ap (bit_or a) double ∙ shifted a (value_of d * 2 ^ k) below ∙ ap (λ z. a + z) (sym double)
  where
    doubled : (v w x : ℕ) → x ≡ w + w → v * x ≡ (v * w) * 2
    doubled v w x e = ap (λ x. v * x) e ∙ omega arith

    shifted : (a w : ℕ) → bit_or (a / 2) w ≡ a / 2 + w → bit_or a (w * 2) ≡ a + w * 2
    shifted a w e =
        let half : w * 2 / 2 ≡ w = omega arith in
        bit_or_step a (w * 2)
        ∙ ap (λ z. bit_or (a / 2) z * 2 + max (a % 2) (w * 2 % 2)) half
        ∙ ap (λ z. z * 2 + max (a % 2) (w * 2 % 2)) e
        ∙ omega arith
