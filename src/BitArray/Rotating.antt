-- ===== src/BitArray/Rotating.antt =====
-- bit_array.c, `BitsArrRotL` and `BitsArrRotR`: each undoes the other.
use Prim.Native.Nat.{bit_or}
use native.Mathlib.Nat.{
  mod-lt, mod-eq_of_lt, div-lt_iff_lt-mul, div-eq_of_lt, mul-add-mod_self_right, mul-add-div_right,
  div-add-mod',
}
use mathlib.Core.Path.{subst}
use daher_repo.Prelude.{
  ℕ, ◌+◌, ◌-◌, ◌*◌, ◌/◌, ◌%◌, ◌^◌, ◌<◌, ◌≡◌, ◌≢◌, ◌∙◌, refl, sym, ap, some, arith, ◌==◌, false,
  bit_or-above, ◌>>=◌, power_pos, power_split, scaled_mod,
}
use daher_repo.BitArray.{rot_l, rot_r}

not_zero : (s : ℕ) → s ≢ 0 → (s == 0) ≡ false
not_zero s h = ground arith

-- The bits that a rotation puts behind each other, where `w * v` is 2 ^ 64.
turned :
    (x w v k : ℕ)
    → v ≡ 2 ^ k
    → 0 < v
    → 0 < w
    → x < w * v
    → bit_or (x * v % (w * v)) (x / w) ≡ (x % w) * v + x / w
turned x w v k e pos_v pos_w h =
    ap (λ y. bit_or y (x / w)) (scaled_mod x w v pos_w pos_v)
    ∙ ap (λ y. bit_or ((x % w) * y) (x / w)) e
    ∙ bit_or-above k (x % w) (x / w)
        (subst (λ y. x / w < y) e ((div-lt_iff_lt-mul pos_w).1 (subst (λ y. x < y) (swap w v) h)))
    ∙ ap (λ y. (x % w) * y + x / w) (sym e)
  where
    swap : (w v : ℕ) → w * v ≡ v * w
    swap w v = omega arith

within : (a q w v : ℕ) → a < w → q < v → a * v + q < w * v
within a q w v h l =
    let parts : w ≡ a + 1 + (w - (a + 1)) = omega (arith, h) in
    subst (λ x. a * v + q < x * v) (sym parts) (room a q v (w - (a + 1)) l)
  where
    room : (a q v t : ℕ) → q < v → a * v + q < (a + 1 + t) * v
    room a q v t l = omega (arith, l)

-- The low part of what `turned` gives is the high part of before, and the other way round.
back : (a q w v : ℕ) → 0 < v → q < v → ((a * v + q) % v) * w + (a * v + q) / v ≡ q * w + a
back a q w v pos l =
    ap (λ x. x * w + (a * v + q) / v) (mul-add-mod_self_right a v q ∙ mod-eq_of_lt l)
    ∙ ap (λ x. q * w + x) (mul-add-div_right pos a q ∙ ap (λ x. a + x) (div-eq_of_lt l) ∙ plain a)
  where
    plain : (a : ℕ) → a + 0 ≡ a
    plain a = omega arith

-- `BitsArrRotR` undoes `BitsArrRotL` by as many steps, on an array of 64 bits and where the steps are
-- no multiple of 64.
pub rot_l-rot_r :
    (arr steps : ℕ)
    → arr < 2 ^ 64
    → steps % 64 ≢ 0
    → (rot_l arr steps >>= λ r. rot_r r steps) ≡ some arr
unfolding rot_l rot_r
rot_l-rot_r arr steps h some_steps =
    let s = steps % 64 in
    let v = 2 ^ (steps % 64) in
    let w = 2 ^ (64 - steps % 64) in
    let both : 2 ^ 64 ≡ 2 ^ (64 - steps % 64) * 2 ^ (steps % 64) =
      ap (λ x. 2 ^ x) (parts (steps % 64) (omega arith))
      ∙ power_split (64 - steps % 64) (steps % 64) in
    let swapped : 2 ^ 64 ≡ 2 ^ (steps % 64) * 2 ^ (64 - steps % 64) = both ∙ swap w v in
    let low : arr % w < w = mod-lt arr (power_pos (64 - s)) in
    let high : arr / w < v =
      (div-lt_iff_lt-mul (power_pos (64 - s))).1 (subst (λ y. arr < y) swapped h) in
    let left : bit_or (arr * v % 2 ^ 64) (arr / w) ≡ (arr % w) * v + arr / w =
      ap (λ x. bit_or (arr * v % x) (arr / w)) both
      ∙ turned arr w v s refl (power_pos s) (power_pos (64 - s)) (subst (λ y. arr < y) both h) in
    let r = (arr % w) * v + arr / w in
    let small : r < v * w =
      subst (λ y. r < y) (swap w v) (within (arr % w) (arr / w) w v low high) in
    let right : bit_or (r * w % 2 ^ 64) (r / v) ≡ (r % v) * w + r / v =
      ap (λ x. bit_or (r * w % x) (r / v)) swapped
      ∙ turned r v w (64 - s) refl (power_pos (64 - s)) (power_pos s) small in
    rw (not_zero (steps % 64) some_steps, left)
      (ap some (right ∙ back (arr % w) (arr / w) w v (power_pos s) high ∙ whole arr w))
  where
    parts : (s : ℕ) → s < 64 → 64 ≡ (64 - s) + s
    parts s h = omega (arith, h)

    swap : (w v : ℕ) → w * v ≡ v * w
    swap w v = omega arith

    whole : (x w : ℕ) → x / w * w + x % w ≡ x
    whole x w = div-add-mod' x w
