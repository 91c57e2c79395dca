-- ===== src/BitArray/Tests.antt =====
-- bit_array.c on fixed arrays.
use daher_repo.Prelude.{◌≡◌, refl, some, ◌>>=◌, arith}
use daher_repo.BitArray.{
  set_on, set_off, get_val, mask, rot_l, rot_r, count_on, mirror, exchange, mirror_lut,
  mirror_lut_from, arr_lut_mirror,
}
use daher_repo.BitArray.Counting.{ones, count_on-ones}
use daher_repo.BitArray.Rotating.{rot_l-rot_r}

switched : (set_on 8 3 >>= λ arr. set_off arr 4) ≡ some 4
unfolding set_on set_off mask
switched = refl

valued : get_val 12 4 ≡ some 1
unfolding get_val mask
valued = refl

mirrored : some (mirror 0xD3) ≡ mirror_lut 0xD3
unfolding mirror exchange mirror_lut mirror_lut_from arr_lut_mirror
mirrored = refl

count_on-ones_example : count_on 0xD3 ≡ some (ones 64 0xD3)
count_on-ones_example = count_on-ones 0xD3 (omega arith)

rot_l-rot_r_example : (rot_l 0xD3 61 >>= λ r. rot_r r 61) ≡ some 0xD3
rot_l-rot_r_example = rot_l-rot_r 0xD3 61 (omega arith) (λ e. absurd (omega (arith, e)))
