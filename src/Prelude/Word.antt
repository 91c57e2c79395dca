-- ===== src/Prelude/Word.antt =====
-- `size_t` as a number below 2 ^ 64, with the wrap-around of its sums and differences written out.
use Prim.Native.Nat.{ℕ, ◌+◌, ◌-◌, ◌*◌, ◌%◌, ◌^◌, ◌≤◌, ◌<◌}
use mathlib.Core.Path.{◌≡◌, ◌∙◌}
use mathlib.Core.Logic.{◌⊎◌, inl, inr}
use native.Mathlib.Decide.{dec_lt}
use native.Mathlib.Nat.{mod-eq_of_lt, mod-eq-sub-mod}
use native.Mathlib.Omega.{arith}

abbrev pub word_mod : ℕ
word_mod = 2 ^ 64

abbrev pub add_word : ℕ → ℕ → ℕ
add_word a b = (a + b) % 2 ^ 64

abbrev pub sub_word : ℕ → ℕ → ℕ
sub_word a b = (a + (2 ^ 64 - b % 2 ^ 64)) % 2 ^ 64

abbrev pub mul_word : ℕ → ℕ → ℕ
mul_word a b = (a * b) % 2 ^ 64

pub mod_below : (x c : ℕ) → x < c → x % c ≡ x
mod_below x c h = mod-eq_of_lt h

pub mod_above : (x c : ℕ) → c ≤ x → x < c + c → x % c ≡ x - c
mod_above x c h k =
    mod-eq-sub-mod {n = x} {m = c} h ∙ mod-eq_of_lt {n = x - c} {m = c} (omega arith)

pub place_cases : (x c : ℕ) → x < c + c → ((x < c) × (x % c ≡ x)) ⊎ ((c ≤ x) × (x % c ≡ x - c))
place_cases x c h = elim (dec_lt x c) [
  | yes p ↦ inl (p, mod_below x c p)
  | no p ↦ inr (omega arith, mod_above x c (omega arith) h)
]
