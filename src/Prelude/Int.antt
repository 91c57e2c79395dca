-- ===== src/Prelude/Int.antt =====
-- The C type `int`, as an integer over the native numbers: what callbacks return and what the
-- height field of an AVL node holds.
use Prim.Native.Nat.{ℕ, zero, suc, ◌+◌, ◌-◌, ◌%◌, ◌^◌, ◌≤◌, ◌<◌}
use mathlib.Core.Path.{◌≡◌}
use native.Mathlib.Omega.{arith}
use mathlib.Core.Bool.{Bool, true, false}
use daher_repo.Prelude.Tests.{ltb, leb, ◌==◌, if◌then◌else◌}

-- `negsuc n` is -(n + 1).
pub data ℤ : Type 0 where
  pos : ℕ → ℤ
  negsuc : ℕ → ℤ

abbrev pub pos_part : ℤ → ℕ
pos_part (pos n) = n
pos_part (negsuc n) = 0

abbrev pub neg_part : ℤ → ℕ
neg_part (pos n) = 0
neg_part (negsuc n) = suc n

-- a - b, as an integer.
unfoldable pub sub_ℕ : ℕ → ℕ → ℤ
sub_ℕ a b = if leb b a then pos (a - b) else negsuc (b - a - 1)

unfoldable pub ltb_ℤ : ℤ → ℤ → Bool
ltb_ℤ a b = ltb (pos_part a + neg_part b) (pos_part b + neg_part a)

-- `0 < z`, `z < 0` and `0 == z`.
abbrev pub is_pos : ℤ → Bool
is_pos (pos n) = ltb 0 n
is_pos (negsuc n) = false

abbrev pub is_neg : ℤ → Bool
is_neg (pos n) = false
is_neg (negsuc n) = true

abbrev pub is_zero : ℤ → Bool
is_zero (pos n) = n == 0
is_zero (negsuc n) = false

-- Tests of a difference `a - b` against 1, 0 and -1.
pub sub_ℕ_not_above : (a b : ℕ) → a ≤ b + 1 → ltb_ℤ (pos 1) (sub_ℕ a b) ≡ false
unfolding sub_ℕ ltb_ℤ
sub_ℕ_not_above a b h = ground arith

pub sub_ℕ_above : (a b : ℕ) → b + 2 ≤ a → ltb_ℤ (pos 1) (sub_ℕ a b) ≡ true
unfolding sub_ℕ ltb_ℤ
sub_ℕ_above a b h = ground arith

pub sub_ℕ_not_below : (a b : ℕ) → b ≤ a + 1 → ltb_ℤ (sub_ℕ a b) (negsuc 0) ≡ false
unfolding sub_ℕ ltb_ℤ
sub_ℕ_not_below a b h = ground arith

pub sub_ℕ_below : (a b : ℕ) → a + 2 ≤ b → ltb_ℤ (sub_ℕ a b) (negsuc 0) ≡ true
unfolding sub_ℕ ltb_ℤ
sub_ℕ_below a b h = ground arith

pub sub_ℕ_nonneg : (a b : ℕ) → b ≤ a → ltb_ℤ (negsuc 0) (sub_ℕ a b) ≡ true
unfolding sub_ℕ ltb_ℤ
sub_ℕ_nonneg a b h = ground arith

pub sub_ℕ_neg : (a b : ℕ) → a < b → ltb_ℤ (negsuc 0) (sub_ℕ a b) ≡ false
unfolding sub_ℕ ltb_ℤ
sub_ℕ_neg a b h = ground arith

pub sub_ℕ_nonpos : (a b : ℕ) → a ≤ b → ltb_ℤ (sub_ℕ a b) (pos 1) ≡ true
unfolding sub_ℕ ltb_ℤ
sub_ℕ_nonpos a b h = ground arith

pub sub_ℕ_pos : (a b : ℕ) → b < a → ltb_ℤ (sub_ℕ a b) (pos 1) ≡ false
unfolding sub_ℕ ltb_ℤ
sub_ℕ_pos a b h = ground arith

-- `++` and `--` of an `int`, and its conversion to `size_t`.
abbrev pub suc_int : ℤ → ℤ
suc_int (pos n) = pos (suc n)
suc_int (negsuc zero) = pos 0
suc_int (negsuc (suc n)) = negsuc n

abbrev pub pred_int : ℤ → ℤ
pred_int (pos zero) = negsuc 0
pred_int (pos (suc n)) = pos n
pred_int (negsuc n) = negsuc (suc n)

abbrev pub to_word : ℤ → ℕ
to_word (pos n) = n % 2 ^ 64
to_word (negsuc n) = 2 ^ 64 - 1 - n

-- the size of an array whose last used index is the number: -1 for none
abbrev pub count_of : ℤ → ℕ
count_of (pos n) = suc n
count_of (negsuc n) = 0
