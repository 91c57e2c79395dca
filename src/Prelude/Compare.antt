-- ===== src/Prelude/Compare.antt =====
-- Comparison callbacks (`cmp_func`): what the containers rely on when they call one. The headers
-- document 0 for equal data, a positive result for a greater and a negative for a smaller first one.
use mathlib.Core.Path.{◌≡◌}
use mathlib.Core.Bool.{true, false}
use Prim.Native.Nat.{ℕ}
use native.Mathlib.Omega.{arith}
use daher_repo.Prelude.Int.{ℤ, is_pos, is_neg, sub_ℕ}

module _ {ℓ} {A : Type ℓ} (cmp : A → A → ℤ) where
  -- The first is not greater than the second.
  abbrev pub Leq : A → A → Type 0
  Leq a b = is_pos (cmp a b) ≡ false

  pub record IsOrder : Type ℓ where
    pub asym : (a b : A) → is_pos (cmp a b) ≡ true → is_pos (cmp b a) ≡ false
    pub leq_trans : (a b c : A) → Leq a b → Leq b c → Leq a c
    pub neg_swap : (a b : A) → is_neg (cmp a b) ≡ is_pos (cmp b a)

-- `*(int *)data - *(int *)data_to_compare`, the comparison the tests of this repository pass
pub nat_order : IsOrder {A = ℕ} sub_ℕ
unfolding sub_ℕ
nat_order = record {
  asym = λ a b. ground arith;
  leq_trans = λ a b c. ground arith;
  neg_swap = λ a b. ground arith;
}
