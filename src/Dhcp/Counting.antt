-- ===== src/Dhcp/Counting.antt =====
-- dhcp.c, `CountOccupied`: it counts the addresses that are taken.
use daher_repo.Prelude.{
  ℕ, zero, suc, ◌+◌, ◌^◌, ◌<◌, ◌≡◌, ◌∙◌, refl, sym, ap, ap₂, Bool, true, false, not, ◌&&◌, ◌==◌,
  if◌then◌else◌, arith, sub_word,
}
use native.Mathlib.Nat.{add-mod_right}
use daher_repo.Dhcp.{Node, null, node, zeroth, first, count_occupied}
use daher_repo.Dhcp.Bits.{low_direction, high_direction, power_suc}
use daher_repo.Dhcp.Trie.{is_taken, is_taken_at, is_taken_low, IsTrie}

-- how many numbers below a bound pass a test
abbrev pub count_below : ℕ → (ℕ → Bool) → ℕ
count_below zero p = 0
count_below (suc m) p = (if p m then 1 else 0) + count_below m p

pub count_below_cong :
    (m : ℕ) (p q : ℕ → Bool) → ((j : ℕ) → j < m → p j ≡ q j) → count_below m p ≡ count_below m q
count_below_cong zero p q h = refl
count_below_cong (suc m) p q h =
    ap₂ (λ b x. (if b then 1 else 0) + x) (h m (omega arith))
      (count_below_cong m p q (λ j l. h j (omega (arith, l))))

count_below_none : (m : ℕ) → count_below m (λ j. false) ≡ 0
count_below_none zero = refl
count_below_none (suc m) = omega (arith, count_below_none m)

count_below_split :
    (m w : ℕ) (p : ℕ → Bool)
    → count_below (m + w) p ≡ count_below w p + count_below m (λ i. p (i + w))
count_below_split zero w p = ap (λ x. count_below x p) (plain w) ∙ plus_none (count_below w p)
  where
    plain : (w : ℕ) → 0 + w ≡ w
    plain w = omega arith

    plus_none : (x : ℕ) → x ≡ x + 0
    plus_none x = omega arith
count_below_split (suc m) w p =
    ap (λ x. count_below x p) (next m w)
    ∙ ap (λ x. (if p (m + w) then 1 else 0) + x) (count_below_split m w p)
    ∙ regroup (if p (m + w) then 1 else 0) (count_below w p) (count_below m (λ i. p (i + w)))
  where
    next : (m w : ℕ) → suc m + w ≡ suc (m + w)
    next m w = omega arith

    regroup : (a b c : ℕ) → a + (b + c) ≡ b + (a + c)
    regroup a b c = omega arith

-- The tests that pass and those that fail are all.
pub count_below-not : (m : ℕ) (p : ℕ → Bool) → count_below m p + count_below m (λ j. not (p j)) ≡ m
count_below-not zero p = refl
count_below-not (suc m) p =
    each (p m) (count_below m p) (count_below m (λ j. not (p j))) m (count_below-not m p)
  where
    each :
        (b : Bool) (x y m : ℕ)
        → x + y ≡ m
        → ((if b then 1 else 0) + x) + ((if not b then 1 else 0) + y) ≡ suc m
    each true x y m e = omega (arith, e)
    each false x y m e = omega (arith, e)

lower_half :
    (k : ℕ) (z o : Node) (f : Bool)
    → count_below (2 ^ k) (λ j. is_taken z j k)
      ≡ count_below (2 ^ k) (λ j. is_taken (node z o f) j (suc k))
lower_half k z o f =
    count_below_cong (2 ^ k) _ _ (λ j h. sym (is_taken_at z o f j k zeroth (low_direction j k h)))

upper_half :
    (k : ℕ) (z o : Node) (f : Bool)
    → count_below (2 ^ k) (λ j. is_taken o j k)
      ≡ count_below (2 ^ k) (λ i. is_taken (node z o f) (i + 2 ^ k) (suc k))
upper_half k z o f = count_below_cong (2 ^ k) _ _ (λ j h. sym (
    is_taken_at z o f (j + 2 ^ k) k first (high_direction j k h)
    ∙ is_taken_low k o (j + 2 ^ k) j (add-mod_right j (2 ^ k))))

halves :
    (k : ℕ) (z o : Node) (f : Bool)
    → count_below (2 ^ k) (λ j. is_taken z j k) + count_below (2 ^ k) (λ j. is_taken o j k)
      ≡ count_below (2 ^ suc k) (λ j. is_taken (node z o f) j (suc k))
halves k z o f =
    ap₂ (λ x y. x + y) (lower_half k z o f) (upper_half k z o f)
    ∙ sym (count_below_split (2 ^ k) (2 ^ k) (λ j. is_taken (node z o f) j (suc k)))
    ∙ ap (λ x. count_below x (λ j. is_taken (node z o f) j (suc k))) (sym (power_suc k))

-- Where the flags are right, `CountOccupied` counts the addresses that are taken.
pub count_occupied_lem :
    (n : ℕ) (t : Node)
    → IsTrie n t
    → n < 2 ^ 64
    → count_occupied t n ≡ count_below (2 ^ n) (λ j. is_taken t j n)
unfolding count_occupied
count_occupied_lem n null w h = sym (unfold is_taken in count_below_none (2 ^ n))
count_occupied_lem zero (node z o true) w h = unfold is_taken in refl
count_occupied_lem zero (node z o false) w h =
    unfold is_taken in
    ap₂ (λ z o. count_occupied z (sub_word 0 1) + count_occupied o (sub_word 0 1)) w.0 w.1
count_occupied_lem (suc k) (node z o f) w h =
    let back : sub_word (suc k) 1 ≡ k = omega (arith, h) in
    rw (positive k f, back)
      (ap₂ (λ x y. x + y) (count_occupied_lem k z w.0 (omega (arith, h)))
          (count_occupied_lem k o w.1 (omega (arith, h)))
        ∙ halves k z o f)
  where
    positive : (k : ℕ) (f : Bool) → ((suc k == 0) && f) ≡ false
    positive k f = ground arith
