-- ===== src/Prelude/Sorted.antt =====
-- Lists in the order of a comparison callback, and insertion into one: the specification of the
-- ordered containers.
use mathlib.Core.Path.{◌≡◌, refl, ap, ◌∙◌}
use mathlib.Core.Bool.{true}
use mathlib.Core.List.{List, [], ◌∷◌, ◌++◌}
use mathlib.Core.Logic.{inl, inr}
use daher_repo.Prelude.Tests.{if◌then◌else◌, Bool-cases}
use daher_repo.Prelude.Int.{ℤ, is_pos}
use daher_repo.Prelude.Compare.{Leq, IsOrder}

abbrev pub All {ℓ κ} : {A : Type ℓ} → (A → Type κ) → List A → Type κ
All P [] = Unit
All P (x ∷ xs) = P x × All P xs

module _ {ℓ κ} {A : Type ℓ} where
  pub All-append : (P : A → Type κ) (xs ys : List A) → All P xs → All P ys → All P (xs ++ ys)
  All-append P [] ys p q = q
  All-append P (x ∷ xs) ys p q = (p.0, All-append P xs ys p.1 q)

  pub All-of_append : (P : A → Type κ) (xs ys : List A) → All P (xs ++ ys) → All P xs × All P ys
  All-of_append P [] ys p = (tt, p)
  All-of_append P (x ∷ xs) ys p = let (a, b) = All-of_append P xs ys p.1 in ((p.0, a), b)

  pub All-imp {μ} :
      {P : A → Type κ} {Q : A → Type μ}
      → ((x : A) → P x → Q x)
      → (xs : List A) → All P xs
      → All Q xs
  All-imp f [] p = tt
  All-imp f (x ∷ xs) p = (f x p.0, All-imp f xs p.1)

module _ {ℓ} {A : Type ℓ} (cmp : A → A → ℤ) where
  abbrev pub IsSorted : List A → Type 0
  IsSorted [] = Unit
  IsSorted (x ∷ xs) = All (Leq cmp x) xs × IsSorted xs

  -- `d` goes behind all that is not greater.
  unfoldable pub insert_sorted : A → List A → List A
  insert_sorted d [] = d ∷ []
  insert_sorted d (x ∷ xs) = if is_pos (cmp x d) then d ∷ x ∷ xs else x ∷ insert_sorted d xs

  pub insert_sorted-append_left :
      (d x : A) (xs ys : List A)
      → is_pos (cmp x d) ≡ true
      → insert_sorted d (xs ++ (x ∷ ys)) ≡ insert_sorted d xs ++ (x ∷ ys)
  unfolding insert_sorted
  insert_sorted-append_left d x [] ys p = rw p
  insert_sorted-append_left d x (z ∷ xs) ys p = elim (Bool-cases (is_pos (cmp z d))) [
    | inl q ↦ rw q
    | inr q ↦ rw q (ap (λ t. z ∷ t) (insert_sorted-append_left d x xs ys p))
  ]

  pub insert_sorted-append_right :
      (d : A) (xs ys : List A)
      → All (λ y. Leq cmp y d) xs
      → insert_sorted d (xs ++ ys) ≡ xs ++ insert_sorted d ys
  unfolding insert_sorted
  insert_sorted-append_right d [] ys h = refl
  insert_sorted-append_right d (z ∷ xs) ys h =
      rw h.0 (ap (λ t. z ∷ t) (insert_sorted-append_right d xs ys h.1))

  pub insert_sorted-behind :
      IsOrder cmp
      → (d x : A) (xs ys : List A) → Leq cmp x d
      → All (λ y. Leq cmp y x) xs
      → insert_sorted d (xs ++ (x ∷ ys)) ≡ xs ++ (x ∷ insert_sorted d ys)
  unfolding insert_sorted
  insert_sorted-behind o d x xs ys p low =
      insert_sorted-append_right d xs (x ∷ ys) (All-imp (λ y q. o.leq_trans y x d q p) xs low)
      ∙ rw p

  pub IsSorted-parts :
      (xs : List A) (x : A) (ys : List A)
      → IsSorted (xs ++ (x ∷ ys))
      → IsSorted xs × All (λ y. Leq cmp y x) xs × All (Leq cmp x) ys × IsSorted ys
  IsSorted-parts [] x ys s = (tt, tt, s.0, s.1)
  IsSorted-parts (z ∷ xs) x ys s =
      let (a, b, c, d) = IsSorted-parts xs x ys s.1 in
      let (low, high) = All-of_append (Leq cmp z) xs (x ∷ ys) s.0 in ((low, a), (high.0, b), c, d)

  All-insert_sorted {μ} :
      (P : A → Type μ) (d : A) (xs : List A) → P d → All P xs → All P (insert_sorted d xs)
  unfolding insert_sorted
  All-insert_sorted P d [] p h = (p, tt)
  All-insert_sorted P d (x ∷ xs) p h = elim (Bool-cases (is_pos (cmp x d))) [
    | inl q ↦ rw q (p, (h.0, h.1))
    | inr q ↦ rw q (h.0, All-insert_sorted P d xs p h.1)
  ]

  pub insert_sorted-IsSorted :
      IsOrder cmp → (d : A) (xs : List A) → IsSorted xs → IsSorted (insert_sorted d xs)
  unfolding insert_sorted
  insert_sorted-IsSorted o d [] s = (tt, tt)
  insert_sorted-IsSorted o d (x ∷ xs) s = elim (Bool-cases (is_pos (cmp x d))) [
    | inl q ↦
        rw q ((o.asym x d q, All-imp (λ y. o.leq_trans d x y (o.asym x d q)) xs s.0), (s.0, s.1))
    | inr q ↦ rw q (All-insert_sorted (Leq cmp x) d xs q s.0, insert_sorted-IsSorted o d xs s.1)
  ]
