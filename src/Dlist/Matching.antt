-- ===== src/Dlist/Matching.antt =====
-- dlist.c: what a search finds, on the data of a list.
use daher_repo.Prelude.{
  ℕ, suc, length, ◌≤◌, arith, ◌≡◌, refl, ap, Bool, false, Option, none, some, List, [], ◌∷◌, ◌++◌,
  if◌then◌else◌, inl, inr, Bool-cases, ℤ, is_zero,
}
use daher_repo.Dlist.View.{data_of, datum_at}
use daher_repo.Dlist.Walking.{from_first, passed}

module _ {ℓ} {A : Type ℓ} where
  -- a list behind its first cell, and with other data in it
  abbrev pub behind_first : List (ℕ × A) → List (ℕ × A)
  behind_first [] = []
  behind_first (x ∷ xs) = xs

  abbrev pub with_first : ℕ → A → List (ℕ × A) → List (ℕ × A)
  with_first a d [] = (a, d) ∷ []
  with_first a d (x ∷ xs) = (x.0, d) ∷ xs

module _ {ℓ κ} {A : Type ℓ} {B : Type κ} (is_match : A → B → ℤ) (key : B) where
  -- the first match of a list, and the list without it
  abbrev pub first_match : List A → Option A
  first_match [] = none
  first_match (x ∷ xs) =
      let behind = first_match xs in if is_zero (is_match x key) then behind else some x

  abbrev pub without_match : List A → List A
  without_match [] = []
  without_match (x ∷ xs) =
      let behind = without_match xs in if is_zero (is_match x key) then x ∷ behind else xs

  -- the list with the data in the place of the first match, or else at its end
  abbrev pub put_in : A → List A → List A
  put_in d [] = d ∷ []
  put_in d (x ∷ xs) =
      let behind = put_in d xs in if is_zero (is_match x key) then x ∷ behind else d ∷ xs

  -- a search that goes on while nothing matches
  abbrev pub misses : A → Bool
  misses x = is_zero (is_match x key)

  pub first_match_lem :
      (xs : List (ℕ × A)) → first_match (data_of xs) ≡ datum_at (from_first misses xs)
  first_match_lem [] = refl
  first_match_lem (x ∷ xs) = elim (Bool-cases (is_zero (is_match x.1 key))) [
    | inl t ↦ rw t (first_match_lem xs)
    | inr f ↦ rw f refl
  ]

  pub without_match_lem :
      (xs : List (ℕ × A))
      → data_of (passed misses xs ++ behind_first (from_first misses xs))
        ≡ without_match (data_of xs)
  without_match_lem [] = refl
  without_match_lem (x ∷ xs) = elim (Bool-cases (is_zero (is_match x.1 key))) [
    | inl t ↦ rw t (ap (λ r. x.1 ∷ r) (without_match_lem xs))
    | inr f ↦ rw f refl
  ]

  pub put_in_lem :
      (a : ℕ) (d : A) (xs : List (ℕ × A))
      → data_of (passed misses xs ++ with_first a d (from_first misses xs)) ≡ put_in d (data_of xs)
  put_in_lem a d [] = refl
  put_in_lem a d (x ∷ xs) = elim (Bool-cases (is_zero (is_match x.1 key))) [
    | inl t ↦ rw t (ap (λ r. x.1 ∷ r) (put_in_lem a d xs))
    | inr f ↦ rw f refl
  ]

  -- Data that match are found once they are put in.
  pub first_match-put_in :
      (d : A) (xs : List A) → is_zero (is_match d key) ≡ false → first_match (put_in d xs) ≡ some d
  first_match-put_in d [] m = rw m refl
  first_match-put_in d (x ∷ xs) m = elim (Bool-cases (is_zero (is_match x key))) [
    | inl t ↦ rw (t, t) (first_match-put_in d xs m)
    | inr f ↦ rw (f, m) refl
  ]

  pub length-put_in : (d : A) (xs : List A) → length (put_in d xs) ≤ suc (length xs)
  length-put_in d [] = omega arith
  length-put_in d (x ∷ xs) = elim (Bool-cases (is_zero (is_match x key))) [
    | inl t ↦ let shorter = length-put_in d xs in rw t (omega arith)
    | inr f ↦ rw f (omega arith)
  ]
