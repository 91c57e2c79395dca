-- ===== src/Sorts/Merge/Ordered.antt =====
-- sorts.c, `MergeSort` orders the elements where its `malloc` succeeds.
use mathlib.Core.List.{Perm}
use mathlib.Core.Path.{subst}
use daher_repo.Prelude.{
  ℕ, zero, suc, ◌+◌, ◌-◌, ◌/◌, ◌≤◌, ◌<◌, ◌≡◌, ◌∙◌, Bool, true, false, some, List, [], ◌∷◌, ◌++◌, ℤ,
  ltb_ℤ, ◌==◌, get_elem?, get_elem?-some, length, length-take, length-drop, take, drop, arith,
  Bool-cases, ==→eq, inl, inr, All, All-append, All-imp, some_inj,
}
use daher_repo.Sorts.Ascending.{AtMost, IsAscending, AtMost-trans, AtMost-of_lt, AtMost-refl}
use daher_repo.Sorts.Merge.{merge_loop, merge_by_size, merge_sort}
use daher_repo.Sorts.Merge.Permutes.{merge_sort-perm}

All-merge_loop : (P : ℤ → Type 0) (xs ys : List ℤ) → All P xs → All P ys → All P (merge_loop xs ys)
unfolding merge_loop
All-merge_loop P [] ys p q = q
All-merge_loop P (x ∷ xs) [] p q = p
All-merge_loop P (x ∷ xs) (y ∷ ys) p q = elim (Bool-cases (ltb_ℤ x y)) [
  | inl less ↦ rw less (p.0, All-merge_loop P xs (y ∷ ys) p.1 q)
  | inr more ↦ rw more (q.0, All-merge_loop P (x ∷ xs) ys p q.1)
]

merge_loop-IsAscending :
    (xs ys : List ℤ) → IsAscending xs → IsAscending ys → IsAscending (merge_loop xs ys)
unfolding merge_loop
merge_loop-IsAscending [] ys a b = b
merge_loop-IsAscending (x ∷ xs) [] a b = a
merge_loop-IsAscending (x ∷ xs) (y ∷ ys) a b = elim (Bool-cases (ltb_ℤ x y)) [
  | inl less ↦
      let low : AtMost x y = AtMost-of_lt x y less in
      rw less (
        All-merge_loop (AtMost x) xs (y ∷ ys) a.0
            (low, All-imp (λ z l. AtMost-trans x y z low l) ys b.0),
        merge_loop-IsAscending xs (y ∷ ys) a.1 b,
      )
  | inr more ↦ rw more (
    All-merge_loop (AtMost y) (x ∷ xs) ys (more, All-imp (λ z l. AtMost-trans y x z more l) xs a.0)
        b.0,
    merge_loop-IsAscending (x ∷ xs) ys a b.1,
  )
]

-- All are at most the last element.
All-last :
    (xs : List ℤ) (n : ℕ) (x : ℤ)
    → IsAscending xs
    → length xs ≡ suc n
    → get_elem? xs n ≡ some x
    → All (λ z. AtMost z x) xs
All-last [] n x a l e = tt
All-last (z ∷ []) zero x a l e = (subst (AtMost z) (some_inj e) (AtMost-refl z), tt)
All-last (z ∷ []) (suc n) x a l e = let bad : 1 ≤ 0 = omega (arith, l) in elim bad [ ]
All-last (z ∷ y ∷ xs) zero x a l e = let bad : 1 ≤ 0 = omega (arith, l) in elim bad [ ]
All-last (z ∷ y ∷ xs) (suc n) x a l e =
    let rest = All-last (y ∷ xs) n x a.1 (omega (arith, l)) e in
    (AtMost-trans z y x a.0.0 rest.0, rest)

IsAscending-append :
    (xs ys : List ℤ) (x : ℤ)
    → IsAscending xs
    → IsAscending ys
    → All (λ z. AtMost z x) xs
    → All (AtMost x) ys
    → IsAscending (xs ++ ys)
IsAscending-append [] ys x a b l h = b
IsAscending-append (z ∷ xs) ys x a b l h = (
  All-append (AtMost z) xs ys a.0 (All-imp (λ w k. AtMost-trans z x w l.0 k) ys h),
  IsAscending-append xs ys x a.1 b l.1 h,
)

merge_by_size-IsAscending :
    (memory : ℕ → Bool) (xs ys zs : List ℤ)
    → ((n : ℕ) → memory n ≡ true)
    → 0 < length xs
    → 0 < length ys
    → IsAscending xs
    → IsAscending ys
    → merge_by_size memory xs ys ≡ some zs
    → IsAscending zs
unfolding merge_by_size
merge_by_size-IsAscending memory xs [] zs works h k a b e = elim k [ ]
merge_by_size-IsAscending memory xs (y ∷ ys) zs works h k a b e =
    let (x, last) = get_elem?-some xs (length xs - 1) (omega arith) in
    elim (Bool-cases (ltb_ℤ x y)) [
      | inl ordered ↦
          let low : AtMost x y = AtMost-of_lt x y ordered in
          let whole : xs ++ (y ∷ ys) ≡ zs = some_inj (rw (last, ordered) at e) in
          subst IsAscending whole (
            IsAscending-append xs (y ∷ ys) x a b
              (All-last xs (length xs - 1) x a (omega arith) last)
              (low, All-imp (λ z l. AtMost-trans x y z low l) ys b.0))
      | inr mixed ↦
          let whole : merge_loop xs (y ∷ ys) ≡ zs =
            some_inj (rw (last, mixed, works (length xs + length (y ∷ ys))) at e) in
          subst IsAscending whole (merge_loop-IsAscending xs (y ∷ ys) a b)
    ]

-- An array of one element is in order.
one-IsAscending : (xs : List ℤ) → length xs ≡ 1 → IsAscending xs
one-IsAscending [] l = tt
one-IsAscending (x ∷ []) l = (tt, tt)
one-IsAscending (x ∷ y ∷ xs) l = let bad : 1 ≤ 0 = omega (arith, l) in elim bad [ ]

ordered :
    (memory : ℕ → Bool) (fuel : ℕ) (xs ys : List ℤ)
    → ((n : ℕ) → memory n ≡ true)
    → 0 < length xs
    → length xs ≤ fuel
    → merge_sort memory fuel xs ≡ some ys
    → IsAscending ys
unfolding merge_sort
ordered memory zero xs ys works h f e = let bad : 1 ≤ 0 = omega arith in elim bad [ ]
ordered memory (suc fuel) xs ys works h f e = elim (Bool-cases (length xs == 1)) [
  | inl one ↦
      let same : xs ≡ ys = some_inj (rw one at e) in
      subst IsAscending same (one-IsAscending xs (==→eq (length xs) 1 one))
  | inr more ↦
      let several : 2 ≤ length xs = at_least_two (length xs) h more in
      let half = length xs / 2 in
      let low_length : length (take half xs) ≡ half = length-take half xs ∙ omega arith in
      let high_length : length (drop half xs) ≡ length xs - half = length-drop half xs in
      let (low, d, p, l) =
        merge_sort-perm memory fuel (take half xs) (omega (arith, low_length))
          (omega (arith, low_length)) in
      let (high, g, q, m) =
        merge_sort-perm memory fuel (drop half xs) (omega (arith, high_length))
          (omega (arith, high_length)) in
      merge_by_size-IsAscending memory low high ys works (omega (arith, l, low_length))
        (omega (arith, m, high_length))
        (ordered memory fuel (take half xs) low works (omega (arith, low_length))
          (omega (arith, low_length)) d)
        (ordered memory fuel (drop half xs) high works (omega (arith, high_length))
          (omega (arith, high_length)) g)
        (rw (more, d, g) at e)
]
  where
    at_least_two : (k : ℕ) → 0 < k → (k == 1) ≡ false → 2 ≤ k
    at_least_two k h ne = ground arith

-- With as much fuel as elements, and with memory, `MergeSort` of an array that is not empty ends, stays
-- inside of the array, and leaves the same elements in ascending order.
pub merge_sort-IsAscending :
    (memory : ℕ → Bool) (fuel : ℕ) (xs : List ℤ)
    → ((n : ℕ) → memory n ≡ true)
    → 0 < length xs
    → length xs ≤ fuel
    → (ys : List ℤ) × (merge_sort memory fuel xs ≡ some ys) × IsAscending ys × Perm ys xs
merge_sort-IsAscending memory fuel xs works h f =
    let (ys, e, p, _) = merge_sort-perm memory fuel xs h f in
    (ys, e, ordered memory fuel xs ys works h f e, p)
