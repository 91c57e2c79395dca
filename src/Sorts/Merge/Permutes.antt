-- ===== src/Sorts/Merge/Permutes.antt =====
-- sorts.c, `MergeSort` ends and keeps the elements.
use mathlib.Core.List.{Perm}
use mathlib.Core.List.Perm
use mathlib.Core.Path.{subst}
use daher_repo.Prelude.{
  ℕ, zero, suc, ◌+◌, ◌-◌, ◌/◌, ◌≤◌, ◌<◌, ◌≡◌, refl, sym, ◌∙◌, Bool, false, List, [], ◌∷◌, ◌++◌, ℤ,
  ltb_ℤ, ◌==◌, get_elem?-some, length, length-append, length-take, length-drop, take, drop,
  take-append-drop, append-nil, arith, Bool-cases, inl, inr,
}
use daher_repo.Sorts.Elements.{Keeps}
use daher_repo.Sorts.Merge.{merge_loop, merge_by_size, merge_sort}

merge_loop-perm : (xs ys : List ℤ) → Perm (merge_loop xs ys) (xs ++ ys)
unfolding merge_loop
merge_loop-perm [] ys = Perm.refl ys
merge_loop-perm (x ∷ xs) [] = subst (λ t. Perm (x ∷ xs) t) (sym (append-nil (x ∷ xs))) (Perm.refl _)
merge_loop-perm (x ∷ xs) (y ∷ ys) = elim (Bool-cases (ltb_ℤ x y)) [
  | inl less ↦ rw less (Perm.cons x (merge_loop-perm xs (y ∷ ys)))
  | inr more ↦
      rw more
        (Perm.trans (Perm.cons y (merge_loop-perm (x ∷ xs) ys)) (Perm.symm (middle (x ∷ xs) y ys)))
]
  where
    middle : (us : List ℤ) (v : ℤ) (vs : List ℤ) → Perm (us ++ (v ∷ vs)) (v ∷ (us ++ vs))
    middle [] v vs = Perm.refl _
    middle (u ∷ us) v vs = Perm.trans (Perm.cons u (middle us v vs)) (Perm.swap v u (us ++ vs))

merge_loop-length : (xs ys : List ℤ) → length (merge_loop xs ys) ≡ length xs + length ys
unfolding merge_loop
merge_loop-length [] ys = omega arith
merge_loop-length (x ∷ xs) [] = omega arith
merge_loop-length (x ∷ xs) (y ∷ ys) = elim (Bool-cases (ltb_ℤ x y)) [
  | inl less ↦ rw less (omega (arith, merge_loop-length xs (y ∷ ys)))
  | inr more ↦ rw more (omega (arith, merge_loop-length (x ∷ xs) ys))
]

merge_by_size_lem :
    (memory : ℕ → Bool) (xs ys : List ℤ)
    → 0 < length xs
    → 0 < length ys
    → Keeps (merge_by_size memory xs ys) (xs ++ ys)
unfolding merge_by_size
merge_by_size_lem memory xs ys h k =
    let (y, at) = get_elem?-some ys 0 k in
    let (x, last) = get_elem?-some xs (length xs - 1) (omega arith) in
    elim (Bool-cases (ltb_ℤ x y)) [
      | inl ordered ↦ (xs ++ ys, rw (at, last, ordered), Perm.refl _, refl)
      | inr mixed ↦ elim (Bool-cases (memory (length xs + length ys))) [
        | inl there ↦ (
          merge_loop xs ys,
          rw (at, last, mixed, there),
          merge_loop-perm xs ys,
          merge_loop-length xs ys ∙ sym (length-append xs ys),
        )
        | inr missing ↦ (xs ++ ys, rw (at, last, mixed, missing), Perm.refl _, refl)
      ]
    ]

-- With as much fuel as elements, `MergeSort` of an array that is not empty ends, stays inside of the
-- array, and keeps the elements, with and without memory.
pub merge_sort-perm :
    (memory : ℕ → Bool) (fuel : ℕ) (xs : List ℤ)
    → 0 < length xs
    → length xs ≤ fuel
    → Keeps (merge_sort memory fuel xs) xs
unfolding merge_sort
merge_sort-perm memory zero xs h f = let bad : 1 ≤ 0 = omega arith in elim bad [ ]
merge_sort-perm memory (suc fuel) xs h f = elim (Bool-cases (length xs == 1)) [
  | inl one ↦ (xs, rw one, Perm.refl xs, refl)
  | inr more ↦
      let several : 2 ≤ length xs = at_least_two (length xs) h more in
      let half = length xs / 2 in
      let low_length : length (take half xs) ≡ half = length-take half xs ∙ omega arith in
      let high_length : length (drop half xs) ≡ length xs - half = length-drop half xs in
      let (low, e, p, l) =
        merge_sort-perm memory fuel (take half xs) (omega (arith, low_length))
          (omega (arith, low_length)) in
      let (high, d, q, m) =
        merge_sort-perm memory fuel (drop half xs) (omega (arith, high_length))
          (omega (arith, high_length)) in
      let (ys, r, s, n) =
        merge_by_size_lem memory low high (omega (arith, l, low_length))
          (omega (arith, m, high_length)) in
      (
        ys,
        rw (more, e, d, r),
        subst (λ t. Perm ys t) (take-append-drop half xs) (Perm.trans s (Perm.append p q)),
        omega (arith, n, l, m, low_length, high_length, length-append low high),
      )
]
  where
    at_least_two : (k : ℕ) → 0 < k → (k == 1) ≡ false → 2 ≤ k
    at_least_two k h ne = ground arith
