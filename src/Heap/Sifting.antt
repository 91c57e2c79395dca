-- ===== src/Heap/Sifting.antt =====
-- heap.c, `HeapIfyUp` and `HeapIfyDown`: their fuel is enough, and they keep the elements.
use mathlib.Core.List.{Perm}
use mathlib.Core.List.Perm
use daher_repo.Prelude.{
  ℕ, zero, suc, ◌+◌, ◌-◌, ◌*◌, ◌/◌, ◌≤◌, ◌<◌, ◌≡◌, refl, sym, ap, ◌∙◌, true, false, Option, some,
  some_inj, List, arith, length, get_elem?, get_elem?-some, Bool-cases, ◌==◌, inl, inr, ℤ, is_neg,
  is_pos, leb, lt→ltb, ge→ltb,
}
use mathlib.Core.Logic.{◌⊎◌}
use native.Mathlib.Decide.{dec_lt}
use daher_repo.Vector.{Vector}
use daher_repo.Vector.Contents.{IsVector, get_element_lem, size_lem}
use daher_repo.Heap.{get_parent, get_big_child, heapify_up, heapify_down}
use daher_repo.Heap.Swaps.{swap_by_index_lem}

pub leb-true : (a b : ℕ) → a ≤ b → leb a b ≡ true
leb-true a b h = ground arith

pub leb-false : (a b : ℕ) → b < a → leb a b ≡ false
leb-false a b h = ground arith

-- A run ends on a vector of the same elements.
abbrev pub Keeps {ℓ} : {A : Type ℓ} → Option (Vector A) → List A → Type ℓ
Keeps {A} o xs =
    (w : Vector A) × (ys : List A) × (o ≡ some w)
    × IsVector w ys
    × Perm ys xs
    × (length ys ≡ length xs)

get_parent-lt : (i : ℕ) → (i == 0) ≡ false → get_parent i < i
unfolding get_parent
get_parent-lt i h = rw h (omega (arith, nonzero i h))
  where
    nonzero : (k : ℕ) → (k == 0) ≡ false → 0 < k
    nonzero k z = ground arith

module _ {ℓ} {A : Type ℓ} (cmp : A → A → ℤ) where
  -- From an index inside of the vector, `HeapIfyUp` ends within index and one rounds, stays inside of
  -- the array and keeps the elements, whatever the comparison is.
  pub heapify_up_lem :
      (fuel : ℕ) (v : Vector A) (xs : List A) (index : ℕ) (d : A)
      → IsVector v xs
      → index < length xs
      → index < fuel
      → Keeps (heapify_up cmp fuel v index d) xs
  unfolding heapify_up
  heapify_up_lem zero v xs index d r h f = elim f [ ]
  heapify_up_lem (suc fuel) v xs index d r h f = elim (Bool-cases (index == 0)) [
    | inl z ↦ (v, xs, rw z, r, Perm.refl xs, refl)
    | inr nz ↦
        let up : get_parent index < index = get_parent-lt index nz in
        let inside : get_parent index < length xs = omega arith in
        let (above, at) = get_elem?-some xs (get_parent index) inside in
        elim (Bool-cases (is_neg (cmp above d))) [
          | inl less ↦
              let (w, ys, e, s, p, n, _) =
                swap_by_index_lem v xs (get_parent index) index r inside h in
              let (u, zs, ran, t, q, m) =
                heapify_up_lem fuel w ys (get_parent index) d s (omega (arith, n)) (omega arith) in
              (
                u,
                zs,
                rw (nz, get_element_lem v xs (get_parent index) r inside, at, less, e, ran),
                t,
                Perm.trans q p,
                m ∙ n,
              )
          | inr more ↦ (
            v,
            xs,
            rw (nz, get_element_lem v xs (get_parent index) r inside, at, more),
            r,
            Perm.refl xs,
            refl,
          )
        ]
  ]

  get_big_child_lem :
      (v : Vector A) (xs : List A) (index : ℕ)
      → IsVector v xs
      → index < length xs
      → (child : ℕ) × (get_big_child cmp v (2 * index + 1) (2 * index + 2) ≡ some child)
        × (child < length xs)
        × ((index < child) ⊎ (child ≡ index))
  unfolding get_big_child
  get_big_child_lem v xs index r h = elim (dec_lt (2 * index + 2) (length xs)) [
    | yes two ↦
        let (a, at_a) = get_elem?-some xs (2 * index + 1) (omega arith) in
        let (b, at_b) = get_elem?-some xs (2 * index + 2) two in
        elim (Bool-cases (is_pos (cmp a b))) [
          | inl first ↦ (
            2 * index + 1,
            rw (
              size_lem v xs r,
              leb-false (length xs) (2 * index + 2) two,
              get_element_lem v xs (2 * index + 1) r (omega arith),
              at_a,
              get_element_lem v xs (2 * index + 2) r two,
              at_b,
              first,
            ),
            omega arith,
            inl (omega arith),
          )
          | inr second ↦ (
            2 * index + 2,
            rw (
              size_lem v xs r,
              leb-false (length xs) (2 * index + 2) two,
              get_element_lem v xs (2 * index + 1) r (omega arith),
              at_a,
              get_element_lem v xs (2 * index + 2) r two,
              at_b,
              second,
            ),
            two,
            inl (omega arith),
          )
        ]
    | no end ↦ elim (dec_lt (2 * index + 1) (length xs)) [
      | yes one ↦ (
        2 * index + 1,
        rw (
          size_lem v xs r,
          leb-true (length xs) (2 * index + 2) (omega arith),
          leb-false (length xs) (2 * index + 1) one,
        ),
        one,
        inl (omega arith),
      )
      | no none_left ↦ (
        (2 * index + 1 - 1) / 2,
        rw (
          size_lem v xs r,
          leb-true (length xs) (2 * index + 2) (omega arith),
          leb-true (length xs) (2 * index + 1) (omega arith),
        ),
        omega arith,
        inr (omega arith),
      )
    ]
  ]

  -- No data are swapped with themselves.
  itself {ρ} :
      {C : Type ρ} (same : (a : A) → is_pos (cmp a a) ≡ false) (xs : List A) (index child : ℕ)
      (below d : A)
      → get_elem? xs child ≡ some below
      → get_elem? xs index ≡ some d
      → child ≡ index
      → is_pos (cmp below d) ≡ true
      → C
  itself same xs index child below d at here e greater =
      let b : below ≡ d = some_inj (sym at ∙ ap (get_elem? xs) e ∙ here) in
      let bad : 1 ≤ 0 =
        (let t : true ≡ false = sym greater ∙ ap (λ y. is_pos (cmp y d)) b ∙ same d in cc) in
      elim bad [ ]

  -- From an index inside of the vector that holds the data, and under a comparison by which no data
  -- are greater than themselves, `HeapIfyDown` ends within as many rounds as the vector has elements
  -- from the index on, stays inside of the array and keeps the elements.
  pub heapify_down_lem :
      ((a : A) → is_pos (cmp a a) ≡ false)
      → (fuel : ℕ) (v : Vector A) (xs : List A) (index : ℕ) (d : A) → IsVector v xs
      → get_elem? xs index ≡ some d
      → index < length xs
      → length xs ≤ fuel + index
      → Keeps (heapify_down cmp fuel v index d) xs
  unfolding heapify_down
  heapify_down_lem same zero v xs index d r here h f = let bad : 1 ≤ 0 = omega arith in elim bad [ ]
  heapify_down_lem same (suc fuel) v xs index d r here h f =
      let (child, found, inside, place) = get_big_child_lem v xs index r h in
      let (below, at) = get_elem?-some xs child inside in
      elim (dec_lt (index + 1) (length xs)) [
        | no last ↦ (
          v,
          xs,
          rw (found, size_lem v xs r, ge→ltb (index + 1) (length xs) (omega arith)),
          r,
          Perm.refl xs,
          refl,
        )
        | yes more ↦ elim (Bool-cases (is_pos (cmp below d))) [
          | inr order ↦ (
            v,
            xs,
            rw (
              found,
              size_lem v xs r,
              lt→ltb (index + 1) (length xs) more,
              get_element_lem v xs child r inside,
              at,
              order,
            ),
            r,
            Perm.refl xs,
            refl,
          )
          | inl greater ↦ elim place [
            | inr e ↦ itself same xs index child below d at here e greater
            | inl lower ↦
                let (w, ys, s, t, p, n, moved) = swap_by_index_lem v xs index child r h inside in
                let (u, zs, ran, k, q, m) =
                  heapify_down_lem same fuel w ys child d t (moved ∙ here) (omega (arith, n))
                    (omega (arith, n)) in
                (
                  u,
                  zs,
                  rw (
                    found,
                    size_lem v xs r,
                    lt→ltb (index + 1) (length xs) more,
                    get_element_lem v xs child r inside,
                    at,
                    greater,
                    s,
                    ran,
                  ),
                  k,
                  Perm.trans q p,
                  m ∙ n,
                )
          ]
        ]
      ]
