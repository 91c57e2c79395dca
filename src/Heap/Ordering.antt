-- ===== src/Heap/Ordering.antt =====
-- heap.c, `HeapIfyUp` and `HeapIfyDown` restore the heap order.
use mathlib.Core.List.{Perm}
use mathlib.Core.List.Perm
use native.Mathlib.Decide.{dec_lt}
use daher_repo.Prelude.{
  ℕ, zero, suc, ◌+◌, ◌-◌, ◌*◌, ◌/◌, ◌≤◌, ◌<◌, ◌≡◌, refl, sym, ap, ◌∙◌, true, false, Option, some,
  List, arith, length, get_or, get_elem?-eq-get_or, Bool-cases, ==→eq, ◌==◌, inl, inr, ◌⊎◌, ℤ,
  is_pos, is_neg, Leq, IsOrder, lt→ltb, ge→ltb,
}
use daher_repo.Vector.{Vector, get_element}
use daher_repo.Vector.Contents.{IsVector, get_element_lem, size_lem}
use daher_repo.Heap.{get_parent, get_big_child, heapify_up, heapify_down, swap_by_index}
use daher_repo.Heap.Swaps.{swap_by_index_at, swap-perm}
use daher_repo.Heap.Sifting.{leb-true, leb-false}
use daher_repo.Heap.Order.{
  get_parent-lt, get_parent-child, parent_of_child, swapped, length-swapped, swapped_first,
  swapped_second, IsOrdered, UpInv, DownInv, swapped-UpInv, swapped-DownInv, Leq-by, same_or_not,
}

module _ {ℓ} {A : Type ℓ} (cmp : A → A → ℤ) (e : A) (o : IsOrder cmp) where
  pub Leq-refl : (a : A) → Leq cmp a a
  Leq-refl a = elim (Bool-cases (is_pos (cmp a a))) [ inl more ↦ o.asym a a more | inr less ↦ less ]

  -- A run ends on a vector of the same elements in heap order.
  abbrev pub Restores : Option (Vector A) → List A → Type ℓ
  Restores out xs =
      (w : Vector A) × (ys : List A) × (out ≡ some w)
      × IsVector w ys
      × IsOrdered cmp e ys
      × Perm ys xs

  -- a swap of two places, in the form that the loops make it
  swap_run :
      (v : Vector A) (xs : List A) (i j : ℕ)
      → IsVector v xs
      → i < length xs
      → j < length xs
      → (w : Vector A) × (swap_by_index v i j ≡ some w)
        × IsVector w (swapped e xs i j)
        × Perm (swapped e xs i j) xs
  swap_run v xs i j r h k =
      let at_i = get_elem?-eq-get_or xs i e h in
      let at_j = get_elem?-eq-get_or xs j e k in
      let (w, ran, s) = swap_by_index_at v xs i j (get_or xs i e) (get_or xs j e) r at_i at_j h k in
      (w, ran, s, swap-perm xs i j (get_or xs i e) (get_or xs j e) at_i at_j k)

  pub read :
      (v : Vector A) (xs : List A) (i : ℕ)
      → IsVector v xs
      → i < length xs
      → get_element v (i + 1) ≡ some (get_or xs i e)
  read v xs i r h = get_element_lem v xs i r h ∙ get_elem?-eq-get_or xs i e h

  positive : (i : ℕ) → (i == 0) ≡ false → 0 < i
  positive i h = ground arith

  pub heapify_up-Restores :
      (fuel : ℕ) (v : Vector A) (xs : List A) (i : ℕ) (d : A)
      → IsVector v xs
      → UpInv cmp e xs i
      → d ≡ get_or xs i e
      → i < fuel
      → Restores (heapify_up cmp fuel v i d) xs
  unfolding heapify_up
  heapify_up-Restores zero v xs i d r u at f = elim f [ ]
  heapify_up-Restores (suc fuel) v xs i d r u at f = elim (Bool-cases (i == 0)) [
    | inl z ↦ (
      v,
      xs,
      rw z,
      r,
      (λ c h k. u.edges c h k (λ q. omega (arith, q, ==→eq i 0 z, h))),
      Perm.refl xs,
    )
    | inr nz ↦
        let pos = positive i nz in
        let up : get_parent i < i = get_parent-lt i pos in
        let p_inside : get_parent i < length xs = omega (arith, up, u.inside) in
        let above = read v xs (get_parent i) r p_inside in
        elim (Bool-cases (is_neg (cmp (get_or xs (get_parent i) e) (get_or xs i e)))) [
          | inl less ↦
              let (w, ran, s, perm) = swap_run v xs (get_parent i) i r p_inside u.inside in
              let same : d ≡ get_or (swapped e xs (get_parent i) i) (get_parent i) e =
                at
                ∙ sym (swapped_first e xs (get_parent i) i p_inside (λ q. omega (arith, q, up))) in
              let (x, ys, done, t, order, q) =
                heapify_up-Restores fuel w (swapped e xs (get_parent i) i) (get_parent i) d s
                  (swapped-UpInv cmp e o xs i u pos less) same (omega (arith, up)) in
              (
                x,
                ys,
                rw (nz, above, ap (λ y. is_neg (cmp (get_or xs (get_parent i) e) y)) at, less, ran)
                    done,
                t,
                order,
                Perm.trans q perm,
              )
          | inr settled ↦ (
            v,
            xs,
            rw (nz, above, ap (λ y. is_neg (cmp (get_or xs (get_parent i) e) y)) at, settled),
            r,
            (λ c h k. elim (same_or_not c i) [
              | inl at_i ↦
                  Leq-by cmp e (ap (λ j. get_or xs j e) at_i)
                    (ap (λ j. get_or xs (get_parent j) e) at_i)
                    (sym (o.neg_swap (get_or xs (get_parent i) e) (get_or xs i e)) ∙ settled)
              | inr off ↦ u.edges c h k off
            ]),
            Perm.refl xs,
          )
        ]
  ]

  -- `GetBigChild`: an index with no smaller element than any child has, below the index if it can be
  pub get_big_child_greatest :
      (v : Vector A) (xs : List A) (i : ℕ)
      → IsVector v xs
      → i < length xs
      → (m : ℕ) × (get_big_child cmp v (2 * i + 1) (2 * i + 2) ≡ some m)
        × (m < length xs)
        × (((get_parent m ≡ i) × (0 < m)) ⊎ (m ≡ i))
        × ((c : ℕ)
            → 0 < c
            → c < length xs
            → get_parent c ≡ i
            → Leq cmp (get_or xs c e) (get_or xs m e))
  unfolding get_big_child
  get_big_child_greatest v xs i r h = elim (dec_lt (2 * i + 2) (length xs)) [
    | yes two ↦
        elim (Bool-cases (is_pos (cmp (get_or xs (2 * i + 1) e) (get_or xs (2 * i + 2) e)))) [
          | inl first ↦ (
            2 * i + 1,
            rw (
              size_lem v xs r,
              leb-false (length xs) (2 * i + 2) two,
              read v xs (2 * i + 1) r (omega arith),
              read v xs (2 * i + 2) r two,
              first,
            ),
            omega arith,
            inl ((parent_of_child i).0, omega arith),
            (λ c p q at.
                either c (get_or xs (2 * i + 1) e) p at (Leq-refl (get_or xs (2 * i + 1) e))
                  (o.asym (get_or xs (2 * i + 1) e) (get_or xs (2 * i + 2) e) first)),
          )
          | inr second ↦ (
            2 * i + 2,
            rw (
              size_lem v xs r,
              leb-false (length xs) (2 * i + 2) two,
              read v xs (2 * i + 1) r (omega arith),
              read v xs (2 * i + 2) r two,
              second,
            ),
            two,
            inl ((parent_of_child i).1, omega arith),
            (λ c p q at.
                either c (get_or xs (2 * i + 2) e) p at second
                  (Leq-refl (get_or xs (2 * i + 2) e))),
          )
        ]
    | no end ↦ elim (dec_lt (2 * i + 1) (length xs)) [
      | yes one ↦ (
        2 * i + 1,
        rw (
          size_lem v xs r,
          leb-true (length xs) (2 * i + 2) (omega arith),
          leb-false (length xs) (2 * i + 1) one,
        ),
        one,
        inl ((parent_of_child i).0, omega arith),
        (λ c p q at. elim (get_parent-child c i p at) [
          | inl left ↦
              Leq-by cmp e (ap (λ j. get_or xs j e) left) refl (Leq-refl (get_or xs (2 * i + 1) e))
          | inr right ↦ absurd (omega (arith, right, q, end))
        ]),
      )
      | no alone ↦ (
        (2 * i + 1 - 1) / 2,
        rw (
          size_lem v xs r,
          leb-true (length xs) (2 * i + 2) (omega arith),
          leb-true (length xs) (2 * i + 1) (omega arith),
        ),
        omega arith,
        inr (omega arith),
        (λ c p q at. elim (get_parent-child c i p at) [
          | inl left ↦ absurd (omega (arith, left, q, alone))
          | inr right ↦ absurd (omega (arith, right, q, end))
        ]),
      )
    ]
  ]
    where
      either :
          (c : ℕ) (b : A)
          → 0 < c
          → get_parent c ≡ i
          → Leq cmp (get_or xs (2 * i + 1) e) b
          → Leq cmp (get_or xs (2 * i + 2) e) b
          → Leq cmp (get_or xs c e) b
      either c b p at l m = elim (get_parent-child c i p at) [
        | inl left ↦ Leq-by cmp e (ap (λ j. get_or xs j e) left) refl l
        | inr right ↦ Leq-by cmp e (ap (λ j. get_or xs j e) right) refl m
      ]

  -- Where nothing below the index is greater, all edges are in order.
  settle :
      (xs : List A) (i : ℕ)
      → DownInv cmp e xs i
      → ((c : ℕ)
          → 0 < c
          → c < length xs
          → get_parent c ≡ i
          → Leq cmp (get_or xs c e) (get_or xs i e))
      → IsOrdered cmp e xs
  settle xs i u below c h k = elim (same_or_not (get_parent c) i) [
    | inl at ↦ Leq-by cmp e refl (ap (λ j. get_or xs j e) at) (below c h k at)
    | inr off ↦ u.edges c h k off
  ]

  pub heapify_down-Restores :
      (fuel : ℕ) (v : Vector A) (xs : List A) (i : ℕ) (d : A)
      → IsVector v xs
      → DownInv cmp e xs i
      → d ≡ get_or xs i e
      → i < length xs
      → length xs ≤ fuel + i
      → Restores (heapify_down cmp fuel v i d) xs
  unfolding heapify_down
  heapify_down-Restores zero v xs i d r u at h f = absurd (omega arith)
  heapify_down-Restores (suc fuel) v xs i d r u at h f =
      let (m, found, inside, place, greatest) = get_big_child_greatest v xs i r h in
      let below = read v xs m r inside in
      elim (dec_lt (i + 1) (length xs)) [
        | no last ↦ (
          v,
          xs,
          rw (found, size_lem v xs r, ge→ltb (i + 1) (length xs) (omega (arith, last))),
          r,
          settle xs i u (λ c p q k. absurd (omega (arith, k, q, last, get_parent-lt c p))),
          Perm.refl xs,
        )
        | yes more ↦ elim (Bool-cases (is_pos (cmp (get_or xs m e) (get_or xs i e)))) [
          | inr order ↦ (
            v,
            xs,
            rw (
              found,
              size_lem v xs r,
              lt→ltb (i + 1) (length xs) more,
              below,
              ap (λ y. is_pos (cmp (get_or xs m e) y)) at,
              order,
            ),
            r,
            settle xs i u (λ c p q k.
                o.leq_trans (get_or xs c e) (get_or xs m e) (get_or xs i e) (greatest c p q k)
                  order),
            Perm.refl xs,
          )
          | inl greater ↦ elim place [
            | inr itself ↦ absurd (never itself greater)
            | inl (parent, pos) ↦
                let lower : i < m = omega (arith, parent, get_parent-lt m pos) in
                let (w, ran, s, perm) = swap_run v xs i m r h inside in
                let same : d ≡ get_or (swapped e xs i m) m e =
                  at ∙ sym (swapped_second e xs i m inside) in
                let (x, ys, done, t, ordered, q) =
                  heapify_down-Restores fuel w (swapped e xs i m) m d s
                    (swapped-DownInv cmp e o xs i m u h inside parent pos greatest greater) same
                    (omega (arith, inside, length-swapped e xs i m))
                    (omega (arith, lower, length-swapped e xs i m)) in
                (
                  x,
                  ys,
                  rw
                      (
                        found,
                        size_lem v xs r,
                        lt→ltb (i + 1) (length xs) more,
                        below,
                        ap (λ y. is_pos (cmp (get_or xs m e) y)) at,
                        greater,
                        ran,
                      )
                      done,
                  t,
                  ordered,
                  Perm.trans q perm,
                )
          ]
        ]
      ]
    where
      never : {m : ℕ} → m ≡ i → is_pos (cmp (get_or xs m e) (get_or xs i e)) ≡ true → ⊥
      never {m} same greater =
          let t : true ≡ false =
            sym greater
            ∙ ap (λ j. is_pos (cmp (get_or xs j e) (get_or xs i e))) same
            ∙ Leq-refl (get_or xs i e) in
          cc
