-- ===== src/Heap/Breaking.antt =====
-- heap.c, `HeapRemove` sifts only down, and so can leave an element above its greater child.
use daher_repo.Prelude.{
  ℕ, suc, ◌+◌, ◌-◌, ◌<◌, ◌≡◌, refl, sym, ap, ◌∙◌, true, false, some, some_inj, List, arith, length,
  get_or, get_elem?, get_elem?-eq-get_or, inl, inr, ℤ, is_pos, Leq, IsOrder, lt→ltb, ge→ltb,
}
use native.Mathlib.Decide.{dec_lt}
use daher_repo.Vector.{Vector, get_element, pop_back, size}
use daher_repo.Vector.Contents.{IsVector, get_element_lem, size_lem}
use daher_repo.Heap.{get_parent, remove, heapify_down}
use daher_repo.Heap.Order.{get_parent-lt, get_elem?-inside, IsHeap, Leq-by}
use daher_repo.Heap.Ordering.{get_big_child_greatest, Leq-refl, read}
use daher_repo.Heap.Removing.{drop_at, IsFirst, search_lem, other_number}

module _ {ℓ} {A : Type ℓ} (cmp : A → A → ℤ) (o : IsOrder cmp) where
  -- `HeapIfyDown` stops at once where no child is greater.
  stays :
      (fuel : ℕ) (v : Vector A) (xs : List A) (i : ℕ) (d : A)
      → IsVector v xs
      → get_elem? xs i ≡ some d
      → i < length xs
      → ((c : ℕ) (b : A) → 0 < c → get_parent c ≡ i → get_elem? xs c ≡ some b → Leq cmp b d)
      → heapify_down cmp (suc fuel) v i d ≡ some v
  unfolding heapify_down
  stays fuel v xs i d r at h below =
      let (m, found, inside, place, _) = get_big_child_greatest cmp d o v xs i r h in
      let value = get_elem?-eq-get_or xs m d inside in
      let settled : is_pos (cmp (get_or xs m d) d) ≡ false = elim place [
        | inl (parent, pos) ↦ below m (get_or xs m d) pos parent value
        | inr itself ↦
            Leq-by cmp d (some_inj (sym value ∙ ap (get_elem? xs) itself ∙ at)) refl
              (Leq-refl cmp d o d)
      ] in
      elim (dec_lt (i + 1) (length xs)) [
        | yes more ↦ rw (
          found,
          size_lem v xs r,
          lt→ltb (i + 1) (length xs) more,
          read cmp d o v xs m r inside,
          settled,
        )
        | no last ↦ rw (found, size_lem v xs r, ge→ltb (i + 1) (length xs) (omega (arith, last)))
      ]

module _ {ℓ κ} {A : Type ℓ} {B : Type κ} (cmp : A → A → ℤ) (match_func : A → B → ℤ)
    (o : IsOrder cmp) where
  -- Under an order, let HeapRemove find an element that is neither the first nor the last of the
  -- array, where it takes 0 of the match function for a match, against heap.h, which calls 0 not
  -- equal; and let the last be greater than the parent of the one found. The element is returned,
  -- and what is left is no heap.
  pub remove_breaks :
      (v : Vector A) (xs : List A) (b : B) (k n : ℕ) (e l p : A)
      → IsVector v xs
      → IsHeap cmp xs
      → length xs ≡ suc n
      → 0 < k
      → k < n
      → IsFirst cmp match_func xs b k n e
      → get_elem? xs n ≡ some l
      → get_elem? xs (get_parent k) ≡ some p
      → is_pos (cmp l p) ≡ true
      → (u : Vector A) × (ys : List A) × (remove cmp match_func v b ≡ some (some e, u))
        × IsVector u ys
        × ¬ IsHeap cmp ys
  unfolding remove
  remove_breaks v xs b k n e l p r heap len pos before f at_l at_p greater =
      let found =
        search_lem cmp match_func k (suc (size v)) v xs b 0 k n e r len (omega arith) (omega arith)
          (omega (arith, len, size_lem v xs r)) f in
      let (last, w, zs, d) = drop_at v xs k n e r f.here (omega (arith, len)) len in
      let up : get_parent k < k = get_parent-lt k pos in
      let same : last ≡ l = some_inj (
        sym d.read
        ∙ ap (get_element v) (size_lem v xs r ∙ len ∙ next n)
        ∙ get_element_lem v xs n r (omega (arith, len))
        ∙ at_l) in
      let at_k : get_elem? zs k ≡ some l = d.moved before ∙ ap some same in
      let at_parent : get_elem? zs (get_parent k) ≡ some p =
        d.others (get_parent k) (omega (arith, up, before)) (λ q. omega (arith, q, up)) ∙ at_p in
      let back : k + 1 - 1 ≡ k = omega arith in
      let down : heapify_down cmp (suc (size v)) (pop_back w) k last ≡ some (pop_back w) =
        stays cmp o (size v) (pop_back w) zs k last d.after (d.moved before)
          (omega (arith, d.shorter, before))
          (λ c y h at at_y.
            let inside : c < length zs = get_elem?-inside zs c at_y in
            let in_xs : get_elem? xs c ≡ some y =
              sym (
                d.others c (omega (arith, inside, d.shorter))
                  (λ q. omega (arith, q, at, get_parent-lt c h)))
              ∙ at_y in
            let under : Leq cmp y e = heap c e y h (ap (get_elem? xs) at ∙ f.here) in_xs in
            Leq-by cmp e refl same (
              o.leq_trans y e l under
                (o.leq_trans e p l (heap k p e pos at_p f.here) (o.asym l p greater)))) in
      (
        pop_back w,
        zs,
        rw (
          found,
          other_number (k + 1) (size v) (omega (arith, len, size_lem v xs r)),
          d.read,
          d.wrote,
          back,
          down,
        ),
        d.after,
        (λ h. let t : true ≡ false = sym greater ∙ h k p l pos at_parent at_k in cc),
      )
    where
      next : (j : ℕ) → suc j ≡ j + 1
      next j = omega arith
