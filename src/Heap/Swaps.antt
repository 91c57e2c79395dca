-- ===== src/Heap/Swaps.antt =====
-- heap.c, `SwapByIndex`: it stays inside of the vector and keeps the elements.
use mathlib.Core.List.{Perm}
use mathlib.Core.List.Perm
use daher_repo.Prelude.{
  ℕ, zero, suc, ◌<◌, ◌≡◌, sym, ap, ◌∙◌, some, some_inj, List, [], ◌∷◌, arith, length, length-set,
  set, get_elem?, get_elem?-some, Bool-cases, ==→eq, ◌==◌, inl, inr, get_elem?-set_self,
  get_elem?-set_ne,
}
use daher_repo.Vector.{Vector}
use daher_repo.Vector.Contents.{IsVector, get_element_lem, set_element_lem}
use daher_repo.Heap.{swap_by_index}

module _ {ℓ} {A : Type ℓ} where
  -- A write puts the new element in and takes the old one out.
  pub set-perm :
      (xs : List A) (i : ℕ) (a b : A) → get_elem? xs i ≡ some a → Perm (b ∷ xs) (a ∷ set xs i b)
  set-perm [] i a b e = let same : b ≡ a = cc in rw same (Perm.refl _)
  set-perm (x ∷ xs) zero a b e = let same : x ≡ a = some_inj e in rw same (Perm.swap a b xs)
  set-perm (x ∷ xs) (suc i) a b e =
      Perm.trans (Perm.swap x b xs)
        (Perm.trans (Perm.cons x (set-perm xs i a b e)) (Perm.swap a x (set xs i b)))

  pub swap-perm :
      (xs : List A) (i j : ℕ) (a b : A)
      → get_elem? xs i ≡ some a
      → get_elem? xs j ≡ some b
      → j < length xs
      → Perm (set (set xs i b) j a) xs
  swap-perm xs i j a b e f h =
      Perm.symm
        (Perm.cons_inv (Perm.trans (set-perm xs i a b e) (set-perm (set xs i b) j b a there)))
    where
      there : get_elem? (set xs i b) j ≡ some b
      there = elim (Bool-cases (i == j)) [
        | inl same ↦
            ap (get_elem? (set xs i b)) (sym (==→eq i j same))
            ∙ get_elem?-set_self xs i b (omega (arith, ==→eq i j same))
        | inr other ↦ get_elem?-set_ne xs b (λ same. ground (arith, other, same)) ∙ f
      ]

  pub swap_by_index_at :
      (v : Vector A) (xs : List A) (i j : ℕ) (a b : A)
      → IsVector v xs
      → get_elem? xs i ≡ some a
      → get_elem? xs j ≡ some b
      → i < length xs
      → j < length xs
      → (w : Vector A) × (swap_by_index v i j ≡ some w) × IsVector w (set (set xs i b) j a)
  unfolding swap_by_index
  swap_by_index_at v xs i j a b r at_i at_j h k =
      let (w, e, s, _) = set_element_lem v b xs i r h in
      let (u, f, t, _) = set_element_lem w a (set xs i b) j s (omega (arith, length-set xs i b)) in
      (u, rw (get_element_lem v xs i r h, at_i, get_element_lem v xs j r k, at_j, e, f), t)

  -- `SwapByIndex` of two indices inside of the vector runs through, and keeps the elements.
  pub swap_by_index_lem :
      (v : Vector A) (xs : List A) (i j : ℕ)
      → IsVector v xs
      → i < length xs
      → j < length xs
      → (w : Vector A) × (ys : List A) × (swap_by_index v i j ≡ some w)
        × IsVector w ys
        × Perm ys xs
        × (length ys ≡ length xs)
        × (get_elem? ys j ≡ get_elem? xs i)
  swap_by_index_lem v xs i j r h k =
      let (a, at_i) = get_elem?-some xs i h in
      let (b, at_j) = get_elem?-some xs j k in
      let (w, e, s) = swap_by_index_at v xs i j a b r at_i at_j h k in
      (
        w,
        set (set xs i b) j a,
        e,
        s,
        swap-perm xs i j a b at_i at_j k,
        length-set (set xs i b) j a ∙ length-set xs i b,
        get_elem?-set_self (set xs i b) j a (omega (arith, length-set xs i b)) ∙ sym at_i,
      )
