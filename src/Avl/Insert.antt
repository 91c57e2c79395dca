-- ===== src/Avl/Insert.antt =====
-- `AVLInsert` and `BalancedInsert` (avl.c): the order and the balance of the tree that they leave.
use daher_repo.Prelude.{
  ℕ, suc, ◌+◌, ◌<◌, ◌≡◌, refl, sym, ap, ◌∙◌, ◌⊎◌, inl, inr, Bool, true, false, some, ◌∷◌, ◌++◌,
  arith, ℤ, pos, sub_ℕ, dec_le, is_pos, if◌then◌else◌, Bool-cases, IsOrder, IsSorted, insert_sorted,
  IsSorted-parts, insert_sorted-append_left, insert_sorted-behind, insert_sorted-IsSorted,
}
use daher_repo.Avl.{
  Tree, leaf, node, node_heigth, refresh, balanced_insert, get_direction, insert, is_null,
}
use daher_repo.Avl.Inorder.{inorder, inorder-refresh}
use daher_repo.Avl.Balance.{
  IsBalanced, Leans, refresh_left, refresh_right, refresh_even, node_heigth-node, node_heigth-leaf,
}

module _ {ℓ} {A : Type ℓ} (cmp : A → A → ℤ) where
  -- What an insertion into a balanced tree of height `n` gives: a balanced tree that is not empty,
  -- of the same height, or higher by one and leaning to a side.
  abbrev Grows : ℕ → Tree A → Type 0
  Grows n t =
      (is_null t ≡ false)
      × IsBalanced t
      × ((node_heigth t ≡ n) ⊎ ((node_heigth t ≡ suc n) × Leans t))

  is_null_of_pos : (t : Tree A) → 0 < node_heigth t → is_null t ≡ false
  is_null_of_pos leaf h = absurd (omega (arith, node_heigth-leaf A))
  is_null_of_pos (node l x h r) p = refl

  grow_left :
      (l' : Tree A) (x : A) (h : ℤ) (l r : Tree A)
      → IsBalanced (node l x h r)
      → Grows (node_heigth l) l'
      → (t' : Tree A) × (refresh (node l' x h r) ≡ some t') × Grows (node_heigth (node l x h r)) t'
  grow_left l' x h l r b g = elim (dec_le (node_heigth l') (node_heigth r + 1)) [
    | yes p ↦
        let k = sub_ℕ (node_heigth l') (node_heigth r) in
        (
          node l' x k r,
          refresh_even l' x h r p (ground arith),
          ground (arith, node_heigth-node l' x k r, node_heigth-node l x h r),
        )
    | no p ↦
        let (t', e, b', h') = refresh_left l' x h r g.1 b.3 (ground arith) (ground arith) in
        (
          t',
          e,
          (is_null_of_pos t' (omega arith), b', inl (ground (arith, node_heigth-node l x h r))),
        )
  ]

  grow_right :
      (r' : Tree A) (x : A) (h : ℤ) (l r : Tree A)
      → IsBalanced (node l x h r)
      → Grows (node_heigth r) r'
      → (t' : Tree A) × (refresh (node l x h r') ≡ some t') × Grows (node_heigth (node l x h r)) t'
  grow_right r' x h l r b g = elim (dec_le (node_heigth r') (node_heigth l + 1)) [
    | yes p ↦
        let k = sub_ℕ (node_heigth l) (node_heigth r') in
        (
          node l x k r',
          refresh_even l x h r' (ground arith) p,
          ground (arith, node_heigth-node l x k r', node_heigth-node l x h r),
        )
    | no p ↦
        let (t', e, b', h') = refresh_right l x h r' b.2 g.1 (ground arith) (ground arith) in
        (
          t',
          e,
          (is_null_of_pos t' (omega arith), b', inl (ground (arith, node_heigth-node l x h r))),
        )
  ]

  pub insert_step_left :
      (ok : Bool) (d : A) (l : Tree A) (x : A) (h : ℤ) (r : Tree A) {l' : Tree A}
      → is_pos (cmp x d) ≡ true
      → balanced_insert cmp ok d l ≡ some l'
      → balanced_insert cmp ok d (node l x h r)
        ≡ (if is_null l' then some leaf else refresh (node l' x h r))
  unfolding balanced_insert
  insert_step_left ok d l x h r p e = rw (p, get_direction, balanced_insert) (rw e)

  pub insert_step_right :
      (ok : Bool) (d : A) (l : Tree A) (x : A) (h : ℤ) (r : Tree A) {r' : Tree A}
      → is_pos (cmp x d) ≡ false
      → balanced_insert cmp ok d r ≡ some r'
      → balanced_insert cmp ok d (node l x h r)
        ≡ (if is_null r' then some leaf else refresh (node l x h r'))
  unfolding balanced_insert
  insert_step_right ok d l x h r p e = rw (p, get_direction, balanced_insert) (rw e)

  new-Grows : (d : A) → Grows (node_heigth {A = A} leaf) (node leaf d (pos 0) leaf)
  unfolding node_heigth sub_ℕ
  new-Grows d = (refl, (omega arith, omega arith, tt, tt), inr (refl, (refl, λ _. refl)))

  -- One insertion into a balanced ordered subtree, with what the induction needs of it.
  balanced_insert_lem :
      IsOrder cmp
      → (d : A) (t : Tree A) → IsBalanced t
      → IsSorted cmp (inorder t)
      → (t' : Tree A) × (balanced_insert cmp true d t ≡ some t')
        × Grows (node_heigth t) t'
        × (inorder t' ≡ insert_sorted cmp d (inorder t))
  unfolding balanced_insert
  balanced_insert_lem o d leaf b s =
      (node leaf d (pos 0) leaf, refl, new-Grows d, unfold insert_sorted in refl)
  balanced_insert_lem o d (node l x h r) b s = elim (Bool-cases (is_pos (cmp x d))) [
    | inl less ↦
        let parts = IsSorted-parts cmp (inorder l) x (inorder r) s in
        let (l', e, g, i) = balanced_insert_lem o d l b.2 parts.0 in
        let (t', e', g') = grow_left l' x h l r b g in
        (
          t',
          rw (insert_step_left true d l x h r less e, g.0) e',
          g',
          inorder-refresh (node l' x h r) t' e'
              ∙ ap (λ k. k ++ (x ∷ inorder r)) i
              ∙ sym (insert_sorted-append_left cmp d x (inorder l) (inorder r) less),
        )
    | inr more ↦
        let parts = IsSorted-parts cmp (inorder l) x (inorder r) s in
        let (r', e, g, i) = balanced_insert_lem o d r b.3 parts.3 in
        let (t', e', g') = grow_right r' x h l r b g in
        (
          t',
          rw (insert_step_right true d l x h r more e, g.0) e',
          g',
          inorder-refresh (node l x h r') t' e'
              ∙ ap (λ k. inorder l ++ (x ∷ k)) i
              ∙ sym (insert_sorted-behind cmp o d x (inorder l) (inorder r) more parts.1),
        )
  ]

  -- Into a balanced tree whose data are in order, and with memory left, `AVLInsert` succeeds: no null
  -- pointer is read, it returns 1, the new root is balanced at every node whatever the height fields
  -- held, and its data are the old ones with the new one behind all that are not greater.
  pub insert_lem :
      IsOrder cmp
      → (d : A) (root : Tree A) → IsBalanced root
      → IsSorted cmp (inorder root)
      → (t : Tree A) × (insert cmp true d root ≡ some (t, 1))
        × IsBalanced t
        × (inorder t ≡ insert_sorted cmp d (inorder root))
        × IsSorted cmp (inorder t)
  unfolding insert
  insert_lem o d root b s =
      let (t, e, g, i) = balanced_insert_lem o d root b s in
      (t, rw (e, g.0), g.1, i, rw i (insert_sorted-IsSorted cmp o d (inorder root) s))

  balanced_insert_no_memory : (d : A) (t : Tree A) → balanced_insert cmp false d t ≡ some leaf
  unfolding balanced_insert
  balanced_insert_no_memory d leaf = refl
  balanced_insert_no_memory d (node l x h r) = elim (Bool-cases (is_pos (cmp x d))) [
    | inl less ↦ insert_step_left false d l x h r less (balanced_insert_no_memory d l)
    | inr more ↦ insert_step_right false d l x h r more (balanced_insert_no_memory d r)
  ]

  -- When `malloc` fails, `AVLInsert` returns 0 and leaves the tree without a root: all its data are lost.
  pub insert_no_memory : (d : A) (root : Tree A) → insert cmp false d root ≡ some (leaf, 0)
  unfolding insert
  insert_no_memory d root = rw (balanced_insert_no_memory d root)
