-- ===== src/Avl/Inorder.antt =====
-- The data of an AVL tree in order, and that balancing (avl.c, `BalanceTreeIfNeeded`) keeps it.
use daher_repo.Prelude.{
  ◌≡◌, sym, ap, ◌∙◌, some, some_inj, sub_ℕ, inl, inr, Option-cases, List, [], ◌∷◌, ◌++◌,
  append_assoc, arith,
}
use daher_repo.Avl.{
  Tree, leaf, node, rotate_right, rotate_left, balance_tree_if_needed, refresh, node_heigth,
}

module _ {ℓ} {A : Type ℓ} where
  abbrev pub inorder : Tree A → List A
  inorder leaf = []
  inorder (node l x h r) = inorder l ++ (x ∷ inorder r)

  inorder-rotate_right : (t t' : Tree A) → rotate_right t ≡ some t' → inorder t' ≡ inorder t
  unfolding rotate_right
  inorder-rotate_right (node (node a y hy b) x hx c) t' e =
      ap inorder (sym (some_inj e)) ∙ sym (append_assoc (inorder a) (y ∷ inorder b) (x ∷ inorder c))
  inorder-rotate_right (node leaf x hx c) t' e = cc
  inorder-rotate_right leaf t' e = cc

  inorder-rotate_left : (t t' : Tree A) → rotate_left t ≡ some t' → inorder t' ≡ inorder t
  unfolding rotate_left
  inorder-rotate_left (node a x hx (node b y hy c)) t' e =
      ap inorder (sym (some_inj e)) ∙ append_assoc (inorder a) (x ∷ inorder b) (y ∷ inorder c)
  inorder-rotate_left (node a x hx leaf) t' e = cc
  inorder-rotate_left leaf t' e = cc

  inorder-balance : (t t' : Tree A) → balance_tree_if_needed t ≡ some t' → inorder t' ≡ inorder t
  unfolding balance_tree_if_needed
  inorder-balance leaf t' e = cc
  inorder-balance (node l x h r) t' e = elim (Option-cases (rotate_left l)) [
    | inl no_left ↦ elim (Option-cases (rotate_right r)) [
      | inl no_right ↦ ground (arith, single)
      | inr (r', er) ↦
          ground
            (arith, single, inorder-rotate_right r r' er, inorder-rotate_left (node l x h r') t')
    ]
    | inr (l', el) ↦ elim (Option-cases (rotate_right r)) [
      | inl no_right ↦
          ground
            (arith, single, inorder-rotate_left l l' el, inorder-rotate_right (node l' x h r) t')
      | inr (r', er) ↦ ground (
        arith,
        single,
        inorder-rotate_left l l' el,
        inorder-rotate_right (node l' x h r) t',
        inorder-rotate_right r r' er,
        inorder-rotate_left (node l x h r') t',
      )
    ]
  ]
    where
      single :
          (rotate_right (node l x h r) ≡ some t' → inorder t' ≡ inorder (node l x h r))
          × (rotate_left (node l x h r) ≡ some t' → inorder t' ≡ inorder (node l x h r))
      single = (inorder-rotate_right (node l x h r) t', inorder-rotate_left (node l x h r) t')

  -- Whatever the stored heights are, refreshing a node changes no order.
  pub inorder-refresh : (t t' : Tree A) → refresh t ≡ some t' → inorder t' ≡ inorder t
  unfolding refresh
  inorder-refresh leaf t' e = cc
  inorder-refresh (node l x h r) t' e =
      inorder-balance (node l x (sub_ℕ (node_heigth l) (node_heigth r)) r) t' e
