-- ===== src/Avl/RootRemoval.antt =====
-- `AVLRemove` (avl.c) where the root holds the data: `RemoveNode` with `ROOT_DIRECTION`.
use daher_repo.Prelude.{◌≡◌, refl, sym, ap, true, none, some, ◌∷◌, ◌++◌, append-nil, ℤ, is_zero}
use daher_repo.Avl.{Tree, leaf, node}
use daher_repo.Avl.Inorder.{inorder}
use daher_repo.Avl.Remove.{pop_most_left, remove_root, remove_node_at_root, get_num_of_sons, remove}

module _ {ℓ} {A : Type ℓ} where
  pub pop_most_left_lem :
      (l : Tree A) (x : A) (h : ℤ) (r : Tree A)
      → (p : A × Tree A) × (pop_most_left (node l x h r) ≡ some p)
        × (inorder (node l x h r) ≡ p.0 ∷ inorder p.1)
  unfolding pop_most_left
  pop_most_left_lem leaf x h r = ((x, r), refl, refl)
  pop_most_left_lem (node a y k b) x h r =
      let (p, e, i) = pop_most_left_lem a y k b in
      ((p.0, node p.1 x h r), rw e, ap (λ t. t ++ (x ∷ inorder r)) i)

  -- what the helper leaves
  helper_lem :
      (l : Tree A) (x : A) (h : ℤ) (r : Tree A)
      → (t : Tree A) × (remove_root (node l x h r) ≡ some t) × (inorder t ≡ inorder l ++ inorder r)
  unfolding remove_root
  helper_lem leaf x h leaf = (leaf, refl, refl)
  helper_lem leaf x h (node a y k b) = (node a y h b, refl, refl)
  helper_lem (node a y k b) x h leaf = (node a y h b, refl, sym (append-nil _))
  helper_lem (node a y k b) x h (node c z m d) =
      let (p, e, i) = pop_most_left_lem c z m d in
      (node (node a y k b) p.0 h p.1, rw e, ap (λ t. inorder (node a y k b) ++ t) (sym i))

  -- AVLRemove of data that compare equal to the root reads relatives[ROOT_DIRECTION] outside of its
  -- array of two, so its behaviour is undefined. The helper of RemoveNode that takes out the root
  -- reads no null pointer itself, and would leave all the other data in their order.
  pub remove_root_lem :
      (cmp : A → A → ℤ) (l : Tree A) (x : A) (h : ℤ) (r : Tree A) (d : A)
      → is_zero (cmp x d) ≡ true
      → (remove cmp (node l x h r) d ≡ none)
        × ((t : Tree A) × (remove_root (node l x h r) ≡ some t)
            × (inorder t ≡ inorder l ++ inorder r))
  unfolding remove remove_node_at_root get_num_of_sons
  remove_root_lem cmp l x h r d hit = (rw hit, helper_lem l x h r)
