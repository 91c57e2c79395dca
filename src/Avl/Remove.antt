-- ===== src/Avl/Remove.antt =====
-- `AVLRemove` (avl.c) and its helpers. A helper that unlinks a node from its parent hands back what
-- stands at the parent's relative afterwards; `free` leaves no trace in a value.
use daher_repo.Prelude.{ℕ, zero, suc, ◌+◌, Option, none, some, if◌then◌else◌, ◌>>=◌, ℤ, is_zero}
use daher_repo.Avl.{is_null, Tree, leaf, node, Side, left, right, get_direction, refresh}

-- `ROOT_DIRECTION`
abbrev pub root_direction : ℕ
root_direction = 2

module _ {ℓ} {A : Type ℓ} where
  -- `GetNumOfSons`: 1 for the left and 2 for the right one
  unfoldable pub get_num_of_sons : Tree A → Option ℕ
  get_num_of_sons leaf = none
  get_num_of_sons (node l x h r) =
      some ((if is_null l then 0 else 1) + (if is_null r then 0 else 2))

  -- `MostLeftNode` and the unlinking of the node that it finds: its data, and the rest.
  unfoldable pub pop_most_left : Tree A → Option (A × Tree A)
  pop_most_left leaf = none
  pop_most_left (node leaf x h r) = some (x, r)
  pop_most_left (node (node a y k b) x h r) =
      pop_most_left (node a y k b) >>= λ p. some (p.0, node p.1 x h r)

  -- `RemoveWithTwoSons`: the data of the next node move up; the stored height stays.
  unfoldable pub remove_with_two_sons : Tree A → ℤ → Tree A → Option (Tree A)
  unfolding pop_most_left
  remove_with_two_sons l h r = pop_most_left r >>= λ p. some (node l p.0 h p.1)

  -- `RemoveNode` below a parent: the son takes the place of the node.
  unfoldable pub remove_below : Tree A → Option (Tree A)
  unfolding remove_with_two_sons
  remove_below leaf = none
  remove_below (node leaf x h r) = some r
  remove_below (node l x h leaf) = some l
  remove_below (node l x h r) = remove_with_two_sons l h r

  -- `relatives[direction]`, which is an array of two.
  unfoldable pub relative_at : Tree A → ℕ → Option (Tree A)
  relative_at leaf i = none
  relative_at (node l x h r) zero = some l
  relative_at (node l x h r) (suc zero) = some r
  relative_at (node l x h r) (suc (suc i)) = none

  -- The helpers of `RemoveNode`, each where it is called with `ROOT_DIRECTION`: the data and relatives
  -- of an only son are copied over the root.
  unfoldable pub remove_root : Tree A → Option (Tree A)
  unfolding remove_with_two_sons
  remove_root leaf = none
  remove_root (node leaf x h leaf) = some leaf
  remove_root (node leaf x h (node a y k b)) = some (node a y h b)
  remove_root (node (node a y k b) x h leaf) = some (node a y h b)
  remove_root (node l x h r) = remove_with_two_sons l h r

  -- `RemoveNode(tree, node, ROOT_DIRECTION)`: each case of its `switch` reads
  -- `relatives[ROOT_DIRECTION]` for the call of its helper.
  unfoldable pub remove_node_at_root : Tree A → Option (Tree A)
  unfolding get_num_of_sons relative_at remove_root
  remove_node_at_root root = get_num_of_sons root >>= λ sons_num.
      relative_at root root_direction >>= λ node_to_remove. remove_root root

  -- `RemoveNode(tree, parent_node, direction)`, then `return parent_node`.
  unfoldable pub remove_relative : Tree A → Side → Option (Tree A)
  unfolding remove_below
  remove_relative leaf side = some leaf
  remove_relative (node l x h r) left = remove_below l >>= λ l'. some (node l' x h r)
  remove_relative (node l x h r) right = remove_below r >>= λ r'. some (node l x h r')

module _ {ℓ} {A : Type ℓ} (cmp : A → A → ℤ) where
  -- `FindToRemove(tree, node, parent_node, data, compare, direction)`: `node` becomes whatever the
  -- recursive call returns.
  unfoldable pub find_to_remove : Tree A → Tree A → Tree A → A → Side → Option (Tree A)
  unfolding get_direction refresh remove_relative
  find_to_remove root leaf parent d side = some root
  find_to_remove root (node l x h r) parent d side =
      let go_left = find_to_remove root l (node l x h r) d left in
      let go_right = find_to_remove root r (node l x h r) d right in
      if is_zero (cmp x d) then remove_relative parent side else elim (get_direction cmp x d) [
        | left ↦ go_left >>= refresh
        | right ↦ go_right >>= refresh
      ]

  -- `AVLRemove`
  unfoldable pub remove : Tree A → A → Option (Tree A)
  remove leaf d = some leaf
  remove (node l x h r) d =
      if is_zero (cmp x d)
      then remove_node_at_root (node l x h r)
      else find_to_remove (node l x h r) (node l x h r) leaf d left
