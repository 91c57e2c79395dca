-- ===== src/Avl.antt =====
-- infinity/ds/avl/avl.c: the recursive AVL tree, its nodes and operations. A node is a value, since
-- each function hands back the root of the subtree that it changed; `none` is a null dereference.
-- The parameter `ok` says whether the one `malloc` of an insertion succeeds.
pub mod Remove
pub mod Walk
pub mod Inorder
pub mod Balance
pub mod Insert
pub mod Find
pub mod Loss
pub mod RootRemoval
mod Tests
use daher_repo.Prelude.{
  ℕ, ◌+◌, Bool, true, false, ◌&&◌, Option, none, some, ltb, if◌then◌else◌, ◌>>=◌, ℤ, pos, negsuc,
  sub_ℕ, ltb_ℤ, is_pos, is_zero,
}

-- `struct tree_node`, and `NULL` as `leaf`: left relative, data, the field `height`, right relative.
pub data Tree {ℓ} (A : Type ℓ) : Type ℓ where
  leaf : Tree A
  node : Tree A → A → ℤ → Tree A → Tree A

module _ {ℓ} {A : Type ℓ} where
  abbrev pub is_null : Tree A → Bool
  is_null leaf = true
  is_null (node l x h r) = false

  -- `NodeIsLeaf`, on the two relatives
  abbrev pub node_is_leaf : Tree A → Tree A → Bool
  node_is_leaf l r = is_null l && is_null r

  -- `NodeCreate`: `memset` clears the height.
  unfoldable pub node_create : Bool → A → Tree A
  node_create ok data_in = if ok then node leaf data_in (pos 0) leaf else leaf

  unfoldable pub node_tree_size : Tree A → ℕ
  node_tree_size leaf = 0
  node_tree_size (node l x h r) =
      if node_is_leaf l r then 1 else 1 + node_tree_size l + node_tree_size r

  -- `MAX(1 + left, 1 + right)`
  unfoldable pub node_heigth : Tree A → ℕ
  node_heigth leaf = 0
  node_heigth (node l x h r) =
      let a = node_heigth l in
      let b = node_heigth r in
      if node_is_leaf l r then 1 else if ltb (1 + b) (1 + a) then 1 + a else 1 + b

  -- `AVLCreate`: the empty tree, if `malloc` succeeds
  unfoldable pub create : Bool → Option (Tree A)
  create ok = if ok then some leaf else none

  -- `AVLIsEmpty`, `AVLSize` and `AVLHeight`
  unfoldable pub is_empty : Tree A → Bool
  is_empty root = is_null root

  unfoldable pub avl_size : Tree A → ℕ
  avl_size root = node_tree_size root

  unfoldable pub height : Tree A → ℕ
  height root = node_heigth root

  -- Both rotations store the height of the subtree, and not its balance factor.
  unfoldable pub rotate_right : Tree A → Option (Tree A)
  rotate_right (node (node a y hy b) x hx c) =
      let lower = node b x (pos (node_heigth (node b x hx c))) c in
      some (node a y (pos (node_heigth (node a y hy lower))) lower)
  rotate_right t = none

  unfoldable pub rotate_left : Tree A → Option (Tree A)
  rotate_left (node a x hx (node b y hy c)) =
      let lower = node a x (pos (node_heigth (node a x hx b))) b in
      some (node lower y (pos (node_heigth (node lower y hy c))) c)
  rotate_left t = none

  -- the field `height` of a relative that must not be null
  abbrev pub height_field : Tree A → Option ℤ
  height_field leaf = none
  height_field (node l x h r) = some h

  unfoldable pub balance_tree_if_needed : Tree A → Option (Tree A)
  balance_tree_if_needed leaf = none
  balance_tree_if_needed (node l x h r) =
      if ltb_ℤ (pos 1) h
      then (height_field l >>= λ hl.
          if ltb_ℤ (negsuc 0) hl
          then rotate_right (node l x h r)
          else rotate_left l >>= λ l'. rotate_right (node l' x h r))
      else if ltb_ℤ h (negsuc 0)
      then (height_field r >>= λ hr.
          if ltb_ℤ hr (pos 1)
          then rotate_left (node l x h r)
          else rotate_right r >>= λ r'. rotate_left (node l x h r'))
      else some (node l x h r)

  -- The end of `BalancedInsert` and of `FindToRemove`: the balance factor is stored, then used.
  unfoldable pub refresh : Tree A → Option (Tree A)
  unfolding balance_tree_if_needed
  refresh leaf = none
  refresh (node l x h r) =
      balance_tree_if_needed (node l x (sub_ℕ (node_heigth l) (node_heigth r)) r)

pub data Side : Type 0 where
  left right : Side

module _ {ℓ} {A : Type ℓ} (cmp : A → A → ℤ) where
  unfoldable pub get_direction : A → A → Side
  get_direction x d = if is_pos (cmp x d) then left else right

  unfoldable pub balanced_insert : Bool → A → Tree A → Option (Tree A)
  unfolding get_direction refresh node_create
  balanced_insert ok d leaf = some (node_create ok d)
  balanced_insert ok d (node l x h r) =
      let insert_left = balanced_insert ok d l in
      let insert_right = balanced_insert ok d r in
      elim (get_direction x d) [
        | left ↦ insert_left >>= λ l'. if is_null l' then some leaf else refresh (node l' x h r)
        | right ↦ insert_right >>= λ r'. if is_null r' then some leaf else refresh (node l x h r')
      ]

  -- `AVLInsert`: the new root, and 1 for success.
  unfoldable pub insert : Bool → A → Tree A → Option (Tree A × ℕ)
  unfolding balanced_insert
  insert ok d root = balanced_insert ok d root >>= λ t. some (t, if is_null t then 0 else 1)

  -- `NodeFind` hands back the key that it was given.
  unfoldable pub node_find : Tree A → A → Option A
  unfolding get_direction
  node_find leaf key = none
  node_find (node l x h r) key =
      let find_left = node_find l key in
      let find_right = node_find r key in
      if is_zero (cmp x key)
      then some key
      else if node_is_leaf l r
      then none
      else elim (get_direction x key) [
        | left ↦ if is_null l then none else find_left
        | right ↦ if is_null r then none else find_right
      ]

  -- `AVLFind`
  unfoldable pub find : Tree A → A → Option A
  find root key = node_find root key
