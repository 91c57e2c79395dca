-- ===== src/Avl/Find.antt =====
-- `AVLFind` and `AVLSize` (avl.c) against the data in order.
use daher_repo.Prelude.{
  ◌≡◌, refl, sym, ap, ◌∙◌, inl, inr, Bool, true, false, Option, none, some, List, [], ◌∷◌, ◌++◌,
  arith, ℤ, is_pos, is_neg, is_zero, if◌then◌else◌, Bool-cases, Leq, IsOrder, IsSorted,
  IsSorted-parts, All, All-imp, length, length-append,
}
use daher_repo.Avl.{Tree, leaf, node, node_find, node_tree_size}
use daher_repo.Avl.Inorder.{inorder}

module _ {ℓ} {A : Type ℓ} where
  -- `AVLSize` counts the data.
  pub node_tree_size-inorder : (t : Tree A) → node_tree_size t ≡ length (inorder t)
  unfolding node_tree_size
  node_tree_size-inorder leaf = refl
  node_tree_size-inorder (node leaf x h leaf) = refl
  node_tree_size-inorder (node leaf x h (node a y k b)) =
      omega (arith, node_tree_size-inorder (node a y k b))
  node_tree_size-inorder (node (node a y k b) x h r) = omega (
    arith,
    node_tree_size-inorder (node a y k b),
    node_tree_size-inorder r,
    length-append (inorder (node a y k b)) (x ∷ inorder r),
  )

module _ {ℓ} {A : Type ℓ} (cmp : A → A → ℤ) where
  -- some data compares equal to the key
  abbrev pub has_match : A → List A → Bool
  has_match key [] = false
  has_match key (x ∷ xs) = if is_zero (cmp x key) then true else has_match key xs

  has_match-here :
      (key x : A) (xs ys : List A)
      → is_zero (cmp x key) ≡ true
      → has_match key (xs ++ (x ∷ ys)) ≡ true
  has_match-here key x [] ys e = rw e
  has_match-here key x (z ∷ xs) ys e = elim (Bool-cases (is_zero (cmp z key))) [
    | inl q ↦ rw q
    | inr q ↦ rw q (has_match-here key x xs ys e)
  ]

  no_match :
      (key : A) (xs : List A) → All (λ y. is_zero (cmp y key) ≡ false) xs → has_match key xs ≡ false
  no_match key [] h = refl
  no_match key (x ∷ xs) h = rw h.0 (no_match key xs h.1)

  has_match-left :
      (key x : A) (xs ys : List A)
      → is_zero (cmp x key) ≡ false
      → All (λ y. is_zero (cmp y key) ≡ false) ys
      → has_match key (xs ++ (x ∷ ys)) ≡ has_match key xs
  has_match-left key x [] ys e h = rw e (no_match key ys h)
  has_match-left key x (z ∷ xs) ys e h =
      ap (λ b. if is_zero (cmp z key) then true else b) (has_match-left key x xs ys e h)

  has_match-right :
      (key x : A) (xs ys : List A)
      → is_zero (cmp x key) ≡ false
      → All (λ y. is_zero (cmp y key) ≡ false) xs
      → has_match key (xs ++ (x ∷ ys)) ≡ has_match key ys
  has_match-right key x [] ys e h = rw e
  has_match-right key x (z ∷ xs) ys e h = rw h.0 (has_match-right key x xs ys e h.1)

  pos-ne-zero : (z : ℤ) → is_pos z ≡ true → is_zero z ≡ false
  pos-ne-zero z h = ground arith

  neg-ne-zero : (z : ℤ) → is_neg z ≡ true → is_zero z ≡ false
  neg-ne-zero z h = ground arith

  neg_of_else : (z : ℤ) → is_zero z ≡ false → is_pos z ≡ false → is_neg z ≡ true
  neg_of_else z h k = ground arith

  above-ne :
      IsOrder cmp
      → (key x y : A) → is_pos (cmp x key) ≡ true
      → Leq cmp x y
      → is_zero (cmp y key) ≡ false
  above-ne o key x y p q = ground (arith, o.leq_trans x y key q, pos-ne-zero (cmp y key))

  below-ne :
      IsOrder cmp
      → (key x y : A) → is_neg (cmp x key) ≡ true
      → Leq cmp y x
      → is_zero (cmp y key) ≡ false
  below-ne o key x y p q =
      ground
        (arith, o.leq_trans key y x, o.neg_swap x key, o.neg_swap y key, neg-ne-zero (cmp y key))

  pub find_step_left :
      (l : Tree A) (x : A) (h : ℤ) (r : Tree A) (key : A)
      → is_zero (cmp x key) ≡ false
      → is_pos (cmp x key) ≡ true
      → node_find cmp (node l x h r) key ≡ node_find cmp l key
  unfolding node_find
  find_step_left leaf x h leaf key z p = rw z
  find_step_left leaf x h (node a y k b) key z p = rw (z, p)
  find_step_left (node a y k b) x h r key z p = rw (z, p)

  pub find_step_right :
      (l : Tree A) (x : A) (h : ℤ) (r : Tree A) (key : A)
      → is_zero (cmp x key) ≡ false
      → is_pos (cmp x key) ≡ false
      → node_find cmp (node l x h r) key ≡ node_find cmp r key
  unfolding node_find
  find_step_right l x h leaf key z p = find_nothing l z p
    where
      find_nothing :
          (l : Tree A)
          → is_zero (cmp x key) ≡ false
          → is_pos (cmp x key) ≡ false
          → node_find cmp (node l x h leaf) key ≡ none
      find_nothing leaf z p = rw z
      find_nothing (node a y k b) z p = rw (z, p)
  find_step_right leaf x h (node a y k b) key z p = rw (z, p)
  find_step_right (node c w m d) x h (node a y k b) key z p = rw (z, p)

  find_here :
      (l : Tree A) (x : A) (h : ℤ) (r : Tree A) (key : A)
      → is_zero (cmp x key) ≡ true
      → node_find cmp (node l x h r) key ≡ some key
  unfolding node_find
  find_here l x h r key hit = rw hit

  abbrev answer : A → Bool → Option A
  answer key b = if b then some key else none

  -- Where the data are in order, NodeFind answers for every key as a search of all the data would:
  -- with the key of the caller itself if some data compares equal to it, where avl.h promises the
  -- data found, and with null if none does.
  pub node_find-has_match :
      IsOrder cmp
      → (t : Tree A) (key : A) → IsSorted cmp (inorder t)
      → node_find cmp t key ≡ (if has_match key (inorder t) then some key else none)
  node_find-has_match o leaf key s = unfold node_find in refl
  node_find-has_match o (node l x h r) key s =
      let parts = IsSorted-parts cmp (inorder l) x (inorder r) s in
      elim (Bool-cases (is_zero (cmp x key))) [
        | inl hit ↦
            find_here l x h r key hit
            ∙ ap (answer key) (sym (has_match-here key x (inorder l) (inorder r) hit))
        | inr miss ↦ elim (Bool-cases (is_pos (cmp x key))) [
          | inl above ↦
              find_step_left l x h r key miss above
              ∙ node_find-has_match o l key parts.0
              ∙ ap (answer key) (
                  sym (
                    has_match-left key x (inorder l) (inorder r) miss
                      (All-imp (λ y. above-ne o key x y above) (inorder r) parts.2)))
          | inr not_above ↦
              find_step_right l x h r key miss not_above
              ∙ node_find-has_match o r key parts.3
              ∙ ap (answer key) (
                  sym (
                    has_match-right key x (inorder l) (inorder r) miss (
                      All-imp (λ y. below-ne o key x y (neg_of_else (cmp x key) miss not_above))
                        (inorder l) parts.1)))
        ]
      ]
