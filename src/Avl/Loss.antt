-- ===== src/Avl/Loss.antt =====
-- `FindToRemove` (avl.c) where the data lie two levels or more below the root: the recursive call
-- hands back the parent of the removed node, and each level above takes that for its own node.
use daher_repo.Prelude.{
  ℕ, ◌+◌, ◌≤◌, ◌≡◌, refl, sym, ap, ◌∙◌, inl, inr, true, false, none, some, some_inj, ◌∷◌, arith, ℤ,
  is_pos, is_zero, ◌>>=◌, >>=-eq-some, Bool-cases, length, length-append,
}
use daher_repo.Avl.{Tree, leaf, node, Side, left, right, is_null, get_direction, refresh, node_find}
use daher_repo.Avl.Inorder.{inorder, inorder-refresh}
use daher_repo.Avl.Find.{find_step_left, find_step_right}
use daher_repo.Avl.Remove.{
  remove_below, remove_relative, remove_with_two_sons, find_to_remove, remove, pop_most_left,
}
use daher_repo.Avl.RootRemoval.{pop_most_left_lem}

module _ {ℓ} {A : Type ℓ} where
  abbrev pub size : Tree A → ℕ
  size t = length (inorder t)

  size-node : (l : Tree A) (x : A) (h : ℤ) (r : Tree A) → size (node l x h r) ≡ size l + size r + 1
  size-node l x h r = omega (arith, length-append (inorder l) (x ∷ inorder r))

  -- one node less
  size-remove_below : (t t' : Tree A) → remove_below t ≡ some t' → size t' + 1 ≡ size t
  unfolding remove_below
  size-remove_below leaf t' e = cc
  size-remove_below (node leaf x h r) t' e = omega (arith, ap size (some_inj e))
  size-remove_below (node (node a y k b) x h leaf) t' e =
      omega (arith, ap size (some_inj e), size-node (node a y k b) x h leaf)
  size-remove_below (node (node a y k b) x h (node c z m d)) t' e =
      let (p, q, i) = pop_most_left_lem c z m d in
      omega (
        arith,
        ap size (some_inj (sym (moved p q) ∙ e)),
        ap length i,
        size-node (node a y k b) p.0 h p.1,
        size-node (node a y k b) x h (node c z m d),
      )
    where
      moved :
          (p : A × Tree A)
          → pop_most_left (node c z m d) ≡ some p
          → remove_below (node (node a y k b) x h (node c z m d))
            ≡ some (node (node a y k b) p.0 h p.1)
      moved p q = rw (q, remove_with_two_sons)

  size-remove_relative :
      (l : Tree A) (x : A) (h : ℤ) (r : Tree A) (side : Side) (t' : Tree A)
      → remove_relative (node l x h r) side ≡ some t'
      → size t' + 1 ≡ size (node l x h r)
  unfolding remove_relative
  size-remove_relative l x h r left t' e =
      let (l', p, q) = >>=-eq-some (remove_below l) (λ l'. some (node l' x h r)) e in
      omega (
        arith,
        size-remove_below l l' p,
        ap size (some_inj q),
        size-node l x h r,
        size-node l' x h r,
      )
  size-remove_relative l x h r right t' e =
      let (r', p, q) = >>=-eq-some (remove_below r) (λ r'. some (node l x h r')) e in
      omega (
        arith,
        size-remove_below r r' p,
        ap size (some_inj q),
        size-node l x h r,
        size-node l x h r',
      )

  abbrev pub relative : Side → Tree A → Tree A
  relative side leaf = leaf
  relative left (node l x h r) = l
  relative right (node l x h r) = r

module _ {ℓ} {A : Type ℓ} (cmp : A → A → ℤ) where
  size-relative : (side : Side) (t : Tree A) → size (relative side t) ≤ size t
  size-relative side leaf = omega arith
  size-relative left (node l x h r) = omega (arith, size-node l x h r)
  size-relative right (node l x h r) = omega (arith, size-node l x h r)

  go_left :
      (root l : Tree A) (x : A) (h : ℤ) (r parent : Tree A) (d : A) (side : Side) {t' : Tree A}
      → is_zero (cmp x d) ≡ false
      → is_pos (cmp x d) ≡ true
      → find_to_remove cmp root (node l x h r) parent d side ≡ some t'
      → (find_to_remove cmp root l (node l x h r) d left >>= refresh) ≡ some t'
  unfolding find_to_remove
  go_left root l x h r parent d side miss p e = sym (rw (miss, p, get_direction)) ∙ e

  go_right :
      (root l : Tree A) (x : A) (h : ℤ) (r parent : Tree A) (d : A) (side : Side) {t' : Tree A}
      → is_zero (cmp x d) ≡ false
      → is_pos (cmp x d) ≡ false
      → find_to_remove cmp root (node l x h r) parent d side ≡ some t'
      → (find_to_remove cmp root r (node l x h r) d right >>= refresh) ≡ some t'
  unfolding find_to_remove
  go_right root l x h r parent d side miss p e = sym (rw (miss, p, get_direction)) ∙ e

  hit_here :
      (root l : Tree A) (x : A) (h : ℤ) (r parent : Tree A) (d : A) (side : Side)
      → is_zero (cmp x d) ≡ true
      → find_to_remove cmp root (node l x h r) parent d side ≡ remove_relative parent side
  unfolding find_to_remove
  hit_here root l x h r parent d side hit = rw hit

  size-remove_parent :
      (parent : Tree A) (side : Side) (t' : Tree A)
      → is_null parent ≡ false
      → remove_relative parent side ≡ some t'
      → size t' + 1 ≡ size parent
  size-remove_parent leaf side t' ne e = cc
  size-remove_parent (node l x h r) side t' ne e = size-remove_relative l x h r side t' e

  -- Once the data are found below `parent`, what comes back holds less than `parent` did.
  found_below :
      (root t parent : Tree A) (d : A) (side : Side) (t' : Tree A)
      → node_find cmp t d ≡ some d
      → is_null parent ≡ false
      → size t ≤ size parent
      → find_to_remove cmp root t parent d side ≡ some t'
      → size t' + 1 ≤ size parent
  found_below root leaf parent d side t' f ne le e =
      let n : none ≡ some d = (unfold node_find in f) in cc
  found_below root (node l x h r) parent d side t' f ne le e =
      elim (Bool-cases (is_zero (cmp x d))) [
        | inl hit ↦ omega (
          arith,
          size-remove_parent parent side t' ne (sym (hit_here root l x h r parent d side hit) ∙ e),
        )
        | inr miss ↦ elim (Bool-cases (is_pos (cmp x d))) [
          | inl p ↦
              let (u, q, w) =
                >>=-eq-some (find_to_remove cmp root l (node l x h r) d left) refresh
                  (go_left root l x h r parent d side miss p e) in
              omega (
                arith,
                found_below root l (node l x h r) d left u
                    (sym (find_step_left cmp l x h r d miss p) ∙ f) refl
                    (size-relative left (node l x h r)) q,
                ap length (inorder-refresh u t' w),
              )
          | inr p ↦
              let (u, q, w) =
                >>=-eq-some (find_to_remove cmp root r (node l x h r) d right) refresh
                  (go_right root l x h r parent d side miss p e) in
              omega (
                arith,
                found_below root r (node l x h r) d right u
                    (sym (find_step_right cmp l x h r d miss p) ∙ f) refl
                    (size-relative right (node l x h r)) q,
                ap length (inorder-refresh u t' w),
              )
        ]
      ]

  found_under :
      (root a : Tree A) (y : A) (k : ℤ) (b parent : Tree A) (d : A) (side : Side) (u : Tree A)
      → node_find cmp (node a y k b) d ≡ some d
      → is_zero (cmp y d) ≡ false
      → find_to_remove cmp root (node a y k b) parent d side ≡ some u
      → size u + 1 ≤ size (node a y k b)
  found_under root a y k b parent d side u f miss e = elim (Bool-cases (is_pos (cmp y d))) [
    | inl p ↦
        let (v, q, w) =
          >>=-eq-some (find_to_remove cmp root a (node a y k b) d left) refresh
            (go_left root a y k b parent d side miss p e) in
        omega (
          arith,
          found_below root a (node a y k b) d left v (sym (find_step_left cmp a y k b d miss p) ∙ f)
              refl (size-relative left (node a y k b)) q,
          ap length (inorder-refresh v u w),
        )
    | inr p ↦
        let (v, q, w) =
          >>=-eq-some (find_to_remove cmp root b (node a y k b) d right) refresh
            (go_right root a y k b parent d side miss p e) in
        omega (
          arith,
          found_below root b (node a y k b) d right v
              (sym (find_step_right cmp a y k b d miss p) ∙ f) refl
              (size-relative right (node a y k b)) q,
          ap length (inorder-refresh v u w),
        )
  ]

  -- Let the root not hold the data, and let the son on the side where the data belong hold other data
  -- and have the data found below it. Whenever `AVLRemove` returns, the new tree holds less than the
  -- subtree of that son did: the root and its other side are lost with the removed data.
  pub remove_forgets :
      (l : Tree A) (x : A) (h : ℤ) (r : Tree A) (d : A) (a : Tree A) (y : A) (k : ℤ) (b t : Tree A)
      → relative (get_direction cmp x d) (node l x h r) ≡ node a y k b
      → is_zero (cmp x d) ≡ false
      → is_zero (cmp y d) ≡ false
      → node_find cmp (node a y k b) d ≡ some d
      → remove cmp (node l x h r) d ≡ some t
      → size t + 1 ≤ size (node a y k b)
  unfolding remove get_direction
  remove_forgets l x h r d a y k b t son miss miss' f e = elim (Bool-cases (is_pos (cmp x d))) [
    | inl p ↦
        let (u, q, w) =
          >>=-eq-some (find_to_remove cmp (node l x h r) l (node l x h r) d left) refresh
            (go_left (node l x h r) l x h r leaf d left miss p searches) in
        omega (
          arith,
          found_under (node l x h r) a y k b (node l x h r) d left u f miss' (rw (← is_left p) q),
          ap length (inorder-refresh u t w),
        )
    | inr p ↦
        let (u, q, w) =
          >>=-eq-some (find_to_remove cmp (node l x h r) r (node l x h r) d right) refresh
            (go_right (node l x h r) l x h r leaf d left miss p searches) in
        omega (
          arith,
          found_under (node l x h r) a y k b (node l x h r) d right u f miss' (rw (← is_right p) q),
          ap length (inorder-refresh u t w),
        )
  ]
    where
      searches : find_to_remove cmp (node l x h r) (node l x h r) leaf d left ≡ some t
      searches = rw miss at e

      is_left : is_pos (cmp x d) ≡ true → l ≡ node a y k b
      is_left p = sym (rw (p, get_direction)) ∙ son

      is_right : is_pos (cmp x d) ≡ false → r ≡ node a y k b
      is_right p = sym (rw (p, get_direction)) ∙ son
