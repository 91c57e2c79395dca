-- ===== src/Avl/Balance.antt =====
-- The balance of AVL trees (avl.c): what `BalanceTreeIfNeeded` makes of a subtree that grew by one.
use daher_repo.Prelude.{
  ℕ, suc, ◌+◌, ◌≤◌, ◌<◌, max, ◌≡◌, refl, some, arith, ℤ, pos, sub_ℕ, dec_le, sub_ℕ_not_above,
  sub_ℕ_not_below, sub_ℕ_above, sub_ℕ_below, sub_ℕ_nonneg, sub_ℕ_neg, sub_ℕ_pos, sub_ℕ_nonpos,
}
use daher_repo.Avl.{Tree, leaf, node, node_heigth, rotate_right, rotate_left, refresh}

pub node_heigth-leaf {ℓ} : (A : Type ℓ) → node_heigth {A = A} leaf ≡ 0
unfolding node_heigth
node_heigth-leaf A = refl

module _ {ℓ} {A : Type ℓ} where
  -- At each node the heights of the two sides differ by at most one.
  abbrev pub IsBalanced : Tree A → Type 0
  IsBalanced leaf = Unit
  IsBalanced (node l x h r) =
      (node_heigth l ≤ node_heigth r + 1)
      × (node_heigth r ≤ node_heigth l + 1)
      × IsBalanced l
      × IsBalanced r

  -- The root stores its balance factor, and leans to a side unless it has no relatives.
  abbrev pub Leans : Tree A → Type 0
  Leans leaf = ⊥
  Leans (node l x h r) =
      (h ≡ sub_ℕ (node_heigth l) (node_heigth r))
      × (node_heigth l ≡ node_heigth r → node_heigth l ≡ 0)

  pub node_heigth-node :
      (l : Tree A) (x : A) (h : ℤ) (r : Tree A)
      → node_heigth (node l x h r) ≡ suc (max (node_heigth l) (node_heigth r))
  unfolding node_heigth
  node_heigth-node leaf x h leaf = omega arith
  node_heigth-node leaf x h (node b y k c) = ground arith
  node_heigth-node (node a y k b) x h r = ground arith

  -- With no side two higher than the other, only the balance factor is stored.
  pub refresh_even :
      (l : Tree A) (x : A) (h : ℤ) (r : Tree A)
      → node_heigth l ≤ node_heigth r + 1
      → node_heigth r ≤ node_heigth l + 1
      → refresh (node l x h r) ≡ some (node l x (sub_ℕ (node_heigth l) (node_heigth r)) r)
  unfolding refresh
  refresh_even l x h r p q = rw (sub_ℕ_not_above _ _ p, sub_ℕ_not_below _ _ q)

  abbrev factor : Tree A → Tree A → ℤ
  factor l r = sub_ℕ (node_heigth l) (node_heigth r)

  -- what `RotateRight` and `RotateLeft` make, the stored heights included
  abbrev right_rotated : Tree A → A → ℤ → Tree A → A → ℤ → Tree A → Tree A
  right_rotated a y hy b x hx c =
      let lower = node b x (pos (node_heigth (node b x hx c))) c in
      node a y (pos (node_heigth (node a y hy lower))) lower

  abbrev left_rotated : Tree A → A → ℤ → Tree A → A → ℤ → Tree A → Tree A
  left_rotated a x hx b y hy c =
      let lower = node a x (pos (node_heigth (node a x hx b))) b in
      node lower y (pos (node_heigth (node lower y hy c))) c

  -- a side that is two higher, and leans outwards: one rotation
  refresh_left_left :
      (a : Tree A) (y : A) (b : Tree A) (x : A) (h : ℤ) (r : Tree A)
      → node_heigth b ≤ node_heigth a
      → node_heigth r + 2 ≤ node_heigth (node a y (factor a b) b)
      → refresh (node (node a y (factor a b) b) x h r)
        ≡ some (right_rotated a y (factor a b) b x (factor (node a y (factor a b) b) r) r)
  unfolding refresh rotate_right
  refresh_left_left a y b x h r p e = rw (
    sub_ℕ_above (node_heigth (node a y (factor a b) b)) (node_heigth r) e,
    sub_ℕ_nonneg (node_heigth a) (node_heigth b) p,
  )

  refresh_right_right :
      (l : Tree A) (x : A) (h : ℤ) (a : Tree A) (y : A) (b : Tree A)
      → node_heigth a ≤ node_heigth b
      → node_heigth l + 2 ≤ node_heigth (node a y (factor a b) b)
      → refresh (node l x h (node a y (factor a b) b))
        ≡ some (left_rotated l x (factor l (node a y (factor a b) b)) a y (factor a b) b)
  unfolding refresh rotate_left
  refresh_right_right l x h a y b p e = rw (
    sub_ℕ_not_above (node_heigth l) (node_heigth (node a y (factor a b) b)) (omega (arith, e)),
    sub_ℕ_below (node_heigth l) (node_heigth (node a y (factor a b) b)) e,
    sub_ℕ_nonpos (node_heigth a) (node_heigth b) p,
  )

  -- a side that is two higher, and leans inwards: two rotations
  refresh_left_right :
      (a : Tree A) (y : A) (b1 : Tree A) (z : A) (hz : ℤ) (b2 : Tree A) (x : A) (h : ℤ) (r : Tree A)
      → let b = node b1 z hz b2 in
        node_heigth a < node_heigth b
        → node_heigth r + 2 ≤ node_heigth (node a y (factor a b) b)
        → let lower = node a y (pos (node_heigth (node a y (factor a b) b1))) b1 in
          refresh (node (node a y (factor a b) b) x h r)
          ≡ some (
              right_rotated lower z
                (pos (node_heigth (node lower z hz b2)))
                b2
                x
                (factor (node a y (factor a b) b) r)
                r)
  unfolding refresh rotate_right rotate_left
  refresh_left_right a y b1 z hz b2 x h r p e = rw (
    sub_ℕ_above (node_heigth (node a y (factor a (node b1 z hz b2)) (node b1 z hz b2)))
        (node_heigth r) e,
    sub_ℕ_neg (node_heigth a) (node_heigth (node b1 z hz b2)) p,
  )

  refresh_right_left :
      (l : Tree A) (x : A) (h : ℤ) (a1 : Tree A) (z : A) (hz : ℤ) (a2 : Tree A) (y : A) (b : Tree A)
      → let a = node a1 z hz a2 in
        node_heigth b < node_heigth a
        → node_heigth l + 2 ≤ node_heigth (node a y (factor a b) b)
        → let lower = node a2 y (pos (node_heigth (node a2 y (factor a b) b))) b in
          refresh (node l x h (node a y (factor a b) b))
          ≡ some (
              left_rotated l x
                (factor l (node a y (factor a b) b))
                a1
                z
                (pos (node_heigth (node a1 z hz lower)))
                lower)
  unfolding refresh rotate_right rotate_left
  refresh_right_left l x h a1 z hz a2 y b p e = rw (
    sub_ℕ_not_above (node_heigth l)
        (node_heigth (node (node a1 z hz a2) y (factor (node a1 z hz a2) b) b)) (omega (arith, e)),
    sub_ℕ_below (node_heigth l)
        (node_heigth (node (node a1 z hz a2) y (factor (node a1 z hz a2) b) b)) e,
    sub_ℕ_pos (node_heigth (node a1 z hz a2)) (node_heigth b) p,
  )

  -- A refresh of `t` succeeds, and gives a balanced tree of height `n`.
  abbrev pub Refreshes : Tree A → ℕ → Type ℓ
  Refreshes t n = (t' : Tree A) × (refresh t ≡ some t') × IsBalanced t' × (node_heigth t' ≡ n)

  refresh_left_inner :
      (a : Tree A) (y : A) (b : Tree A) (x : A) (h : ℤ) (r : Tree A)
      → IsBalanced (node a y (factor a b) b)
      → IsBalanced r
      → node_heigth a < node_heigth b
      → node_heigth b ≡ node_heigth r + 1
      → Refreshes (node (node a y (factor a b) b) x h r) (node_heigth r + 2)
  refresh_left_inner a y leaf x h r bl br p e = absurd (omega (arith, node_heigth-leaf A))
  refresh_left_inner a y (node b1 z hz b2) x h r bl br p e =
      let k1 = pos (node_heigth (node a y (factor a (node b1 z hz b2)) b1)) in
      let lower = node a y k1 b1 in
      let k2 = pos (node_heigth (node lower z hz b2)) in
      let fx = factor (node a y (factor a (node b1 z hz b2)) (node b1 z hz b2)) r in
      let k3 = pos (node_heigth (node b2 x fx r)) in
      let upper = node b2 x k3 r in
      (
        right_rotated lower z k2 b2 x fx r,
        refresh_left_right a y b1 z hz b2 x h r p
            (omega (arith, node_heigth-node a y (factor a (node b1 z hz b2)) (node b1 z hz b2))),
        ground (
          arith,
          node_heigth-node b1 z hz b2,
          node_heigth-node a y k1 b1,
          node_heigth-node b2 x k3 r,
        ),
        omega (
          arith,
          node_heigth-node b1 z hz b2,
          node_heigth-node a y k1 b1,
          node_heigth-node b2 x k3 r,
          node_heigth-node lower z (pos (node_heigth (node lower z k2 upper))) upper,
        ),
      )

  refresh_left_leans :
      (a : Tree A) (y : A) (b : Tree A) (x : A) (h : ℤ) (r : Tree A)
      → IsBalanced (node a y (factor a b) b)
      → IsBalanced r
      → (node_heigth a ≡ node_heigth b → node_heigth a ≡ 0)
      → max (node_heigth a) (node_heigth b) ≡ node_heigth r + 1
      → Refreshes (node (node a y (factor a b) b) x h r) (node_heigth r + 2)
  refresh_left_leans a y b x h r bl br lean e = elim (dec_le (node_heigth b) (node_heigth a)) [
    | yes p ↦
        let fx = factor (node a y (factor a b) b) r in
        let k = pos (node_heigth (node b x fx r)) in
        let lower = node b x k r in
        (
          right_rotated a y (factor a b) b x fx r,
          refresh_left_left a y b x h r p (omega (arith, node_heigth-node a y (factor a b) b)),
          ground (arith, node_heigth-node b x k r),
          grind (
            arith,
            node_heigth-node b x k r,
            node_heigth-node a y (pos (node_heigth (node a y (factor a b) lower))) lower,
          ),
        )
    | no p ↦ refresh_left_inner a y b x h r bl br (omega arith) (omega arith)
  ]

  -- A left side that grew to two above the right one is rotated down again.
  pub refresh_left :
      (l : Tree A) (x : A) (h : ℤ) (r : Tree A)
      → IsBalanced l
      → IsBalanced r
      → Leans l
      → node_heigth l ≡ node_heigth r + 2
      → Refreshes (node l x h r) (node_heigth r + 2)
  refresh_left leaf x h r bl br lean e = absurd lean
  refresh_left (node a y hy b) x h r bl br lean e =
      rw lean.0
        (refresh_left_leans a y b x h r bl br lean.1 (omega (arith, e, node_heigth-node a y hy b)))

  refresh_right_inner :
      (l : Tree A) (x : A) (h : ℤ) (a : Tree A) (y : A) (b : Tree A)
      → IsBalanced l
      → IsBalanced (node a y (factor a b) b)
      → node_heigth b < node_heigth a
      → node_heigth a ≡ node_heigth l + 1
      → Refreshes (node l x h (node a y (factor a b) b)) (node_heigth l + 2)
  refresh_right_inner l x h leaf y b bl br p e = absurd (omega (arith, node_heigth-leaf A))
  refresh_right_inner l x h (node a1 z hz a2) y b bl br p e =
      let k1 = pos (node_heigth (node a2 y (factor (node a1 z hz a2) b) b)) in
      let lower = node a2 y k1 b in
      let k2 = pos (node_heigth (node a1 z hz lower)) in
      let fx = factor l (node (node a1 z hz a2) y (factor (node a1 z hz a2) b) b) in
      let k3 = pos (node_heigth (node l x fx a1)) in
      let upper = node l x k3 a1 in
      (
        left_rotated l x fx a1 z k2 lower,
        refresh_right_left l x h a1 z hz a2 y b p
            (omega (arith, node_heigth-node (node a1 z hz a2) y (factor (node a1 z hz a2) b) b)),
        ground (
          arith,
          node_heigth-node a1 z hz a2,
          node_heigth-node a2 y k1 b,
          node_heigth-node l x k3 a1,
        ),
        omega (
          arith,
          node_heigth-node a1 z hz a2,
          node_heigth-node a2 y k1 b,
          node_heigth-node l x k3 a1,
          node_heigth-node upper z (pos (node_heigth (node upper z k2 lower))) lower,
        ),
      )

  refresh_right_leans :
      (l : Tree A) (x : A) (h : ℤ) (a : Tree A) (y : A) (b : Tree A)
      → IsBalanced l
      → IsBalanced (node a y (factor a b) b)
      → (node_heigth a ≡ node_heigth b → node_heigth a ≡ 0)
      → max (node_heigth a) (node_heigth b) ≡ node_heigth l + 1
      → Refreshes (node l x h (node a y (factor a b) b)) (node_heigth l + 2)
  refresh_right_leans l x h a y b bl br lean e = elim (dec_le (node_heigth a) (node_heigth b)) [
    | yes p ↦
        let fx = factor l (node a y (factor a b) b) in
        let k = pos (node_heigth (node l x fx a)) in
        let lower = node l x k a in
        (
          left_rotated l x fx a y (factor a b) b,
          refresh_right_right l x h a y b p (omega (arith, node_heigth-node a y (factor a b) b)),
          ground (arith, node_heigth-node l x k a),
          grind (
            arith,
            node_heigth-node l x k a,
            node_heigth-node lower y (pos (node_heigth (node lower y (factor a b) b))) b,
          ),
        )
    | no p ↦ refresh_right_inner l x h a y b bl br (omega arith) (omega arith)
  ]

  -- A right side that grew to two above the left one is rotated down again.
  pub refresh_right :
      (l : Tree A) (x : A) (h : ℤ) (r : Tree A)
      → IsBalanced l
      → IsBalanced r
      → Leans r
      → node_heigth r ≡ node_heigth l + 2
      → Refreshes (node l x h r) (node_heigth l + 2)
  refresh_right l x h leaf bl br lean e = absurd lean
  refresh_right l x h (node a y hy b) bl br lean e =
      rw lean.0
        (refresh_right_leans l x h a y b bl br lean.1 (omega (arith, e, node_heigth-node a y hy b)))
