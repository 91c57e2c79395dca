-- ===== src/Heap/Order.antt =====
-- heap.c: the heap order, as no element being greater than its parent.
use daher_repo.Prelude.{
  ℕ, zero, suc, ◌+◌, ◌*◌, ◌<◌, ◌≡◌, ◌≢◌, sym, ap, ◌∙◌, true, some, List, [], ◌∷◌, arith, length,
  length-set, set, get_or, get_or-set_self, get_or-set_ne, get_elem?, get_elem?-eq-get_or, some_inj,
  Bool-cases, ==→eq, ◌==◌, inl, inr, ◌⊎◌, ℤ, is_pos, is_neg, Leq, IsOrder,
}
use mathlib.Core.Path.{subst}
use daher_repo.Heap.{get_parent}

pub get_parent-lt : (c : ℕ) → 0 < c → get_parent c < c
unfolding get_parent
get_parent-lt c h = ground arith

pub get_parent-child : (c i : ℕ) → 0 < c → get_parent c ≡ i → (c ≡ 2 * i + 1) ⊎ (c ≡ 2 * i + 2)
unfolding get_parent
get_parent-child c i h e = ground arith

pub parent_of_child : (i : ℕ) → (get_parent (2 * i + 1) ≡ i) × (get_parent (2 * i + 2) ≡ i)
unfolding get_parent
parent_of_child i = ground arith

pub same_or_not : (i j : ℕ) → (i ≡ j) ⊎ (i ≢ j)
same_or_not i j = elim (Bool-cases (i == j)) [
  | inl same ↦ inl (==→eq i j same)
  | inr other ↦ inr (λ e. ground (arith, other, e))
]

pub get_elem?-inside {ℓ} :
    {A : Type ℓ} (xs : List A) (i : ℕ) {a : A} → get_elem? xs i ≡ some a → i < length xs
get_elem?-inside [] i h = cc
get_elem?-inside (x ∷ xs) zero h = omega arith
get_elem?-inside (x ∷ xs) (suc i) h = omega (arith, get_elem?-inside xs i h)

-- `e` stands for what is outside of the array.
module _ {ℓ} {A : Type ℓ} (e : A) where
  abbrev pub swapped : List A → ℕ → ℕ → List A
  swapped xs i j = set (set xs i (get_or xs j e)) j (get_or xs i e)

  pub length-swapped : (xs : List A) (i j : ℕ) → length (swapped xs i j) ≡ length xs
  length-swapped xs i j =
      length-set (set xs i (get_or xs j e)) j (get_or xs i e) ∙ length-set xs i (get_or xs j e)

  pub swapped_second :
      (xs : List A) (i j : ℕ) → j < length xs → get_or (swapped xs i j) j e ≡ get_or xs i e
  swapped_second xs i j h =
      get_or-set_self (set xs i (get_or xs j e)) j (get_or xs i e) e
        (omega (arith, length-set xs i (get_or xs j e)))

  pub swapped_first :
      (xs : List A) (i j : ℕ) → i < length xs → j ≢ i → get_or (swapped xs i j) i e ≡ get_or xs j e
  swapped_first xs i j h ne =
      get_or-set_ne (set xs i (get_or xs j e)) (get_or xs i e) e ne
      ∙ get_or-set_self xs i (get_or xs j e) e h

  pub swapped_other :
      (xs : List A) (i j c : ℕ) → i ≢ c → j ≢ c → get_or (swapped xs i j) c e ≡ get_or xs c e
  swapped_other xs i j c n m =
      get_or-set_ne (set xs i (get_or xs j e)) (get_or xs i e) e m
      ∙ get_or-set_ne xs (get_or xs j e) e n

-- Every element but the first is not greater than its parent.
abbrev pub IsHeap {ℓ} : {A : Type ℓ} → (A → A → ℤ) → List A → Type ℓ
IsHeap {A} cmp xs =
    (c : ℕ) (a b : A)
    → 0 < c
    → get_elem? xs (get_parent c) ≡ some a
    → get_elem? xs c ≡ some b
    → Leq cmp b a

module _ {ℓ} {A : Type ℓ} (cmp : A → A → ℤ) (e : A) where
  pub Leq-by : {a a' b b' : A} → a ≡ a' → b ≡ b' → Leq cmp a' b' → Leq cmp a b
  Leq-by p q l = rw (p, q) l

  -- the same, where the array is read with `e` outside of it
  abbrev pub IsOrdered : List A → Type 0
  IsOrdered xs =
      (c : ℕ) → 0 < c → c < length xs → Leq cmp (get_or xs c e) (get_or xs (get_parent c) e)

  pub IsHeap-IsOrdered : (xs : List A) → IsHeap cmp xs → IsOrdered xs
  IsHeap-IsOrdered xs h c p q =
      h c (get_or xs (get_parent c) e) (get_or xs c e) p
        (get_elem?-eq-get_or xs (get_parent c) e (omega (arith, get_parent-lt c p)))
        (get_elem?-eq-get_or xs c e q)

  pub IsOrdered-IsHeap : (xs : List A) → IsOrdered xs → IsHeap cmp xs
  IsOrdered-IsHeap xs h c a b p at_a at_b =
      let inside : c < length xs = get_elem?-inside xs c at_b in
      Leq-by (some_inj (sym at_b ∙ get_elem?-eq-get_or xs c e inside))
        (some_inj (
          sym at_a
          ∙ get_elem?-eq-get_or xs (get_parent c) e (omega (arith, get_parent-lt c p, inside))))
        (h c p inside)

  -- Only the edge above `i` may be out of order.
  pub record UpInv (xs : List A) (i : ℕ) : Type 0 where
    pub inside : i < length xs
    pub edges :
        (c : ℕ)
        → 0 < c
        → c < length xs
        → c ≢ i
        → Leq cmp (get_or xs c e) (get_or xs (get_parent c) e)
    pub bridged :
        (c : ℕ)
        → 0 < c
        → c < length xs
        → get_parent c ≡ i
        → 0 < i
        → Leq cmp (get_or xs c e) (get_or xs (get_parent i) e)

  -- Only the edges below `i` may be out of order.
  pub record DownInv (xs : List A) (i : ℕ) : Type 0 where
    pub edges :
        (c : ℕ)
        → 0 < c
        → c < length xs
        → get_parent c ≢ i
        → Leq cmp (get_or xs c e) (get_or xs (get_parent c) e)
    pub bridged :
        (c : ℕ)
        → 0 < c
        → c < length xs
        → get_parent c ≡ i
        → 0 < i
        → Leq cmp (get_or xs c e) (get_or xs (get_parent i) e)

  pub swapped-UpInv :
      IsOrder cmp
      → (xs : List A) (i : ℕ) → UpInv xs i
      → 0 < i
      → is_neg (cmp (get_or xs (get_parent i) e) (get_or xs i e)) ≡ true
      → UpInv (swapped e xs (get_parent i) i) (get_parent i)
  swapped-UpInv o xs i v pos below = record {
    inside = omega (arith, v.inside, up, length-swapped e xs p i);
    edges = λ c h k ne. elim (same_or_not c i) [
      | inl at_i ↦
          Leq-by (ap (λ j. get_or ys j e) at_i ∙ second)
            (ap (λ j. get_or ys (get_parent j) e) at_i ∙ first) lower
      | inr off_i ↦ elim (same_or_not (get_parent c) i) [
        | inl at ↦
            Leq-by (other c (λ q. ne (sym q)) off_i) (ap (λ j. get_or ys j e) at ∙ second)
              (v.bridged c h (inside c k) at pos)
        | inr off ↦ elim (same_or_not (get_parent c) p) [
          | inl at ↦ Leq-by (other c (λ q. ne (sym q)) off_i) (ap (λ j. get_or ys j e) at ∙ first) (
              o.leq_trans (get_or xs c e) (get_or xs p e) (get_or xs i e)
                (subst (λ j. Leq cmp (get_or xs c e) (get_or xs j e)) at
                  (v.edges c h (inside c k) off_i))
                lower)
          | inr off_p ↦
              Leq-by (other c (λ q. ne (sym q)) off_i)
                (other (get_parent c) (λ q. off_p (sym q)) off) (v.edges c h (inside c k) off_i)
        ]
      ]
    ];
    bridged = λ c h k at top.
        let grand : get_or ys (get_parent p) e ≡ get_or xs (get_parent p) e =
          other (get_parent p) (λ q. omega (arith, q, get_parent-lt p top))
            (λ q. omega (arith, q, get_parent-lt p top, up)) in
        let step : Leq cmp (get_or xs p e) (get_or xs (get_parent p) e) =
          v.edges p top (omega (arith, up, v.inside)) (λ q. omega (arith, q, up)) in
        elim (same_or_not c i) [
          | inl at_i ↦ Leq-by (ap (λ j. get_or ys j e) at_i ∙ second) grand step
          | inr off_i ↦
              Leq-by (other c (λ q. omega (arith, q, at, get_parent-lt c h)) off_i) grand (
                o.leq_trans (get_or xs c e) (get_or xs p e) (get_or xs (get_parent p) e)
                  (subst (λ j. Leq cmp (get_or xs c e) (get_or xs j e)) at
                    (v.edges c h (inside c k) off_i))
                  step)
        ];
  }
    where
      p : ℕ
      p = get_parent i

      ys : List A
      ys = swapped e xs (get_parent i) i

      up : get_parent i < i
      up = get_parent-lt i pos

      inside : (c : ℕ) → c < length ys → c < length xs
      inside c k = omega (arith, k, length-swapped e xs (get_parent i) i)

      second : get_or ys i e ≡ get_or xs (get_parent i) e
      second = swapped_second e xs (get_parent i) i v.inside

      first : get_or ys (get_parent i) e ≡ get_or xs i e
      first =
          swapped_first e xs (get_parent i) i (omega (arith, v.inside, up))
            (λ q. omega (arith, q, up))

      other : (c : ℕ) → get_parent i ≢ c → c ≢ i → get_or ys c e ≡ get_or xs c e
      other c n m = swapped_other e xs (get_parent i) i c n (λ q. m (sym q))

      lower : Leq cmp (get_or xs (get_parent i) e) (get_or xs i e)
      lower =
          o.asym (get_or xs i e) (get_or xs (get_parent i) e)
            (sym (o.neg_swap (get_or xs (get_parent i) e) (get_or xs i e)) ∙ below)

  pub swapped-DownInv :
      IsOrder cmp
      → (xs : List A) (i m : ℕ) → DownInv xs i
      → i < length xs
      → m < length xs
      → get_parent m ≡ i
      → 0 < m
      → ((c : ℕ)
          → 0 < c
          → c < length xs
          → get_parent c ≡ i
          → Leq cmp (get_or xs c e) (get_or xs m e))
      → is_pos (cmp (get_or xs m e) (get_or xs i e)) ≡ true
      → DownInv (swapped e xs i m) m
  swapped-DownInv o xs i m v inside_i inside_m parent pos greatest above = record {
    edges = λ c h k off_m. elim (same_or_not c i) [
      | inl at_i ↦
          let top : 0 < i = omega (arith, at_i, h) in
          let away : get_parent i < i = get_parent-lt i top in
          Leq-by (ap (λ j. get_or ys j e) at_i ∙ first)
            (ap (λ j. get_or ys (get_parent j) e) at_i
              ∙ other (get_parent i) (λ q. omega (arith, q, away))
                  (λ q. omega (arith, q, away, lower)))
            (v.bridged m pos inside_m parent top)
      | inr off_i ↦ elim (same_or_not c m) [
        | inl at_m ↦
            Leq-by (ap (λ j. get_or ys j e) at_m ∙ second)
              (ap (λ j. get_or ys (get_parent j) e) at_m ∙ ap (λ j. get_or ys j e) parent ∙ first)
              under
        | inr off ↦ elim (same_or_not (get_parent c) i) [
          | inl at ↦
              Leq-by (other c off_i off) (ap (λ j. get_or ys j e) at ∙ first)
                (greatest c h (inside c k) at)
          | inr away ↦
              Leq-by (other c off_i off) (other (get_parent c) away off_m)
                (v.edges c h (inside c k) away)
        ]
      ]
    ];
    bridged = λ c h k at top.
        Leq-by
          (other c (λ q. omega (arith, q, at, lower, get_parent-lt c h))
            (λ q. omega (arith, q, at, get_parent-lt c h)))
          (ap (λ j. get_or ys j e) parent ∙ first)
          (subst (λ j. Leq cmp (get_or xs c e) (get_or xs j e)) at
            (v.edges c h (inside c k) (λ q. omega (arith, q, at, lower))));
  }
    where
      ys : List A
      ys = swapped e xs i m

      lower : i < m
      lower = omega (arith, parent, get_parent-lt m pos)

      inside : (c : ℕ) → c < length ys → c < length xs
      inside c k = omega (arith, k, length-swapped e xs i m)

      second : get_or ys m e ≡ get_or xs i e
      second = swapped_second e xs i m inside_m

      first : get_or ys i e ≡ get_or xs m e
      first = swapped_first e xs i m inside_i (λ q. omega (arith, q, lower))

      other : (c : ℕ) → c ≢ i → c ≢ m → get_or ys c e ≡ get_or xs c e
      other c n k = swapped_other e xs i m c (λ q. n (sym q)) (λ q. k (sym q))

      under : Leq cmp (get_or xs i e) (get_or xs m e)
      under = o.asym (get_or xs m e) (get_or xs i e) above
