-- ===== src/Heap/Priority.antt =====
-- heap.c as a priority queue: `HeapPush` and `HeapPop` keep the heap order, `HeapPeek` reads a greatest
-- element, and `HeapRemove` can break the order.
use mathlib.Core.List.{Perm}
use mathlib.Core.List.Perm
use native.Mathlib.Decide.{dec_lt}
use daher_repo.Prelude.{
  ℕ, zero, suc, ◌-◌, ◌*◌, ◌<◌, ◌≡◌, ◌≢◌, refl, sym, ap, ◌∙◌, ◌^◌, Option, none, some, some_inj,
  List, [], ◌∷◌, ◌++◌, arith, length, length-append, get_or, get_elem?, get_elem?-eq-get_or,
  get_elem?-some, get_or-append_left, inl, inr, ◌⊎◌, ℤ, Leq, IsOrder,
}
use mathlib.Core.Path.{subst}
use daher_repo.Vector.{Vector, IsRealloc, pop_back, size}
use daher_repo.Vector.Contents.{IsVector, get_element_lem, size_lem}
use daher_repo.Vector.Growth.{push_back_lem}
use daher_repo.Heap.{get_parent, pop, push, peek}
use daher_repo.Heap.Order.{
  get_parent-lt, get_elem?-inside, IsHeap, UpInv, DownInv, IsHeap-IsOrdered, IsOrdered-IsHeap,
  Leq-by,
}
use daher_repo.Heap.Ordering.{heapify_up-Restores, heapify_down-Restores, Leq-refl}
use daher_repo.Heap.Removing.{drop_at, down_empty, snoc-perm, nil_of}

value_or {ℓ} : {A : Type ℓ} → Option A → A → A
value_or none d = d
value_or (some a) d = a

get_or-get_elem? {ℓ} :
    {A : Type ℓ} (xs : List A) (i : ℕ) (d : A) → get_or xs i d ≡ value_or (get_elem? xs i) d
unfolding value_or
get_or-get_elem? [] i d = refl
get_or-get_elem? (x ∷ xs) zero d = refl
get_or-get_elem? (x ∷ xs) (suc i) d = get_or-get_elem? xs i d

-- Two arrays with the same element at an index read alike there.
reads_alike {ℓ} :
    {A : Type ℓ} (xs ys : List A) (i : ℕ) (d : A)
    → get_elem? xs i ≡ get_elem? ys i
    → get_or xs i d ≡ get_or ys i d
reads_alike xs ys i d e =
    get_or-get_elem? xs i d ∙ ap (λ t. value_or t d) e ∙ sym (get_or-get_elem? ys i d)

module _ {ℓ} {A : Type ℓ} (cmp : A → A → ℤ) (o : IsOrder cmp) where
  root_greatest :
      (k : ℕ) (x : A) (xs : List A) (i : ℕ) (y : A)
      → IsHeap cmp (x ∷ xs)
      → i < k
      → get_elem? (x ∷ xs) i ≡ some y
      → Leq cmp y x
  root_greatest zero x xs i y h f at = elim f [ ]
  root_greatest (suc k) x xs zero y h f at =
      Leq-by cmp x (some_inj (sym at)) refl (Leq-refl cmp x o x)
  root_greatest (suc k) x xs (suc i) y h f at =
      let up : get_parent (suc i) < suc i = get_parent-lt (suc i) (omega arith) in
      let inside : suc i < length (x ∷ xs) = get_elem?-inside (x ∷ xs) (suc i) at in
      let (p, at_p) = get_elem?-some (x ∷ xs) (get_parent (suc i)) (omega (arith, up, inside)) in
      o.leq_trans y p x (h (suc i) p y (omega arith) at_p at)
        (root_greatest k x xs (get_parent (suc i)) p h (omega (arith, up)) at_p)

  -- Under an order, and on a heap that is not empty, `HeapPeek` returns an element that no other
  -- is greater than.
  pub peek-greatest :
      (v : Vector A) (x : A) (xs : List A)
      → IsVector v (x ∷ xs)
      → IsHeap cmp (x ∷ xs)
      → (peek cmp v ≡ some x) × ((i : ℕ) (y : A) → get_elem? (x ∷ xs) i ≡ some y → Leq cmp y x)
  unfolding peek
  peek-greatest v x xs r h = (
    get_element_lem v (x ∷ xs) 0 r (omega arith),
    (λ i y at. root_greatest (suc i) x xs i y h (omega arith) at),
  )

  appended-UpInv : (xs : List A) (x : A) → IsHeap cmp xs → UpInv cmp x (xs ++ (x ∷ [])) (length xs)
  appended-UpInv xs x h =
      let long : length (xs ++ (x ∷ [])) ≡ suc (length xs) =
        length-append xs (x ∷ []) ∙ omega arith in
      record {
        inside = omega (arith, long);
        edges = λ c p q ne.
            let inside : c < length xs = omega (arith, q, long, before c q long ne) in
            Leq-by cmp x (get_or-append_left xs (x ∷ []) c x inside)
              (get_or-append_left xs (x ∷ []) (get_parent c) x
                (omega (arith, get_parent-lt c p, inside)))
              (IsHeap-IsOrdered cmp x xs h c p inside);
        bridged = λ c p q at top. absurd (omega (arith, get_parent-lt c p, q, at, long));
      }
    where
      before :
          (c : ℕ)
          → c < length (xs ++ (x ∷ []))
          → length (xs ++ (x ∷ [])) ≡ suc (length xs)
          → c ≢ length xs
          → c < length xs
      before c q long ne = elim (dec_lt c (length xs)) [
        | yes l ↦ l
        | no g ↦ absurd (ne (omega (arith, q, long, g)))
      ]

  -- Under an order, `HeapPush` on a heap in a vector of a capacity from 1 to 2 ^ 30 - 1 stays inside of
  -- the array, adds the data to the elements and leaves them in heap order; only where the array is
  -- full and no memory is left does it return 1, and then nothing has changed.
  pub push-IsHeap :
      (realloc : List A → ℕ → Option (List A))
      → IsRealloc realloc
      → (v : Vector A) (x : A) (xs : List A) → IsVector v xs
      → IsHeap cmp xs
      → 0 < v.capacity
      → v.capacity < 2 ^ 30
      → ((w : Vector A) × (ys : List A) × (push cmp realloc v x ≡ some (0, w))
          × IsVector w ys
          × IsHeap cmp ys
          × Perm ys (x ∷ xs))
        ⊎ ((push cmp realloc v x ≡ some (1, v))
            × (length xs ≡ v.capacity)
            × (realloc v.elements (2 * v.capacity) ≡ none))
  unfolding push
  push-IsHeap realloc law v x xs r heap h k = elim (push_back_lem realloc law v x xs r h k) [
    | inr (e, full, no_memory) ↦ inr (rw e, full, no_memory)
    | inl (w, e, s) ↦
        let long : length (xs ++ (x ∷ [])) ≡ suc (length xs) =
          length-append xs (x ∷ []) ∙ omega arith in
        let counted : size w ≡ suc (length xs) = size_lem w (xs ++ (x ∷ [])) s ∙ long in
        let at : size w - 1 ≡ length xs = omega (arith, counted) in
        let there : x ≡ get_or (xs ++ (x ∷ [])) (size w - 1) x =
          sym (ap (λ j. get_or (xs ++ (x ∷ [])) j x) at ∙ last_read xs) in
        let (u, ys, ran, t, order, p) =
          heapify_up-Restores cmp x o (size w) w (xs ++ (x ∷ [])) (size w - 1) x s
            (subst (UpInv cmp x (xs ++ (x ∷ []))) (sym at) (appended-UpInv xs x heap)) there
            (omega (arith, counted)) in
        inl (u, ys, rw (e, ran), t, IsOrdered-IsHeap cmp x ys order, Perm.trans p (snoc-perm xs x))
  ]
    where
      last_read : (zs : List A) → get_or (zs ++ (x ∷ [])) (length zs) x ≡ x
      last_read [] = refl
      last_read (z ∷ zs) = last_read zs

  -- Under an order, `HeapPop` of a heap that is not empty stays inside of the array, takes the first
  -- element out and leaves the others in heap order.
  pub pop-IsHeap :
      (v : Vector A) (x : A) (xs : List A)
      → IsVector v (x ∷ xs)
      → IsHeap cmp (x ∷ xs)
      → (w : Vector A) × (ys : List A) × (pop cmp v ≡ some w)
        × IsVector w ys
        × IsHeap cmp ys
        × Perm (x ∷ ys) (x ∷ xs)
  unfolding pop
  pop-IsHeap v x xs r heap =
      let (last, w, zs, d) = drop_at v (x ∷ xs) 0 (length xs) x r refl (omega arith) refl in
      let alike : (c : ℕ) → c < length zs → 0 ≢ c → get_or zs c x ≡ get_or (x ∷ xs) c x =
        (λ c q ne. reads_alike zs (x ∷ xs) c x (d.others c (omega (arith, d.shorter, q)) ne)) in
      elim (dec_lt 0 (length xs)) [
        | yes more ↦
            let down : DownInv cmp x zs 0 = record {
              edges = λ c p q ne.
                  Leq-by cmp x (alike c q (λ z. omega (arith, z, p)))
                    (alike (get_parent c) (omega (arith, get_parent-lt c p, q)) (λ z. ne (sym z)))
                    (IsHeap-IsOrdered cmp x (x ∷ xs) heap c p (omega (arith, q, d.shorter)));
              bridged = λ c p q at top. absurd (omega (arith, top));
            } in
            let first : last ≡ get_or zs 0 x =
              some_inj (
                sym (d.moved more) ∙ get_elem?-eq-get_or zs 0 x (omega (arith, d.shorter, more))) in
            let (u, ys, ran, t, order, p) =
              heapify_down-Restores cmp x o (suc (size v)) (pop_back w) zs 0 last d.after down first
                (omega (arith, d.shorter, more))
                (omega (arith, d.shorter, size_lem v (x ∷ xs) r)) in
            (
              u,
              ys,
              rw (d.read, d.wrote, ran),
              t,
              IsOrdered-IsHeap cmp x ys order,
              Perm.trans (Perm.cons x p) d.perm,
            )
        | no none_left ↦
            let nil : zs ≡ [] = nil_of zs (omega (arith, d.shorter, none_left)) in
            let after : IsVector (pop_back w) [] = subst (IsVector (pop_back w)) nil d.after in
            (
              pop_back w,
              zs,
              rw (d.read, d.wrote) (down_empty cmp (size v) (pop_back w) last after),
              d.after,
              (λ c a b p at_a at_b.
                  absurd (omega (arith, get_elem?-inside zs c at_b, d.shorter, none_left))),
              d.perm,
            )
      ]
