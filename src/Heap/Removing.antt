-- ===== src/Heap/Removing.antt =====
-- heap.c, `HeapPush`, `HeapPop` and `HeapRemove`: which elements they leave.
use mathlib.Core.List.{Perm}
use mathlib.Core.List.Perm
use mathlib.Core.Logic.{◌⊎◌}
use mathlib.Core.Path.{subst}
use daher_repo.Prelude.{
  ℕ, zero, suc, ◌+◌, ◌-◌, ◌≤◌, ◌<◌, ◌≡◌, ◌≢◌, refl, sym, ap, ◌∙◌, Bool, true, false, not, ◌&&◌,
  none, some, some_inj, List, [], ◌∷◌, ◌++◌, arith, length, set, length-set, get_elem?,
  get_elem?-some, get_elem?-set_self, get_elem?-set_ne, Bool-cases, ==→eq, ◌==◌, inl, inr, ℤ,
  is_pos, is_zero, ltb, lt→ltb, ge→ltb,
}
use daher_repo.Vector.{Vector, get_element, set_element, pop_back, size}
use daher_repo.Vector.Contents.{IsVector, get_element_lem, set_element_lem, pop_back_lem, size_lem}
use daher_repo.Heap.{remove, search_from, heapify_down, get_big_child}
use daher_repo.Heap.Swaps.{set-perm}
use daher_repo.Heap.Sifting.{heapify_down_lem}

same_number : (a b : ℕ) → a ≡ b → (a == b) ≡ true
same_number a b e = ground arith

pub other_number : (a b : ℕ) → a < b → (a == b) ≡ false
other_number a b h = ground arith

module _ {ℓ} {A : Type ℓ} where
  last_of :
      (xs : List A) (n : ℕ)
      → length xs ≡ suc n
      → (zs : List A) × (y : A) × (xs ≡ zs ++ (y ∷ [])) × (length zs ≡ n)
  last_of [] n e = let bad : 1 ≤ 0 = omega (arith, e) in elim bad [ ]
  last_of (x ∷ []) n e = ([], x, refl, omega (arith, e))
  last_of (x ∷ y ∷ xs) zero e = let bad : 1 ≤ 0 = omega (arith, e) in elim bad [ ]
  last_of (x ∷ y ∷ xs) (suc n) e =
      let (zs, z, s, l) = last_of (y ∷ xs) n (omega (arith, e)) in
      (x ∷ zs, z, ap (λ t. x ∷ t) s, ap suc l)

  get_elem?-last : (zs : List A) (y : A) → get_elem? (zs ++ (y ∷ [])) (length zs) ≡ some y
  get_elem?-last [] y = refl
  get_elem?-last (z ∷ zs) y = get_elem?-last zs y

  get_elem?-front :
      (zs : List A) (y : A) (k : ℕ) → k < length zs → get_elem? (zs ++ (y ∷ [])) k ≡ get_elem? zs k
  get_elem?-front [] y k h = elim h [ ]
  get_elem?-front (z ∷ zs) y zero h = refl
  get_elem?-front (z ∷ zs) y (suc k) h = get_elem?-front zs y k (omega arith)

  -- The last element in the place of another, and the vector one shorter.
  pub record Dropped (v : Vector A) (xs : List A) (k n : ℕ) (e last : A) (w : Vector A)
      (zs : List A) : Type ℓ where
    pub read : get_element v (size v) ≡ some last
    pub wrote : set_element v last (k + 1) ≡ some w
    pub after : IsVector (pop_back w) zs
    pub perm : Perm (e ∷ zs) xs
    pub shorter : length zs ≡ n
    pub moved : k < n → get_elem? zs k ≡ some last
    pub others : (c : ℕ) → c < n → k ≢ c → get_elem? zs c ≡ get_elem? xs c

  pub nil_of : (zs : List A) → length zs ≡ 0 → zs ≡ []
  nil_of [] e = refl
  nil_of (z ∷ zs) e = let bad : 1 ≤ 0 = omega (arith, e) in elim bad [ ]

  pub snoc-perm : (zs : List A) (y : A) → Perm (zs ++ (y ∷ [])) (y ∷ zs)
  snoc-perm [] y = Perm.refl _
  snoc-perm (z ∷ zs) y = Perm.trans (Perm.cons z (snoc-perm zs y)) (Perm.swap y z zs)

  still_last :
      (xs : List A) (k n : ℕ) (last : A)
      → get_elem? xs n ≡ some last
      → k < length xs
      → get_elem? (set xs k last) n ≡ some last
  still_last xs k n last at h = elim (Bool-cases (k == n)) [
    | inl same ↦
        ap (get_elem? (set xs k last)) (sym (==→eq k n same)) ∙ get_elem?-set_self xs k last h
    | inr other ↦ get_elem?-set_ne xs last (λ same. ground (arith, other, same)) ∙ at
  ]

  perm_of :
      (xs zs : List A) (k : ℕ) (e last : A)
      → get_elem? xs k ≡ some e
      → set xs k last ≡ zs ++ (last ∷ [])
      → Perm (e ∷ zs) xs
  perm_of xs zs k e last at s = Perm.symm (
      Perm.cons_inv (
        Perm.trans (subst (λ t. Perm (last ∷ xs) (e ∷ t)) s (set-perm xs k e last at))
          (Perm.trans (Perm.cons e (snoc-perm zs last)) (Perm.swap last e zs))))

  pub drop_at :
      (v : Vector A) (xs : List A) (k n : ℕ) (e : A)
      → IsVector v xs
      → get_elem? xs k ≡ some e
      → k < length xs
      → length xs ≡ suc n
      → (last : A) × (w : Vector A) × (zs : List A) × Dropped v xs k n e last w zs
  drop_at v xs k n e r at h len =
      let (last, at_n) = get_elem?-some xs n (omega (arith, len)) in
      let (w, wrote, s, _) = set_element_lem v last xs k r h in
      let (zs, y, split, l) = last_of (set xs k last) n (length-set xs k last ∙ len) in
      let same : last ≡ y = some_inj (
        sym (still_last xs k n last at_n h)
        ∙ ap (λ t. get_elem? t n) split
        ∙ ap (get_elem? (zs ++ (y ∷ []))) (sym l)
        ∙ get_elem?-last zs y) in
      let split_last : set xs k last ≡ zs ++ (last ∷ []) =
        split ∙ ap (λ t. zs ++ (t ∷ [])) (sym same) in
      let one_more : size v ≡ n + 1 = size_lem v xs r ∙ len ∙ omega arith in
      (
        last,
        w,
        zs,
        record {
          read = ap (get_element v) one_more ∙ get_element_lem v xs n r (omega (arith, len)) ∙ at_n;
          wrote = wrote;
          after = pop_back_lem w zs last (subst (IsVector w) split_last s);
          perm = perm_of xs zs k e last at split_last;
          shorter = l;
          moved = λ front.
              sym (get_elem?-front zs last k (omega (arith, l)))
              ∙ ap (λ t. get_elem? t k) (sym split_last)
              ∙ get_elem?-set_self xs k last h;
          others = λ c front ne.
              sym (get_elem?-front zs last c (omega (arith, l)))
              ∙ ap (λ t. get_elem? t c) (sym split_last)
              ∙ get_elem?-set_ne xs last ne;
        },
      )

module _ {ℓ} {A : Type ℓ} (cmp : A → A → ℤ) where
  pub down_empty :
      (fuel : ℕ) (v : Vector A) (d : A) → IsVector v [] → heapify_down cmp (suc fuel) v 0 d ≡ some v
  unfolding heapify_down get_big_child
  down_empty fuel v d r = rw (size_lem v [] r)

module _ {ℓ κ} {A : Type ℓ} {B : Type κ} (cmp : A → A → ℤ) (match_func : A → B → ℤ) where
  -- the first element that matches, or else the last element, stands at this index
  pub record IsFirst (xs : List A) (b : B) (k n : ℕ) (e : A) : Type ℓ where
    pub here : get_elem? xs k ≡ some e
    pub passed :
        (i : ℕ) (y : A) → i < k → get_elem? xs i ≡ some y → is_zero (match_func y b) ≡ false
    pub stops : (k ≡ n) ⊎ (is_zero (match_func e b) ≡ true)

  stop_test :
      (xs : List A) (b : B) (k n : ℕ) (e : A)
      → length xs ≡ suc n
      → IsFirst xs b k n e
      → (ltb (k + 1) (length xs) && not (is_zero (match_func e b))) ≡ false
  stop_test xs b k n e len f = elim f.stops [
    | inl end ↦ rw (ge→ltb (k + 1) (length xs) (omega (arith, len, end)))
    | inr hit ↦ rw hit (never (ltb (k + 1) (length xs)))
  ]
    where
      never : (t : Bool) → (t && false) ≡ false
      never true = refl
      never false = refl

  pub search_lem :
      (j fuel : ℕ) (v : Vector A) (xs : List A) (b : B) (runner k n : ℕ) (e : A)
      → IsVector v xs
      → length xs ≡ suc n
      → k ≤ n
      → runner + j ≡ k
      → j < fuel
      → IsFirst xs b k n e
      → search_from cmp match_func fuel v runner b ≡ some (k + 1, e)
  unfolding search_from
  search_lem zero zero v xs b runner k n e r len in_range at h f = elim h [ ]
  search_lem (suc j) zero v xs b runner k n e r len in_range at h f = elim h [ ]
  search_lem zero (suc fuel) v xs b runner k n e r len in_range at h f =
      let same : runner ≡ k = omega (arith, at) in
      rw (
        same,
        get_element_lem v xs k r (omega (arith, len)),
        f.here,
        size_lem v xs r,
        stop_test xs b k n e len f,
      )
  search_lem (suc j) (suc fuel) v xs b runner k n e r len in_range at h f =
      let (y, there) = get_elem?-some xs runner (omega (arith, len, at)) in
      rw
        (
          get_element_lem v xs runner r (omega (arith, len, at)),
          there,
          size_lem v xs r,
          lt→ltb (runner + 1) (length xs) (omega (arith, len, at)),
          f.passed runner y (omega (arith, at)) there,
        )
        (search_lem j fuel v xs b (runner + 1) k n e r len in_range (omega (arith, at))
          (omega arith) f)

  -- `HeapRemove` never removes the last element of the array: where no other element matches, it
  -- returns null and changes nothing, whether the last one matches or not.
  pub remove_last :
      (v : Vector A) (xs : List A) (b : B) (n : ℕ) (e : A)
      → IsVector v xs
      → length xs ≡ suc n
      → get_elem? xs n ≡ some e
      → ((i : ℕ) (y : A) → i < n → get_elem? xs i ≡ some y → is_zero (match_func y b) ≡ false)
      → remove cmp match_func v b ≡ some (none, v)
  unfolding remove
  remove_last v xs b n e r len last passed =
      let found =
        search_lem n (suc (size v)) v xs b 0 n n e r len (omega arith) (omega arith)
          (omega (arith, len, size_lem v xs r))
          (record { here = last; passed = passed; stops = inl refl }) in
      rw (found, same_number (n + 1) (size v) (omega (arith, len, size_lem v xs r)))

  -- Where an element before the last one matches, `HeapRemove` returns the first that does, and takes
  -- it out, under a comparison by which no data are greater than themselves.
  pub remove-perm :
      ((a : A) → is_pos (cmp a a) ≡ false)
      → (v : Vector A) (xs : List A) (b : B) (k n : ℕ) (e : A) → IsVector v xs
      → length xs ≡ suc n
      → k < n
      → IsFirst xs b k n e
      → (u : Vector A) × (ys : List A) × (remove cmp match_func v b ≡ some (some e, u))
        × IsVector u ys
        × Perm (e ∷ ys) xs
  unfolding remove
  remove-perm same v xs b k n e r len before f =
      let found =
        search_lem k (suc (size v)) v xs b 0 k n e r len (omega arith) (omega arith)
          (omega (arith, len, size_lem v xs r)) f in
      let (last, w, zs, d) = drop_at v xs k n e r f.here (omega (arith, len)) len in
      let (u, ys, ran, t, p, _) =
        heapify_down_lem cmp same (suc (size v)) (pop_back w) zs k last d.after (d.moved before)
          (omega (arith, d.shorter)) (omega (arith, d.shorter, len, size_lem v xs r)) in
      let back : k + 1 - 1 ≡ k = omega arith in
      (
        u,
        ys,
        rw (
          found,
          other_number (k + 1) (size v) (omega (arith, len, size_lem v xs r)),
          d.read,
          d.wrote,
          back,
          ran,
        ),
        t,
        Perm.trans (Perm.cons e p) d.perm,
      )
