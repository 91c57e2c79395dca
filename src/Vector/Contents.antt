-- ===== src/Vector/Contents.antt =====
-- vector.c as a sequence: its first `size` elements.
use daher_repo.Prelude.{
  ℕ, zero, suc, ◌+◌, ◌^◌, ◌≤◌, ◌<◌, ◌≡◌, refl, sym, ap, ap₂, ◌∙◌, true, some, List, [], ◌∷◌, ◌++◌,
  arith, ℤ, pos, negsuc, to_word, suc_int, pred_int, length, length-append, length-set, set,
  get_elem?, take, store, store-set, Option, guard, ◌>>◌, ◌>>=◌, ◌==◌, leb, add_word, sub_word,
}
use daher_repo.Vector.{Vector, pop_back, get_element, set_element, size, is_full, append_last}

-- the pointer of a vector of so many elements
abbrev pub index_of : ℕ → ℤ
index_of zero = negsuc 0
index_of (suc n) = pos n

suc_index_of : (n : ℕ) → suc_int (index_of n) ≡ pos n
suc_index_of zero = refl
suc_index_of (suc n) = refl

pred_pos : (n : ℕ) → pred_int (pos n) ≡ index_of n
pred_pos zero = refl
pred_pos (suc n) = refl

word_index_of : (n : ℕ) → n < 2 ^ 31 → add_word (to_word (index_of n)) 1 ≡ n
word_index_of zero h = refl
word_index_of (suc n) h = omega arith

full_index_of : (n c : ℕ) → n ≤ c → c < 2 ^ 31 → (to_word (index_of n) == sub_word c 1) ≡ (n == c)
full_index_of zero zero h k = refl
full_index_of zero (suc c) h k = ground arith
full_index_of (suc n) c h k = ground arith

module _ {ℓ} {A : Type ℓ} where
  take-set :
      (n : ℕ) (xs : List A) (v : A)
      → n < length xs
      → take (suc n) (set xs n v) ≡ take n xs ++ (v ∷ [])
  take-set zero [] v h = elim h [ ]
  take-set zero (x ∷ xs) v h = refl
  take-set (suc n) [] v h = elim h [ ]
  take-set (suc n) (x ∷ xs) v h = ap (λ t. x ∷ t) (take-set n xs v (omega arith))

  take-take : (n : ℕ) (xs : List A) → take n (take (suc n) xs) ≡ take n xs
  take-take zero xs = refl
  take-take (suc n) [] = refl
  take-take (suc n) (x ∷ xs) = ap (λ t. x ∷ t) (take-take n xs)

  take-append : (xs ys : List A) → take (length xs) (xs ++ ys) ≡ xs
  take-append [] ys = refl
  take-append (x ∷ xs) ys = ap (λ t. x ∷ t) (take-append xs ys)

  take-set_inside : (n i : ℕ) (xs : List A) (v : A) → take n (set xs i v) ≡ set (take n xs) i v
  take-set_inside zero i xs v = refl
  take-set_inside (suc n) i [] v = refl
  take-set_inside (suc n) zero (x ∷ xs) v = refl
  take-set_inside (suc n) (suc i) (x ∷ xs) v = ap (λ t. x ∷ t) (take-set_inside n i xs v)

  get_elem?-take : (n i : ℕ) (xs : List A) → i < n → get_elem? (take n xs) i ≡ get_elem? xs i
  get_elem?-take zero i xs h = elim h [ ]
  get_elem?-take (suc n) i [] h = refl
  get_elem?-take (suc n) zero (x ∷ xs) h = refl
  get_elem?-take (suc n) (suc i) (x ∷ xs) h = get_elem?-take n i xs (omega arith)

  -- The vector stands for a sequence: its array has the capacity, which an `int` can index, the
  -- pointer is the index of the last element, and the first elements are the sequence.
  pub record IsVector (v : Vector A) (xs : List A) : Type ℓ where
    pub array : length v.elements ≡ v.capacity
    pub limit : v.capacity < 2 ^ 31
    pub last : v.pointer ≡ index_of (length xs)
    pub room : length xs ≤ v.capacity
    pub prefix : take (length xs) v.elements ≡ xs

  -- `VectorGetElement` counts from 1, and reads each element of the sequence.
  pub get_element_lem :
      (v : Vector A) (xs : List A) (i : ℕ)
      → IsVector v xs
      → i < length xs
      → get_element v (i + 1) ≡ get_elem? xs i
  unfolding get_element
  get_element_lem v xs i r h =
      ap (λ p. guard (leb (i + 1) (add_word (to_word p) 1)) >> read (sub_word (i + 1) 1)) r.last
      ∙ ap₂ (λ k j. guard (leb (i + 1) k) >> read j)
          (word_index_of (length xs) (omega (arith, r.room, r.limit)))
          (omega (arith, r.room, r.limit))
      ∙ ap (λ b. guard b >> read i) in_range
      ∙ sym (get_elem?-take (length xs) i v.elements h)
      ∙ ap (λ ys. get_elem? ys i) r.prefix
    where
      read : ℕ → Option A
      read j = get_elem? v.elements j

      in_range : leb (i + 1) (length xs) ≡ true
      in_range = ground arith

  -- `VectorSetElement` counts from 1, and changes one element of the sequence.
  pub set_element_lem :
      (v : Vector A) (x : A) (xs : List A) (i : ℕ)
      → IsVector v xs
      → i < length xs
      → (w : Vector A) × (set_element v x (i + 1) ≡ some w)
        × IsVector w (set xs i x)
        × (w.capacity ≡ v.capacity)
  unfolding set_element
  set_element_lem v x xs i r h = (
    record v { elements = set v.elements i x },
    ap (λ p. guard (leb (i + 1) (add_word (to_word p) 1)) >> write (sub_word (i + 1) 1)) r.last
        ∙ ap₂ (λ k j. guard (leb (i + 1) k) >> write j)
            (word_index_of (length xs) (omega (arith, r.room, r.limit)))
            (omega (arith, r.room, r.limit))
        ∙ ap (λ b. guard b >> write i) in_range
        ∙ ap (λ o. o >>= λ es. some (record v { elements = es }))
            (store-set v.elements i x (omega (arith, r.array, r.room))),
    record {
      array = length-set v.elements i x ∙ r.array;
      limit = r.limit;
      last = r.last ∙ ap index_of (sym (length-set xs i x));
      room = omega (arith, r.room, length-set xs i x);
      prefix =
          ap (λ n. take n (set v.elements i x)) (length-set xs i x)
          ∙ take-set_inside (length xs) i v.elements x
          ∙ ap (λ ys. set ys i x) r.prefix;
    },
    refl,
  )
    where
      write : ℕ → Option (Vector A)
      write j = store v.elements j x >>= λ es. some (record v { elements = es })

      in_range : leb (i + 1) (length xs) ≡ true
      in_range = ground arith

  -- `VectorSize`
  pub size_lem : (v : Vector A) (xs : List A) → IsVector v xs → size v ≡ length xs
  unfolding size
  size_lem v xs r =
      ap (λ p. to_word (suc_int p)) r.last
      ∙ ap to_word (suc_index_of (length xs))
      ∙ omega (arith, r.room, r.limit)

  pub append_last_lem :
      (v : Vector A) (x : A) (xs : List A)
      → IsVector v xs
      → length xs < v.capacity
      → (w : Vector A) × (append_last v x ≡ some (0, w)) × IsVector w (xs ++ (x ∷ []))
  unfolding append_last
  append_last_lem v x xs r h = (
    record v { elements = set v.elements (length xs) x; pointer = pos (length xs) },
    ap (λ p. write (to_word p) p) (ap suc_int r.last ∙ suc_index_of (length xs))
        ∙ ap (λ k. write k (pos (length xs))) (omega (arith, r.room, r.limit))
        ∙ ap (λ o. o >>= λ es. some (0, record v { elements = es; pointer = pos (length xs) }))
            (store-set v.elements (length xs) x (omega (arith, r.array))),
    record {
      array = length-set v.elements (length xs) x ∙ r.array;
      limit = r.limit;
      last = ap index_of (sym one_more);
      room = omega (arith, one_more);
      prefix =
          ap (λ n. take n (set v.elements (length xs) x)) one_more
          ∙ take-set (length xs) v.elements x (omega (arith, r.array))
          ∙ ap (λ ys. ys ++ (x ∷ [])) r.prefix;
    },
  )
    where
      write : ℕ → ℤ → Option (ℕ × Vector A)
      write k p = store v.elements k x >>= λ es. some (0, record v { elements = es; pointer = p })

      one_more : length (xs ++ (x ∷ [])) ≡ suc (length xs)
      one_more = omega (arith, length-append xs (x ∷ []))

  pub is_full_lem :
      (v : Vector A) (xs : List A) → IsVector v xs → is_full v ≡ (length xs == v.capacity)
  unfolding is_full
  is_full_lem v xs r =
      ap (λ p. to_word p == sub_word v.capacity 1) r.last
      ∙ full_index_of (length xs) v.capacity r.room r.limit

  -- `VectorPopBack` drops the last element of a sequence that is not empty.
  pub pop_back_lem :
      (v : Vector A) (xs : List A) (x : A) → IsVector v (xs ++ (x ∷ [])) → IsVector (pop_back v) xs
  unfolding pop_back
  pop_back_lem v xs x r = record {
    array = r.array;
    limit = r.limit;
    last = ap pred_int (r.last ∙ ap index_of one_more) ∙ pred_pos (length xs);
    room = omega (arith, r.room, one_more);
    prefix =
        sym (take-take (length xs) v.elements)
        ∙ ap (take (length xs)) (ap (λ n. take n v.elements) (sym one_more) ∙ r.prefix)
        ∙ take-append xs (x ∷ []);
  }
    where
      one_more : length (xs ++ (x ∷ [])) ≡ suc (length xs)
      one_more = omega (arith, length-append xs (x ∷ []))
