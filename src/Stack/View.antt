-- ===== src/Stack/View.antt =====
-- stack.c against a stack as a list, its top first.
use daher_repo.Prelude.{
  ℕ, zero, suc, ◌^◌, ◌≤◌, ◌<◌, ◌≡◌, ◌≢◌, refl, ap, ap₂, ◌∙◌, ◌-◌, true, false, not, none, some,
  List, [], ◌∷◌, arith, ℤ, pos, negsuc, to_word, suc_int, pred_int, length, length-set, set,
  get_elem?, get_elem?-set_self, get_elem?-set_ne, get_elem?-none, store, store-set, Option, guard,
  ◌>>◌, ◌>>=◌, ◌==◌, add_word,
}
use mathlib.Core.List.{head?}
use daher_repo.Stack.{Stack, pop, push, peek, is_minus_one}

-- the pointer of a stack of so many elements
abbrev pub index_of : ℕ → ℤ
index_of zero = negsuc 0
index_of (suc n) = pos n

pred_pos : (n : ℕ) → pred_int (pos n) ≡ index_of n
pred_pos zero = refl
pred_pos (suc n) = refl

suc_index_of : (n : ℕ) → suc_int (index_of n) ≡ pos n
suc_index_of zero = refl
suc_index_of (suc n) = refl

word_index_of : (n : ℕ) → n < 2 ^ 31 → add_word (to_word (index_of n)) 1 ≡ n
word_index_of zero h = refl
word_index_of (suc n) h = omega arith

same_is_minus_one : (n : ℕ) → is_minus_one (index_of n) ≡ (n == 0)
same_is_minus_one zero = refl
same_is_minus_one (suc n) = ground arith

module _ {ℓ} {A : Type ℓ} where
  -- The array holds the list from its bottom, at index 0, up to the top.
  abbrev pub Holds : List A → List A → Type ℓ
  Holds es [] = Unit
  Holds es (x ∷ xs) = (get_elem? es (length xs) ≡ some x) × Holds es xs

  -- The stack stands for the list: its array has the capacity, which an `int` can index, its pointer
  -- is the index of the top, and the elements are those of the list.
  pub record IsStack (s : Stack A) (xs : List A) : Type ℓ where
    pub array : length s.stack_elements ≡ s.stack_capacity
    pub limit : s.stack_capacity < 2 ^ 31
    pub pointer : s.stack_pointer ≡ index_of (length xs)
    pub room : length xs ≤ s.stack_capacity
    pub elements : Holds s.stack_elements xs

  Holds-set : (es xs : List A) (i : ℕ) (v : A) → length xs ≤ i → Holds es xs → Holds (set es i v) xs
  Holds-set es [] i v h e = tt
  Holds-set es (x ∷ xs) i v h e = (
    get_elem?-set_ne es {i = i} {j = length xs} v (omega arith) ∙ e.0,
    Holds-set es xs i v (omega arith) e.1,
  )

  -- what a pop does to the list: a fault if it is empty, else the top goes and the rest stays
  abbrev pub Pops : Stack A → List A → Type ℓ
  Pops s [] = pop s ≡ none
  Pops s (x ∷ rest) =
      (s' : Stack A) × (pop s ≡ some s') × IsStack s' rest × (s'.stack_capacity ≡ s.stack_capacity)

  -- `StackPop` takes the top away; on an empty stack its assert fails.
  pub pop_lem : (s : Stack A) (xs : List A) → IsStack s xs → Pops s xs
  unfolding pop
  pop_lem s [] v =
      ap (λ p. guard (not (is_minus_one p)) >> some (record s { stack_pointer = pred_int p }))
        v.pointer
  pop_lem s (x ∷ xs) v = (
    record s { stack_pointer = index_of (length xs) },
    ap (λ p. guard (not (is_minus_one p)) >> some (record s { stack_pointer = pred_int p }))
          v.pointer
        ∙ ap (λ p. some (record s { stack_pointer = p })) (pred_pos (length xs)),
    record {
      array = v.array;
      limit = v.limit;
      pointer = refl;
      room = omega (arith, v.room);
      elements = v.elements.1;
    },
    refl,
  )

  -- `StackPeek` returns the top; on an empty stack it reads outside of the array.
  pub peek_lem : (s : Stack A) (xs : List A) → IsStack s xs → peek s ≡ head? xs
  unfolding peek
  peek_lem s [] v =
      ap (λ p. get_elem? s.stack_elements (to_word p)) v.pointer
      ∙ get_elem?-none s.stack_elements (2 ^ 64 - 1) (omega (arith, v.array, v.limit))
  peek_lem s (x ∷ xs) v =
      ap (λ p. get_elem? s.stack_elements (to_word p)) v.pointer
      ∙ ap (get_elem? s.stack_elements) (omega (arith, v.room, v.limit))
      ∙ v.elements.0

  -- the body of `StackPush`, by the size, the index written and the new pointer
  abbrev at_pointer : Stack A → A → ℕ → ℕ → ℤ → Option (Stack A)
  at_pointer s x next i p =
      guard (not (s.stack_capacity == next))
      >> (store s.stack_elements i x >>= λ es.
          some (record s { stack_elements = es; stack_pointer = p }))

  push_step :
      (s : Stack A) (x : A) (n : ℕ)
      → s.stack_pointer ≡ index_of n
      → n < 2 ^ 31
      → push s x ≡ at_pointer s x n n (pos n)
  unfolding push
  push_step s x n e h =
      ap (λ p. at_pointer s x (add_word (to_word p) 1) (to_word (suc_int p)) (suc_int p)) e
      ∙ ap₂ (λ k p. at_pointer s x k (to_word p) p) (word_index_of n h) (suc_index_of n)
      ∙ ap (λ k. at_pointer s x n k (pos n)) (omega arith)

  -- `StackPush` puts the element on top while there is room; on a full stack its assert fails.
  pub push_lem :
      (s : Stack A) (x : A) (xs : List A)
      → IsStack s xs
      → length xs < s.stack_capacity
      → (s' : Stack A) × (push s x ≡ some s')
        × IsStack s' (x ∷ xs)
        × (s'.stack_capacity ≡ s.stack_capacity)
  push_lem s x xs v h = (
    record s {
      stack_elements = set s.stack_elements (length xs) x;
      stack_pointer = pos (length xs);
    },
    push_step s x (length xs) v.pointer (omega (arith, v.limit, h))
        ∙ ap (λ b. guard (not b) >> after (store s.stack_elements (length xs) x))
            (other_number (omega arith))
        ∙ ap after (store-set s.stack_elements (length xs) x (omega (arith, v.array))),
    record {
      array = length-set s.stack_elements (length xs) x ∙ v.array;
      limit = v.limit;
      pointer = refl;
      room = omega arith;
      elements = (
        get_elem?-set_self s.stack_elements (length xs) x (omega (arith, v.array)),
        Holds-set s.stack_elements xs (length xs) x (omega arith) v.elements,
      );
    },
    refl,
  )
    where
      after : Option (List A) → Option (Stack A)
      after o = o >>= λ es. some (record s { stack_elements = es; stack_pointer = pos (length xs) })

      other_number : s.stack_capacity ≢ length xs → (s.stack_capacity == length xs) ≡ false
      other_number ne = ground arith

  pub push_full :
      (s : Stack A) (x : A) (xs : List A)
      → IsStack s xs
      → length xs ≡ s.stack_capacity
      → push s x ≡ none
  push_full s x xs v h =
      push_step s x (length xs) v.pointer (omega (arith, v.limit, v.room, h))
      ∙ ap (λ b. guard (not b) >> written) (same_number h)
    where
      written : Option (Stack A)
      written = store s.stack_elements (length xs) x >>= λ es.
          some (record s { stack_elements = es; stack_pointer = pos (length xs) })

      same_number : length xs ≡ s.stack_capacity → (s.stack_capacity == length xs) ≡ true
      same_number e = ground arith
