-- ===== src/Vector.antt =====
-- infinity/ds/dynamic_vector/vector.c: a growing array of pointers. `pointer` is the index of the
-- last element, -1 for none. `none` is a failed assert or an access outside of the array. `realloc`
-- is a parameter: the new array of so many elements, or `none` without memory.
pub mod Contents
pub mod Growth
pub mod ZeroFill
mod Tests
use daher_repo.Prelude.{
  ℕ, ◌≡◌, ◌≤◌, Bool, Option, none, some, List, ◌==◌, leb, if◌then◌else◌, ◌>>=◌, ◌>>◌, guard,
  add_word, sub_word, mul_word, ℤ, negsuc, suc_int, pred_int, to_word, get_elem?, store, length,
  take,
}

-- `struct vector`
pub record Vector {ℓ} (A : Type ℓ) : Type ℓ where
  pub elements : List A
  pub capacity : ℕ
  pub pointer : ℤ

module _ {ℓ} {A : Type ℓ} where
  -- `VectorCreate`: `memory` is what the second `malloc` returns.
  unfoldable pub create : Option (List A) → ℕ → Option (Vector A)
  create none capacity = none
  create (some memory) capacity =
      some (record { elements = memory; capacity = capacity; pointer = negsuc 0 })

  -- `VectorPopBack` has no assert.
  unfoldable pub pop_back : Vector A → Vector A
  pop_back v = record v { pointer = pred_int v.pointer }

  -- `VectorGetElement` and `VectorSetElement`, whose indices start at 1
  unfoldable pub get_element : Vector A → ℕ → Option A
  get_element v index =
      guard (leb index (add_word (to_word v.pointer) 1)) >> get_elem? v.elements (sub_word index 1)

  unfoldable pub set_element : Vector A → A → ℕ → Option (Vector A)
  set_element v element index =
      guard (leb index (add_word (to_word v.pointer) 1))
      >> (store v.elements (sub_word index 1) element >>= λ es. some (record v { elements = es }))

  -- `VectorSize`
  unfoldable pub size : Vector A → ℕ
  size v = to_word (suc_int v.pointer)

  -- `VectorCapacity`
  unfoldable pub capacity_of : Vector A → ℕ
  capacity_of v = v.capacity

  -- `VectorIsFull`
  unfoldable pub is_full : Vector A → Bool
  is_full v = to_word v.pointer == sub_word v.capacity 1

  -- the second part of `VectorPushBack`
  unfoldable pub append_last : Vector A → A → Option (ℕ × Vector A)
  append_last v element = store v.elements (to_word (suc_int v.pointer)) element >>= λ es.
      some (0, record v { elements = es; pointer = suc_int v.pointer })

module _ {ℓ} {A : Type ℓ} (realloc : List A → ℕ → Option (List A)) where
  -- What the C library documents of `realloc`: an array of the size asked for, with the old elements
  -- up to the smaller size.
  pub record IsRealloc : Type ℓ where
    pub new_length : (es : List A) (n : ℕ) {new : List A} → realloc es n ≡ some new → length new ≡ n
    pub keeps :
        (es : List A) (n k : ℕ) {new : List A}
        → realloc es n ≡ some new
        → k ≤ n
        → k ≤ length es
        → take k new ≡ take k es

  -- `VectorReserve`: 1 without memory.
  unfoldable pub reserve : Vector A → ℕ → ℕ × Vector A
  reserve v new_capacity = elim (realloc v.elements new_capacity) [
    | none ↦ (1, v)
    | some new ↦ (0, record v { elements = new; capacity = new_capacity })
  ]

  -- the first part of `VectorPushBack`: 1 if it must grow and cannot
  unfoldable pub make_room : Vector A → ℕ × Vector A
  make_room v = if is_full v then reserve v (mul_word v.capacity 2) else (0, v)

  -- `VectorPushBack`
  unfoldable pub push_back : Vector A → A → Option (ℕ × Vector A)
  push_back v element =
      let (status, w) = make_room v in if status == 1 then some (1, w) else append_last w element

  -- `VectorShrinkToFit`
  unfoldable pub shrink_to_fit : Vector A → ℕ × Vector A
  shrink_to_fit v = reserve v (to_word (suc_int v.pointer))
