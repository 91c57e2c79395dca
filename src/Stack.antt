-- ===== src/Stack.antt =====
-- infinity/ds/stack/stack.c: a stack of pointers in an array of fixed capacity. `stack_pointer` is
-- the index of the top element, -1 for none. `none` is a failed assert or an access outside of the
-- array, and `memory` what `malloc` returns for the array.
pub mod View
pub mod Sorting
mod Tests
use daher_repo.Prelude.{
  ℕ, Bool, true, false, not, Option, none, some, List, ◌==◌, if◌then◌else◌, ◌>>=◌, ◌>>◌, guard,
  add_word, ℤ, pos, negsuc, suc_int, pred_int, to_word, get_elem?, store,
}

-- `struct stack`
pub record Stack {ℓ} (A : Type ℓ) : Type ℓ where
  pub stack_elements : List A
  pub stack_pointer : ℤ
  pub stack_capacity : ℕ

-- the test `-1 == stack_pointer`
abbrev pub is_minus_one : ℤ → Bool
is_minus_one (pos n) = false
is_minus_one (negsuc n) = n == 0

module _ {ℓ} {A : Type ℓ} where
  -- `StackCreate`
  unfoldable pub create : Option (List A) → ℕ → Option (Stack A)
  create none capacity = none
  create (some memory) capacity =
      some (record { stack_elements = memory; stack_pointer = negsuc 0; stack_capacity = capacity })

  -- `StackPop`
  unfoldable pub pop : Stack A → Option (Stack A)
  pop s =
      guard (not (is_minus_one s.stack_pointer))
      >> some (record s { stack_pointer = pred_int s.stack_pointer })

  -- `StackPush`
  unfoldable pub push : Stack A → A → Option (Stack A)
  push s element =
      guard (not (s.stack_capacity == add_word (to_word s.stack_pointer) 1))
      >> (store s.stack_elements (to_word (suc_int s.stack_pointer)) element >>= λ es.
          some (record s { stack_elements = es; stack_pointer = suc_int s.stack_pointer }))

  -- `StackPeek` has no assert: on an empty stack it reads in front of the array.
  unfoldable pub peek : Stack A → Option A
  peek s = get_elem? s.stack_elements (to_word s.stack_pointer)

  -- `StackSize`
  unfoldable pub size : Stack A → ℕ
  size s = to_word (suc_int s.stack_pointer)

  -- `StackIsEmpty`
  unfoldable pub is_empty : Stack A → Bool
  is_empty s = is_minus_one s.stack_pointer

  -- `StackCapacity`
  unfoldable pub capacity : Stack A → ℕ
  capacity s = s.stack_capacity
