-- ===== src/Stack/Tests.antt =====
-- stack.c and `SortStack` on a stack of three numbers.
use mathlib.Core.List.{Perm}
use daher_repo.Prelude.{ℕ, ◌≡◌, refl, some, List, [], ◌∷◌, arith, pos}
use daher_repo.Stack.{Stack, pop, push, peek, is_empty}
use daher_repo.Stack.View.{IsStack}
use daher_repo.Stack.Sorting.{sort_stack, sort_element, IsDescending, Yields, sort_stack_lem}

abbrev three : Stack ℕ
three = record { stack_elements = 5 ∷ 1 ∷ 4 ∷ 0 ∷ []; stack_pointer = pos 2; stack_capacity = 4 }

three-IsStack : IsStack three (4 ∷ 1 ∷ 5 ∷ [])
three-IsStack = record {
  array = refl;
  limit = omega arith;
  pointer = refl;
  room = omega arith;
  elements = (refl, (refl, (refl, tt)));
}

sort-three : sort_stack 9 three ≡ some (record three { stack_elements = 1 ∷ 4 ∷ 5 ∷ 0 ∷ [] })
unfolding sort_stack sort_element is_empty pop push peek
sort-three = refl

sort_stack_lem_example :
    (ys : List ℕ) × Yields (sort_stack 4 three) 4 ys × IsDescending ys × Perm ys (4 ∷ 1 ∷ 5 ∷ [])
sort_stack_lem_example = sort_stack_lem 4 three (4 ∷ 1 ∷ 5 ∷ []) three-IsStack (omega arith)
