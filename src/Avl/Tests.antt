-- ===== src/Avl/Tests.antt =====
-- avl.c on small trees of numbers, compared by their difference.
use daher_repo.Prelude.{
  ℕ, ◌+◌, ◌≤◌, ◌≡◌, refl, true, false, none, some, is_zero, [], ◌∷◌, arith, ℤ, pos, negsuc, sub_ℕ,
  ltb_ℤ, is_pos, if◌then◌else◌, nat_order, IsSorted, insert_sorted,
}
use daher_repo.Avl.{Tree, leaf, node, get_direction, insert, node_find, node_heigth, rotate_left}
use daher_repo.Avl.Remove.{remove, remove_root, find_to_remove}
use daher_repo.Avl.Walk.{for_each, run_list, order_of, for_each-run_list}
use daher_repo.Avl.Inorder.{inorder}
use daher_repo.Avl.Balance.{IsBalanced}
use daher_repo.Avl.Insert.{insert_lem}
use daher_repo.Avl.Find.{has_match, node_find-has_match}
use daher_repo.Avl.RootRemoval.{remove_root_lem}
use daher_repo.Avl.Loss.{size, relative, remove_forgets}

-- 1, 2 and 3 inserted in order: one rotation, and a stored height of 2 at the new root
abbrev three : Tree ℕ
three = node (node leaf 1 (pos 1) leaf) 2 (pos 2) (node leaf 3 (pos 0) leaf)

three_built :
    (insert sub_ℕ true 1 leaf ≡ some (node leaf 1 (pos 0) leaf, 1))
    × (insert sub_ℕ true 3 (node leaf 1 (pos 0) (node leaf 2 (pos 0) leaf)) ≡ some (three, 1))
unfolding insert sub_ℕ ltb_ℤ node_heigth rotate_left
three_built = (refl, refl)

three-IsBalanced : IsBalanced three
unfolding node_heigth
three-IsBalanced = omega arith

three-IsSorted : IsSorted sub_ℕ (inorder three)
unfolding sub_ℕ
three-IsSorted = ((refl, (refl, tt)), ((refl, tt), (tt, tt)))

abbrev sum_operation : ℕ → ℕ → ℤ × ℕ
sum_operation x s = (if is_pos (sub_ℕ x 2) then pos 1 else pos 0, s + x)

insert_lem_example :
    (t : Tree ℕ) × (insert sub_ℕ true 2 three ≡ some (t, 1))
    × IsBalanced t
    × (inorder t ≡ insert_sorted sub_ℕ 2 (1 ∷ 2 ∷ 3 ∷ []))
    × IsSorted sub_ℕ (inorder t)
insert_lem_example = insert_lem sub_ℕ nat_order 2 three three-IsBalanced three-IsSorted

node_find-has_match_example :
    node_find sub_ℕ three 3 ≡ (if has_match sub_ℕ 3 (1 ∷ 2 ∷ 3 ∷ []) then some 3 else none)
node_find-has_match_example = node_find-has_match sub_ℕ nat_order three 3 three-IsSorted

for_each-run_list_example :
    for_each sum_operation three 0 2 ≡ run_list sum_operation (order_of three 2) 0
for_each-run_list_example = for_each-run_list sum_operation three 0 2

two_matches : is_zero (sub_ℕ 2 2) ≡ true
unfolding sub_ℕ
two_matches = refl

remove_root_lem_example :
    (remove sub_ℕ three 2 ≡ none)
    × ((t : Tree ℕ) × (remove_root three ≡ some t) × (inorder t ≡ 1 ∷ 3 ∷ []))
remove_root_lem_example =
    remove_root_lem sub_ℕ (node leaf 1 (pos 1) leaf) 2 (pos 2) (node leaf 3 (pos 0) leaf) 2
      two_matches

abbrev four : Tree ℕ
four =
    node (node leaf 1 (pos 1) leaf) 2 (negsuc 0) (node leaf 3 (negsuc 0) (node leaf 4 (pos 0) leaf))

-- 1, 2, 3 and 4 are in the tree; after the removal of 4 only 3 is.
four_loses : remove sub_ℕ four 4 ≡ some (node leaf 3 (pos 0) leaf)
unfolding remove find_to_remove sub_ℕ ltb_ℤ node_heigth
four_loses = refl

four_loses_below :
    relative (get_direction sub_ℕ 2 4) four ≡ node leaf 3 (negsuc 0) (node leaf 4 (pos 0) leaf)
unfolding get_direction sub_ℕ
four_loses_below = refl

four_loses_found : node_find sub_ℕ (node leaf 3 (negsuc 0) (node leaf 4 (pos 0) leaf)) 4 ≡ some 4
unfolding node_find sub_ℕ
four_loses_found = refl

four_loses_other : (is_zero (sub_ℕ 2 4) ≡ false) × (is_zero (sub_ℕ 3 4) ≡ false)
unfolding sub_ℕ
four_loses_other = (refl, refl)

remove_forgets_example : size {A = ℕ} (node leaf 3 (pos 0) leaf) + 1 ≤ 2
remove_forgets_example =
    remove_forgets sub_ℕ (node leaf 1 (pos 1) leaf) 2 (negsuc 0)
      (node leaf 3 (negsuc 0) (node leaf 4 (pos 0) leaf)) 4 leaf 3 (negsuc 0)
      (node leaf 4 (pos 0) leaf) (node leaf 3 (pos 0) leaf) four_loses_below four_loses_other.0
      four_loses_other.1 four_loses_found four_loses
