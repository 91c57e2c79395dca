-- ===== src/Heap/Tests.antt =====
-- heap.c, run on numbers: a heap of 9, 4 and 7.
use mathlib.Core.List.{Perm}
use mathlib.Core.Logic.{◌⊎◌}
use daher_repo.Prelude.{
  ℕ, zero, suc, ◌≤◌, ◌<◌, ◌≡◌, refl, sym, ap, false, none, some, some_inj, List, [], ◌∷◌, arith,
  length, get_elem?, pos, sub_ℕ, is_pos, is_zero, inr, nat_order,
}
use daher_repo.Vector.{Vector}
use daher_repo.Vector.Contents.{IsVector}
use daher_repo.Vector.ZeroFill.{grow, grow-IsRealloc}
use daher_repo.Heap.{get_parent, push, remove}
use daher_repo.Heap.Order.{IsHeap, IsOrdered, IsOrdered-IsHeap}
use daher_repo.Heap.Priority.{push-IsHeap}
use daher_repo.Heap.Breaking.{remove_breaks}
use daher_repo.Heap.Removing.{IsFirst}

abbrev numbers : List ℕ
numbers = 9 ∷ 4 ∷ 7 ∷ []

abbrev heap : Vector ℕ
heap = record { elements = 9 ∷ 4 ∷ 7 ∷ 0 ∷ []; capacity = 4; pointer = pos 2 }

heap-IsVector : IsVector heap numbers
heap-IsVector = record {
  array = refl;
  limit = omega arith;
  last = refl;
  room = omega arith;
  prefix = refl;
}

not_greater : (a : ℕ) → is_pos (sub_ℕ a a) ≡ false
unfolding sub_ℕ
not_greater a = ground arith

before_seven : (i y : ℕ) → i < 2 → get_elem? numbers i ≡ some y → is_zero (sub_ℕ y 7) ≡ false
unfolding sub_ℕ
before_seven zero y h e = ap (λ z. is_zero (sub_ℕ z 7)) (sym (some_inj e))
before_seven (suc zero) y h e = ap (λ z. is_zero (sub_ℕ z 7)) (sym (some_inj e))
before_seven (suc (suc i)) y h e = let bad : 1 ≤ 0 = omega arith in elim bad [ ]

before_four : (i y : ℕ) → i < 1 → get_elem? numbers i ≡ some y → is_zero (sub_ℕ y 4) ≡ false
unfolding sub_ℕ
before_four zero y h e = ap (λ z. is_zero (sub_ℕ z 4)) (sym (some_inj e))
before_four (suc i) y h e = let bad : 1 ≤ 0 = omega arith in elim bad [ ]

four-IsFirst : IsFirst sub_ℕ sub_ℕ numbers 4 1 2 4
four-IsFirst = record { here = refl; passed = before_four; stops = inr (unfold sub_ℕ in refl) }

numbers-IsHeap : IsHeap sub_ℕ numbers
numbers-IsHeap = IsOrdered-IsHeap sub_ℕ 0 numbers ordered
  where
    ordered : IsOrdered sub_ℕ 0 numbers
    ordered zero p q = elim p [ ]
    ordered (suc zero) p q = unfold sub_ℕ get_parent in refl
    ordered (suc (suc zero)) p q = unfold sub_ℕ get_parent in refl
    ordered (suc (suc (suc c))) p q = absurd (omega arith)

push-IsHeap_example :
    ((w : Vector ℕ) × (ys : List ℕ) × (push sub_ℕ grow heap 8 ≡ some (0, w))
      × IsVector w ys
      × IsHeap sub_ℕ ys
      × Perm ys (8 ∷ numbers))
    ⊎ ((push sub_ℕ grow heap 8 ≡ some (1, heap))
        × (length numbers ≡ heap.capacity)
        × (grow heap.elements 8 ≡ none))
push-IsHeap_example =
    push-IsHeap sub_ℕ nat_order grow grow-IsRealloc heap 8 numbers heap-IsVector numbers-IsHeap
      (omega arith) (omega arith)

abbrev seven : List ℕ
seven = 10 ∷ 5 ∷ 9 ∷ 1 ∷ 2 ∷ 8 ∷ 7 ∷ []

abbrev wide : Vector ℕ
wide = record { elements = seven; capacity = 7; pointer = pos 6 }

wide-IsVector : IsVector wide seven
wide-IsVector = record {
  array = refl;
  limit = omega arith;
  last = refl;
  room = omega arith;
  prefix = refl;
}

seven-IsHeap : IsHeap sub_ℕ seven
seven-IsHeap = IsOrdered-IsHeap sub_ℕ 0 seven ordered
  where
    ordered : IsOrdered sub_ℕ 0 seven
    ordered zero p q = elim p [ ]
    ordered (suc zero) p q = unfold sub_ℕ get_parent in refl
    ordered (suc (suc zero)) p q = unfold sub_ℕ get_parent in refl
    ordered (suc (suc (suc zero))) p q = unfold sub_ℕ get_parent in refl
    ordered (suc (suc (suc (suc zero)))) p q = unfold sub_ℕ get_parent in refl
    ordered (suc (suc (suc (suc (suc zero))))) p q = unfold sub_ℕ get_parent in refl
    ordered (suc (suc (suc (suc (suc (suc zero)))))) p q = unfold sub_ℕ get_parent in refl
    ordered (suc (suc (suc (suc (suc (suc (suc c))))))) p q = absurd (omega arith)

before_one : (i y : ℕ) → i < 3 → get_elem? seven i ≡ some y → is_zero (sub_ℕ y 1) ≡ false
unfolding sub_ℕ
before_one zero y h e = ap (λ z. is_zero (sub_ℕ z 1)) (sym (some_inj e))
before_one (suc zero) y h e = ap (λ z. is_zero (sub_ℕ z 1)) (sym (some_inj e))
before_one (suc (suc zero)) y h e = ap (λ z. is_zero (sub_ℕ z 1)) (sym (some_inj e))
before_one (suc (suc (suc i))) y h e = absurd (omega arith)

one-IsFirst : IsFirst sub_ℕ sub_ℕ seven 1 3 6 1
one-IsFirst = record { here = refl; passed = before_one; stops = inr (unfold sub_ℕ in refl) }

remove_breaks_example :
    (u : Vector ℕ) × (ys : List ℕ) × (remove sub_ℕ sub_ℕ wide 1 ≡ some (some 1, u))
    × IsVector u ys
    × ¬ IsHeap sub_ℕ ys
remove_breaks_example =
    remove_breaks sub_ℕ sub_ℕ nat_order wide seven 1 3 6 1 7 5 wide-IsVector seven-IsHeap refl
      (omega arith) (omega arith) one-IsFirst refl (unfold get_parent in refl)
      (unfold sub_ℕ in refl)
