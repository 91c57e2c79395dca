-- ===== src/HeapQueue/Tests.antt =====
-- heap_PQ.c, run: a queue of 9, 4 and 7.
use mathlib.Core.List.{Perm}
use daher_repo.Prelude.{
  ℕ, zero, suc, ◌≡◌, refl, some, List, [], ◌∷◌, arith, get_elem?, pos, sub_ℕ, nat_order, Leq,
}
use daher_repo.Vector.{Vector}
use daher_repo.Vector.Contents.{IsVector}
use daher_repo.Heap.{get_parent}
use daher_repo.Heap.Order.{IsHeap, IsOrdered, IsOrdered-IsHeap}
use daher_repo.HeapQueue.{dequeue}
use daher_repo.HeapQueue.Greatest.{dequeue-greatest}

abbrev numbers : List ℕ
numbers = 9 ∷ 4 ∷ 7 ∷ []

abbrev queue : Vector ℕ
queue = record { elements = 9 ∷ 4 ∷ 7 ∷ 0 ∷ []; capacity = 4; pointer = pos 2 }

queue-IsVector : IsVector queue numbers
queue-IsVector = record {
  array = refl;
  limit = omega arith;
  last = refl;
  room = omega arith;
  prefix = refl;
}

numbers-IsHeap : IsHeap sub_ℕ numbers
numbers-IsHeap = IsOrdered-IsHeap sub_ℕ 0 numbers ordered
  where
    ordered : IsOrdered sub_ℕ 0 numbers
    ordered zero p q = elim p [ ]
    ordered (suc zero) p q = unfold sub_ℕ get_parent in refl
    ordered (suc (suc zero)) p q = unfold sub_ℕ get_parent in refl
    ordered (suc (suc (suc c))) p q = absurd (omega arith)

dequeue-greatest_example :
    (w : Vector ℕ) × (ys : List ℕ) × (dequeue sub_ℕ queue ≡ some (w, 9))
    × ((i : ℕ) (y : ℕ) → get_elem? numbers i ≡ some y → Leq sub_ℕ y 9)
    × (IsVector w ys × (IsHeap sub_ℕ ys × Perm (9 ∷ ys) numbers))
dequeue-greatest_example =
    dequeue-greatest sub_ℕ nat_order queue 9 (4 ∷ 7 ∷ []) queue-IsVector numbers-IsHeap
