-- ===== src/HeapQueue/Greatest.antt =====
-- heap_PQ.c: what `PQDepqueue` returns, and the end of `PQClear`.
use mathlib.Core.List.{Perm}
use mathlib.Core.List.Perm
use mathlib.Core.List
use mathlib.Core.Nat
use daher_repo.Prelude.{
  ℕ, zero, suc, ◌<◌, ◌≡◌, refl, sym, ap, ◌∙◌, false, some, List, [], ◌∷◌, arith, length, get_elem?,
  ℤ, Leq, IsOrder, ◌==◌,
}
use daher_repo.Vector.{Vector}
use daher_repo.Vector.Contents.{IsVector, size_lem}
use daher_repo.Heap
use daher_repo.Heap.Order.{IsHeap}
use daher_repo.Heap.Priority.{pop-IsHeap, peek-greatest}
use daher_repo.HeapQueue.{dequeue, clear, is_empty}

not_zero : (n : ℕ) → 0 == suc n ≡ false
not_zero n = ground arith

-- the library's count of a list, as a native number
native : Nat.ℕ → ℕ
native Nat.zero = 0
native (Nat.suc n) = suc (native n)

native-length {ℓ} : {A : Type ℓ} (xs : List A) → native (List.length xs) ≡ length xs
unfolding native
native-length [] = refl
native-length (x ∷ xs) = ap suc (native-length xs)

Perm-length {ℓ} : {A : Type ℓ} (xs ys : List A) → Perm xs ys → length xs ≡ length ys
Perm-length xs ys p = sym (native-length xs) ∙ ap native (Perm.length-eq p) ∙ native-length ys

module _ {ℓ} {A : Type ℓ} (cmp : A → A → ℤ) (o : IsOrder cmp) where
  -- Under an order, PQDepqueue on a heap that is not empty returns an element that no other is
  -- greater than, takes it out and leaves the others in heap order.
  pub dequeue-greatest :
      (v : Vector A) (x : A) (xs : List A)
      → IsVector v (x ∷ xs)
      → IsHeap cmp (x ∷ xs)
      → (w : Vector A) × (ys : List A) × (dequeue cmp v ≡ some (w, x))
        × ((i : ℕ) (y : A) → get_elem? (x ∷ xs) i ≡ some y → Leq cmp y x)
        × (IsVector w ys × (IsHeap cmp ys × Perm (x ∷ ys) (x ∷ xs)))
  unfolding dequeue
  dequeue-greatest v x xs r h =
      let (first, greatest) = peek-greatest cmp o v x xs r h in
      let (w, ys, ran, s, heap, p) = pop-IsHeap cmp o v x xs r h in
      (w, ys, rw (first, ran) refl, greatest, (s, (heap, p)))

  -- Under an order, and with fuel above the number of elements, `PQClear` ends and leaves an empty queue.
  pub clear_empty :
      (fuel : ℕ) (v : Vector A) (xs : List A)
      → IsVector v xs
      → IsHeap cmp xs
      → length xs < fuel
      → (w : Vector A) × (clear cmp fuel v ≡ some w) × IsVector w []
  unfolding clear is_empty Heap.is_empty
  clear_empty zero v xs r h f = elim f [ ]
  clear_empty (suc fuel) v [] r h f = (v, rw (size_lem v [] r) refl, r)
  clear_empty (suc fuel) v (x ∷ xs) r h f =
      let (w, ys, ran, _, (s, (heap, p))) = dequeue-greatest v x xs r h in
      let shorter : suc (length ys) ≡ suc (length xs) = Perm-length (x ∷ ys) (x ∷ xs) p in
      let (u, done, e) = clear_empty fuel w ys s heap (omega (arith, shorter, f)) in
      (u, rw (size_lem v (x ∷ xs) r, not_zero (length xs), ran) done, e)
