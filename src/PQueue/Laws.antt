-- ===== src/PQueue/Laws.antt =====
-- pqueue.c: what the operations do to the data of a queue.
use mathlib.Core.Path.{subst}
use daher_repo.Prelude.{
  ℕ, zero, suc, ◌<◌, ◌≡◌, ◌≢◌, refl, sym, ap, Bool, true, false, not, some, List, [], ◌∷◌, ◌++◌,
  inl, inr, ◌⊎◌, Bool-cases, length, ℤ, is_zero, arith,
}
use daher_repo.Dlist.{Store, is_same_iter}
use daher_repo.Dlist.Segments.{eq_test, same_test, Outside}
use daher_repo.Dlist.View.{
  IsDlist, data_of, datum_at, iter, full, begin-iter, get_data-iter, iter-not_null, iter-not_end,
}
use daher_repo.Dlist.Changing.{IsMalloc, remove-IsDlist}
use daher_repo.Dlist.Walking.{
  from_first, passed, passed-from_first, scan-iter, is_empty-IsDlist, end-not_null,
}
use daher_repo.Dlist.Matching.{first_match, without_match}
use daher_repo.SortedList
use daher_repo.SortedList.Order.{place, insert-place}
use daher_repo.PQueue.{PQueue, enqueue, dequeue, peek, clear, is_empty, erase, wrap_is_match}

module _ {ℓ} {A : Type ℓ} where
  -- The store holds a queue of these cells.
  abbrev pub IsPQueue : Store A → PQueue A → List (ℕ × A) → Type ℓ
  IsPQueue h pqueue xs = IsDlist h (pqueue.queue).list_of xs

  -- With fuel above the length, `PQEnpqueue` puts the data before the first element on which the
  -- comparison is negative; it returns 1 only where memory has run out, and then nothing has changed.
  pub enqueue-place :
      (malloc : Store A → ℕ)
      → IsMalloc malloc
      → (fuel : ℕ) (h : Store A) (pqueue : PQueue A) (xs : List (ℕ × A)) (x : A)
      → IsPQueue h pqueue xs
      → length xs < fuel
      → ((malloc h ≡ 0) × (enqueue malloc fuel h pqueue x ≡ some (h, true)))
        ⊎ ((malloc h ≢ 0)
            × ((g : Store A) × (ys : List (ℕ × A)) × (enqueue malloc fuel h pqueue x
                  ≡ some (g, false))
                × IsPQueue g pqueue ys
                × (data_of ys ≡ place (pqueue.queue).sort_func x (data_of xs))))
  unfolding enqueue is_same_iter SortedList.list_end
  enqueue-place malloc law fuel h pqueue xs x v f =
      let l = (pqueue.queue).list_of in
      elim (insert-place malloc law fuel h pqueue.queue xs x v f) [
        | inl (no_memory, same) ↦ inl (
          no_memory,
          rw (same, eq_test l.end_dummy 0 (end-not_null h l xs v), same_test l.end_dummy) refl,
        )
        | inr (ne, (g, ys, ran, w, placed, not_end, far)) ↦ inr (
          ne,
          (
            g,
            ys,
            rw
                (
                  ran,
                  eq_test l.end_dummy 0 (end-not_null h l xs v),
                  eq_test (malloc h) 0 ne,
                  eq_test l.end_dummy (malloc h) (λ e. not_end (sym e)),
                )
                refl,
            w,
            placed,
          ),
        )
      ]

  -- `PQDepqueue` of a queue that is not empty returns the first data and takes them out; the data
  -- behind them stay, and no store outside the queue changes.
  pub dequeue-first :
      (h : Store A) (pqueue : PQueue A) (xs : List (ℕ × A)) (x : ℕ × A)
      → IsPQueue h pqueue (x ∷ xs)
      → (g : Store A) × (dequeue h pqueue ≡ some (g, x.1))
        × IsPQueue g pqueue xs
        × ((a : ℕ) → Outside a (full (pqueue.queue).list_of (x ∷ xs)) → g a ≡ h a)
  unfolding dequeue peek SortedList.begin SortedList.get_data SortedList.pop_front
  dequeue-first h pqueue xs x v =
      let l = (pqueue.queue).list_of in
      let (g, ran, w, _, far) = remove-IsDlist h l [] xs x v in
      (g, rw (begin-iter h l (x ∷ xs) v, get_data-iter h l [] xs x v, ran) refl, w, far)

  -- With fuel above the length, `PQClear` empties a queue.
  pub clear-empty :
      (fuel : ℕ) (h : Store A) (pqueue : PQueue A) (xs : List (ℕ × A))
      → IsPQueue h pqueue xs
      → length xs < fuel
      → (g : Store A) × (clear fuel h pqueue ≡ some g) × IsPQueue g pqueue []
  unfolding clear is_empty SortedList.is_empty
  clear-empty zero h pqueue xs v f = elim f [ ]
  clear-empty (suc fuel) h pqueue [] v f =
      (h, rw (is_empty-IsDlist h (pqueue.queue).list_of [] v) refl, v)
  clear-empty (suc fuel) h pqueue (x ∷ xs) v f =
      let (g, ran, w, _) = dequeue-first h pqueue xs x v in
      let (g', done, u) = clear-empty fuel g pqueue xs w (omega arith) in
      (g', rw (is_empty-IsDlist h (pqueue.queue).list_of (x ∷ xs) v, ran) done, u)

  module _ {κ} {B : Type κ} (is_match : A → B → ℤ) (key : B) where
    -- the cells in front of the first match, and the match with the cells behind it
    misses : A → Bool
    misses x = not (is_zero (wrap_is_match is_match x key))

    misses_lem : (x : A) → misses x ≡ is_zero (is_match x key)
    unfolding misses wrap_is_match
    misses_lem x = elim (Bool-cases (is_zero (is_match x key))) [
      | inl t ↦ rw t refl
      | inr f ↦ rw f refl
    ]

    tail : List (ℕ × A) → List (ℕ × A)
    tail [] = []
    tail (x ∷ xs) = xs

    first_match_lem :
        (xs : List (ℕ × A))
        → first_match is_match key (data_of xs) ≡ datum_at (from_first misses xs)
    first_match_lem [] = refl
    first_match_lem (x ∷ xs) = rw (misses_lem x.1) (elim (Bool-cases (is_zero (is_match x.1 key))) [
      | inl t ↦ rw t (first_match_lem xs)
      | inr f ↦ rw f refl
    ])

    without_match_lem :
        (xs : List (ℕ × A))
        → data_of (passed misses xs ++ tail (from_first misses xs))
          ≡ without_match is_match key (data_of xs)
    unfolding tail
    without_match_lem [] = refl
    without_match_lem (x ∷ xs) =
        rw (misses_lem x.1) (elim (Bool-cases (is_zero (is_match x.1 key))) [
          | inl t ↦ rw t (ap (λ r. x.1 ∷ r) (without_match_lem xs))
          | inr f ↦ rw f refl
        ])

    erase_at :
        (fuel : ℕ) (h : Store A) (pqueue : PQueue A) (b : ℕ) (ps qs : List (ℕ × A))
        → IsPQueue h pqueue (ps ++ qs)
        → SortedList.begin h pqueue.queue ≡ some b
        → SortedList.find_if fuel h b (pqueue.queue).list_of.end_dummy (wrap_is_match is_match) key
          ≡ some (iter (pqueue.queue).list_of qs)
        → (g : Store A) × (erase fuel h pqueue is_match key ≡ some (g, datum_at qs))
          × IsPQueue g pqueue (ps ++ tail qs)
    unfolding erase is_same_iter SortedList.list_end SortedList.get_data SortedList.remove tail
    erase_at fuel h pqueue b ps [] v starts found =
        let l = (pqueue.queue).list_of in
        (
          h,
          rw
              (
                starts,
                found,
                eq_test l.end_dummy 0 (iter-not_null h l ps [] v),
                same_test l.end_dummy,
              )
              refl,
          v,
        )
    erase_at fuel h pqueue b ps (x ∷ qs) v starts found =
        let l = (pqueue.queue).list_of in
        let (g, ran, w, _, _) = remove-IsDlist h l ps qs x v in
        (
          g,
          rw
              (
                starts,
                found,
                eq_test l.end_dummy 0 (end-not_null h l (ps ++ (x ∷ qs)) v),
                eq_test x.0 0 (iter-not_null h l ps (x ∷ qs) v),
                eq_test l.end_dummy x.0 (λ e. iter-not_end h l ps qs x v (sym e)),
                get_data-iter h l ps qs x v,
                ran,
              )
              refl,
          w,
        )

    -- With fuel above the length, PQErase returns the first data that match and takes them out of
    -- the queue; where none match it returns null and the data stay.
    pub erase-first_match :
        (fuel : ℕ) (h : Store A) (pqueue : PQueue A) (xs : List (ℕ × A))
        → IsPQueue h pqueue xs
        → length xs < fuel
        → (g : Store A) × (ys : List (ℕ × A)) × (erase fuel h pqueue is_match key
            ≡ some (g, first_match is_match key (data_of xs)))
          × IsPQueue g pqueue ys
          × (data_of ys ≡ without_match is_match key (data_of xs))
    unfolding misses SortedList.begin SortedList.find_if
    erase-first_match fuel h pqueue xs v f =
        let l = (pqueue.queue).list_of in
        let split = passed-from_first misses xs in
        let (g, ran, w) =
          erase_at fuel h pqueue (iter l xs) (passed misses xs) (from_first misses xs)
            (subst (IsDlist h l) split v) (begin-iter h l xs v)
            (scan-iter misses fuel h l [] xs v f) in
        (
          g,
          passed misses xs ++ tail (from_first misses xs),
          rw (first_match_lem xs) ran,
          w,
          without_match_lem xs,
        )
