-- ===== src/Sorts/Elements.antt =====
-- sorts.c: the swapping sorts end, stay inside of the array, and keep the elements.
use mathlib.Core.List.{Perm}
use mathlib.Core.List.Perm
use daher_repo.Prelude.{
  ℕ, zero, suc, ◌+◌, ◌^◌, ◌≤◌, ◌<◌, ◌≡◌, refl, ◌∙◌, Option, none, some, List, [], arith, ltb,
  if◌then◌else◌, ◌>>=◌, sub_word, ℤ, ltb_ℤ, get_elem?-some, store-set, set, length, length-set,
  Bool, true, false, Bool-cases, inl, inr,
}
use daher_repo.Heap.Swaps.{swap-perm}
use daher_repo.Sorts.{
  swap_int, order_neighbours, bubble_pass, bubble_sort_from, bubble_sort, find_minimum,
  selection_sort_from, selection_sort,
}

-- A run ends on an array of the same elements.
abbrev pub Keeps : Option (List ℤ) → List ℤ → Type 0
Keeps o xs = (ys : List ℤ) × (o ≡ some ys) × Perm ys xs × (length ys ≡ length xs)

Keeps-bind :
    (o : Option (List ℤ)) (f : List ℤ → Option (List ℤ)) (xs : List ℤ)
    → Keeps o xs
    → ((ys : List ℤ) → length ys ≡ length xs → Keeps (f ys) ys)
    → Keeps (o >>= f) xs
Keeps-bind o f xs k g =
    let (ys, e, p, l) = k in let (zs, d, q, m) = g ys l in (zs, rw e d, Perm.trans q p, m ∙ l)

Keeps-if :
    (b : Bool) (o : Option (List ℤ)) (xs : List ℤ)
    → ((b ≡ true) → Keeps o xs)
    → Keeps (if b then o else some xs) xs
Keeps-if true o xs k = k refl
Keeps-if false o xs k = (xs, refl, Perm.refl xs, refl)

swap_int_lem : (xs : List ℤ) (i j : ℕ) → i < length xs → j < length xs → Keeps (swap_int xs i j) xs
unfolding swap_int
swap_int_lem xs i j h k =
    let (a, at_i) = get_elem?-some xs i h in
    let (b, at_j) = get_elem?-some xs j k in
    let inside : j < length (set xs i b) = omega (arith, length-set xs i b) in
    (
      set (set xs i b) j a,
      rw (at_i, at_j, store-set xs i b h, store-set (set xs i b) j a inside),
      swap-perm xs i j a b at_i at_j k,
      length-set (set xs i b) j a ∙ length-set xs i b,
    )

less-true : (a b : ℕ) → ltb a b ≡ true → a < b
less-true a b h = ground arith

order_neighbours_lem : (xs : List ℤ) (i : ℕ) → i + 1 < length xs → Keeps (order_neighbours xs i) xs
unfolding order_neighbours
order_neighbours_lem xs i h =
    let (a, at) = get_elem?-some xs i (omega arith) in
    let (b, next) = get_elem?-some xs (i + 1) h in
    let (ys, e, r, l) =
      Keeps-if (ltb_ℤ b a) (swap_int xs i (i + 1)) xs
        (λ t. swap_int_lem xs i (i + 1) (omega arith) h) in
    (ys, rw (at, next) e, r, l)

bubble_pass_lem :
    (fuel : ℕ) (xs : List ℤ) (runner i : ℕ)
    → length xs < 2 ^ 63
    → runner < length xs
    → length xs < fuel + i
    → 0 < fuel
    → Keeps (bubble_pass fuel xs runner i) xs
unfolding bubble_pass
bubble_pass_lem zero xs runner i small h f pos = elim pos [ ]
bubble_pass_lem (suc fuel) xs runner i small h f pos =
    Keeps-if (ltb i (sub_word (sub_word (length xs) runner) 1)) _ xs (λ t.
      let below : i < sub_word (sub_word (length xs) runner) 1 =
        less-true i (sub_word (sub_word (length xs) runner) 1) t in
      let next : i + 1 < length xs = omega (arith, below) in
      Keeps-bind _ _ xs (order_neighbours_lem xs i next) (λ ys l.
        bubble_pass_lem fuel ys runner (i + 1) (omega (arith, l)) (omega (arith, l))
          (omega (arith, l)) (omega arith)))

bubble_sort_from_lem :
    (fuel : ℕ) (xs : List ℤ) (runner : ℕ)
    → length xs < 2 ^ 63
    → 0 < length xs
    → length xs ≤ fuel + runner
    → 0 < fuel
    → Keeps (bubble_sort_from fuel xs runner) xs
unfolding bubble_sort_from
bubble_sort_from_lem zero xs runner small some_left f pos = elim pos [ ]
bubble_sort_from_lem (suc fuel) xs runner small some_left f pos =
    Keeps-if (ltb runner (sub_word (length xs) 1)) _ xs (λ t.
      let below : runner < sub_word (length xs) 1 = less-true runner (sub_word (length xs) 1) t in
      let next : runner + 1 < length xs = omega (arith, below) in
      Keeps-bind _ _ xs
        (bubble_pass_lem (suc (length xs)) xs runner 0 small (omega arith) (omega arith)
          (omega arith))
        (λ ys l.
          bubble_sort_from_lem fuel ys (runner + 1) (omega (arith, l)) (omega (arith, l))
            (omega (arith, l)) (omega arith)))

-- With as much fuel as elements, `BubbleSort` of an array that is not empty ends, stays inside of the
-- array, and keeps the elements.
pub bubble_sort-perm :
    (fuel : ℕ) (xs : List ℤ)
    → length xs < 2 ^ 63
    → 0 < length xs
    → length xs ≤ fuel
    → Keeps (bubble_sort fuel xs) xs
unfolding bubble_sort
bubble_sort-perm fuel xs small some_left f =
    bubble_sort_from_lem fuel xs 0 small some_left (omega arith) (omega arith)

-- An empty array has 2 ^ 64 - 1 as its length less one: `BubbleSort` reads outside of it.
pub bubble_sort_empty : (fuel : ℕ) → bubble_sort fuel [] ≡ none
unfolding bubble_sort bubble_sort_from bubble_pass order_neighbours
bubble_sort_empty zero = refl
bubble_sort_empty (suc fuel) = refl

find_minimum_lem :
    (fuel : ℕ) (xs : List ℤ) (runner low : ℕ)
    → low < length xs
    → length xs < fuel + runner
    → 0 < fuel
    → (m : ℕ) × (find_minimum fuel xs runner low ≡ some m) × (m < length xs)
unfolding find_minimum
find_minimum_lem zero xs runner low h f pos = elim pos [ ]
find_minimum_lem (suc fuel) xs runner low h f pos = elim (Bool-cases (ltb runner (length xs))) [
  | inr stop ↦ (low, rw stop, h)
  | inl go ↦
      let in_range : runner < length xs = less-true runner (length xs) go in
      let (a, at) = get_elem?-some xs runner in_range in
      let (b, at_low) = get_elem?-some xs low h in
      let (m, e, k) =
        find_minimum_lem fuel xs (runner + 1) (if ltb_ℤ a b then runner else low)
          (either (ltb_ℤ a b) in_range h) (omega arith) (omega arith) in
      (m, rw (go, at, at_low, e), k)
]
  where
    either : (t : Bool) {i j n : ℕ} → i < n → j < n → (if t then i else j) < n
    either true p q = p
    either false p q = q

selection_sort_from_lem :
    (fuel : ℕ) (xs : List ℤ) (i : ℕ)
    → length xs < 2 ^ 63
    → 0 < length xs
    → length xs ≤ fuel + i
    → 0 < fuel
    → Keeps (selection_sort_from fuel xs i) xs
unfolding selection_sort_from
selection_sort_from_lem zero xs i small some_left f pos = elim pos [ ]
selection_sort_from_lem (suc fuel) xs i small some_left f pos =
    Keeps-if (ltb i (sub_word (length xs) 1)) _ xs (λ t.
      let below : i < sub_word (length xs) 1 = less-true i (sub_word (length xs) 1) t in
      let next : i + 1 < length xs = omega (arith, below) in
      let (m, e, inside) =
        find_minimum_lem (suc (length xs)) xs i i (omega arith) (omega arith) (omega arith) in
      let (zs, d, p, n) = Keeps-bind _ _ xs (swap_int_lem xs i m (omega arith) inside) (λ ys l.
        selection_sort_from_lem fuel ys (i + 1) (omega (arith, l)) (omega (arith, l))
          (omega (arith, l)) (omega arith)) in
      (zs, rw e d, p, n))

-- With as much fuel as elements, `SelectionSort` of an array that is not empty ends, stays inside of
-- the array, and keeps the elements.
pub selection_sort-perm :
    (fuel : ℕ) (xs : List ℤ)
    → length xs < 2 ^ 63
    → 0 < length xs
    → length xs ≤ fuel
    → Keeps (selection_sort fuel xs) xs
unfolding selection_sort
selection_sort-perm fuel xs small some_left f =
    selection_sort_from_lem fuel xs 0 small some_left (omega arith) (omega arith)
