-- ===== src/Sorts/Ascending.antt =====
-- sorts.c: the order of `int`, arrays in that order, and what `InsertionSort` leaves.
use mathlib.Core.List.{Perm, perm_middle, reverse_aux}
use mathlib.Core.List.Perm
use daher_repo.Prelude.{
  ℕ, zero, suc, ◌+◌, ◌<◌, ◌≡◌, refl, ap, ◌∙◌, true, false, Option, none, some, List, [], ◌∷◌, ◌++◌,
  arith, lt→ltb, ge→ltb, ◌>>=◌, ℤ, ltb_ℤ, get_elem?, store, length, Bool-cases, inl, inr, All,
  All-imp, if◌then◌else◌,
}
use daher_repo.Sorts.{swap_int, sift_back, insertion_sort_from, insertion_sort}

abbrev pub AtMost : ℤ → ℤ → Type 0
AtMost x y = ltb_ℤ y x ≡ false

abbrev pub IsAscending : List ℤ → Type 0
IsAscending [] = Unit
IsAscending (x ∷ xs) = All (AtMost x) xs × IsAscending xs

pub AtMost-trans : (x y z : ℤ) → AtMost x y → AtMost y z → AtMost x z
unfolding ltb_ℤ
AtMost-trans x y z p q = ground arith

pub AtMost-refl : (x : ℤ) → AtMost x x
unfolding ltb_ℤ
AtMost-refl x = ground arith

pub AtMost-of_lt : (x y : ℤ) → ltb_ℤ x y ≡ true → AtMost x y
unfolding ltb_ℤ
AtMost-of_lt x y p = ground arith

-- the sorted part of the array, turned round
IsDescending : List ℤ → Type 0
IsDescending [] = Unit
IsDescending (x ∷ xs) = All (λ y. AtMost y x) xs × IsDescending xs

insert_down : ℤ → List ℤ → List ℤ
insert_down x [] = x ∷ []
insert_down x (y ∷ q) = let lower = insert_down x q in if ltb_ℤ x y then y ∷ lower else x ∷ y ∷ q

All-insert_down : (P : ℤ → Type 0) (x : ℤ) (q : List ℤ) → P x → All P q → All P (insert_down x q)
unfolding insert_down
All-insert_down P x [] p a = (p, tt)
All-insert_down P x (y ∷ q) p a = elim (Bool-cases (ltb_ℤ x y)) [
  | inl less ↦ rw less (a.0, All-insert_down P x q p a.1)
  | inr more ↦ rw more (p, a)
]

insert_down-IsDescending : (x : ℤ) (q : List ℤ) → IsDescending q → IsDescending (insert_down x q)
unfolding insert_down IsDescending
insert_down-IsDescending x [] d = (tt, tt)
insert_down-IsDescending x (y ∷ q) d = elim (Bool-cases (ltb_ℤ x y)) [
  | inl less ↦ rw less (
    All-insert_down (λ z. AtMost z y) x q (AtMost-of_lt x y less) d.0,
    insert_down-IsDescending x q d.1,
  )
  | inr more ↦ rw more ((more, All-imp (λ z l. AtMost-trans z y x l more) q d.0), d)
]

insert_down-perm : (x : ℤ) (q : List ℤ) → Perm (insert_down x q) (x ∷ q)
unfolding insert_down
insert_down-perm x [] = Perm.refl _
insert_down-perm x (y ∷ q) = elim (Bool-cases (ltb_ℤ x y)) [
  | inl less ↦ rw less (Perm.trans (Perm.cons y (insert_down-perm x q)) (Perm.swap x y q))
  | inr more ↦ rw more (Perm.refl _)
]

-- reads and writes where the sorted part ends
get_elem?-end :
    (q : List ℤ) (x : ℤ) (r : List ℤ) (i : ℕ)
    → get_elem? (reverse_aux q (x ∷ r)) (i + length q) ≡ get_elem? (x ∷ r) i
get_elem?-end [] x r i = ap (get_elem? (x ∷ r)) (omega arith)
get_elem?-end (y ∷ q) x r i =
    let e : i + suc (length q) ≡ suc i + length q = omega arith in
    ap (get_elem? (reverse_aux q (y ∷ x ∷ r))) e ∙ get_elem?-end q y (x ∷ r) (suc i)

store_end : List ℤ → Option (List ℤ) → Option (List ℤ)
store_end q o = o >>= λ r. some (reverse_aux q r)

store-end :
    (q : List ℤ) (r : List ℤ) (i : ℕ) (v : ℤ)
    → store (reverse_aux q r) (i + length q) v ≡ store_end q (store r i v)
unfolding store_end
store-end [] r i v = ap (λ k. store r k v) (omega arith) ∙ same (store r i v)
  where
    same : (o : Option (List ℤ)) → o ≡ store_end [] o
    same none = refl
    same (some w) = refl
store-end (y ∷ q) r i v =
    let e : i + suc (length q) ≡ suc i + length q = omega arith in
    ap (λ k. store (reverse_aux q (y ∷ r)) k v) e
    ∙ store-end q (y ∷ r) (suc i) v
    ∙ one_more (store r i v)
  where
    one_more :
        (o : Option (List ℤ))
        → store_end q (elim o [ none ↦ none | some ys ↦ some (y ∷ ys) ]) ≡ store_end (y ∷ q) o
    one_more none = refl
    one_more (some w) = refl

swap-end :
    (q : List ℤ) (y x : ℤ) (r : List ℤ)
    → swap_int (reverse_aux q (y ∷ x ∷ r)) (suc (length q)) (length q)
      ≡ some (reverse_aux q (x ∷ y ∷ r))
unfolding swap_int store_end
swap-end q y x r =
    let one : suc (length q) ≡ 1 + length q = omega arith in
    let none_before : length q ≡ 0 + length q = omega arith in
    rw (
      ap (get_elem? (reverse_aux q (y ∷ x ∷ r))) one ∙ get_elem?-end q y (x ∷ r) 1,
      ap (get_elem? (reverse_aux q (y ∷ x ∷ r))) none_before ∙ get_elem?-end q y (x ∷ r) 0,
      ap (λ k. store (reverse_aux q (y ∷ x ∷ r)) k y) one ∙ store-end q (y ∷ x ∷ r) 1 y,
      ap (λ k. store (reverse_aux q (y ∷ y ∷ r)) k x) none_before ∙ store-end q (y ∷ y ∷ r) 0 x,
    )

length-reverse_aux : (q r : List ℤ) → length (reverse_aux q r) ≡ length q + length r
length-reverse_aux [] r = omega arith
length-reverse_aux (x ∷ q) r = omega (arith, length-reverse_aux q (x ∷ r))

length-insert_down : (x : ℤ) (q : List ℤ) → length (insert_down x q) ≡ suc (length q)
unfolding insert_down
length-insert_down x [] = refl
length-insert_down x (y ∷ q) = elim (Bool-cases (ltb_ℤ x y)) [
  | inl less ↦ rw less (ap suc (length-insert_down x q))
  | inr more ↦ rw more
]

reverse_aux-perm_append : (q r : List ℤ) → Perm (reverse_aux q r) (q ++ r)
reverse_aux-perm_append [] r = Perm.refl r
reverse_aux-perm_append (x ∷ q) r = Perm.trans (reverse_aux-perm_append q (x ∷ r)) (perm_middle q r)

reverse_aux-perm : (p q r : List ℤ) → Perm p q → Perm (reverse_aux p r) (reverse_aux q r)
reverse_aux-perm p q r h =
    Perm.trans (reverse_aux-perm_append p r)
      (Perm.trans (Perm.append_right r h) (Perm.symm (reverse_aux-perm_append q r)))

sift_back_lem :
    (q : List ℤ) (x : ℤ) (r : List ℤ)
    → sift_back (reverse_aux q (x ∷ r)) (length q) ≡ some (reverse_aux (insert_down x q) r)
unfolding sift_back insert_down
sift_back_lem [] x r = refl
sift_back_lem (y ∷ q) x r =
    let one : suc (length q) ≡ 1 + length q = omega arith in
    let none_before : length q ≡ 0 + length q = omega arith in
    rw
      (
        ap (get_elem? (reverse_aux q (y ∷ x ∷ r))) none_before ∙ get_elem?-end q y (x ∷ r) 0,
        ap (get_elem? (reverse_aux q (y ∷ x ∷ r))) one ∙ get_elem?-end q y (x ∷ r) 1,
      )
      (elim (Bool-cases (ltb_ℤ x y)) [
        | inl less ↦ rw (less, swap-end q y x r) (sift_back_lem q x (y ∷ r))
        | inr more ↦ rw more
      ])

insertion_sort_from_lem :
    (fuel : ℕ) (q r : List ℤ)
    → IsDescending q
    → length r < fuel
    → (p : List ℤ) × (insertion_sort_from fuel (reverse_aux q r) (length q)
        ≡ some (reverse_aux p []))
      × IsDescending p
      × Perm (reverse_aux p []) (reverse_aux q r)
unfolding insertion_sort_from
insertion_sort_from_lem zero q r d f = elim f [ ]
insertion_sort_from_lem (suc fuel) q [] d f = (
  q,
  rw (ge→ltb (length q) (length (reverse_aux q [])) (omega (arith, length-reverse_aux q []))),
  d,
  Perm.refl _,
)
insertion_sort_from_lem (suc fuel) q (x ∷ r) d f =
    let (p, e, sorted, perm) =
      insertion_sort_from_lem fuel (insert_down x q) r (insert_down-IsDescending x q d)
        (omega arith) in
    let next : length q + 1 ≡ length (insert_down x q) = omega (arith, length-insert_down x q) in
    (
      p,
      rw
          (
            lt→ltb (length q) (length (reverse_aux q (x ∷ r)))
                (omega (arith, length-reverse_aux q (x ∷ r))),
            sift_back_lem q x r,
            next,
          )
          e,
      sorted,
      Perm.trans perm (reverse_aux-perm (insert_down x q) (x ∷ q) r (insert_down-perm x q)),
    )

descending_turned :
    (q r : List ℤ)
    → IsDescending q
    → IsAscending r
    → All (λ y. All (AtMost y) r) q
    → IsAscending (reverse_aux q r)
unfolding IsDescending
descending_turned [] r d a l = a
descending_turned (x ∷ q) r d a l = descending_turned q (x ∷ r) d.1 (l.0, a) (both q d.0 l.1)
  where
    both :
        (t : List ℤ)
        → All (λ y. AtMost y x) t
        → All (λ y. All (AtMost y) r) t
        → All (λ y. AtMost y x × All (AtMost y) r) t
    both [] p q = tt
    both (z ∷ t) p q = ((p.0, q.0), both t p.1 q.1)

-- With fuel above the length, `InsertionSort` of any array ends, stays inside of the array, and leaves
-- the same elements in ascending order.
pub insertion_sort-IsAscending :
    (fuel : ℕ) (xs : List ℤ)
    → length xs < fuel
    → (ys : List ℤ) × (insertion_sort fuel xs ≡ some ys) × IsAscending ys × Perm ys xs
unfolding insertion_sort IsDescending insertion_sort_from
insertion_sort-IsAscending zero [] f = elim f [ ]
insertion_sort-IsAscending (suc fuel) [] f = ([], refl, tt, Perm.refl [])
insertion_sort-IsAscending fuel (x ∷ xs) f =
    let (p, e, d, perm) = insertion_sort_from_lem fuel (x ∷ []) xs (tt, tt) (omega arith) in
    (reverse_aux p [], e, descending_turned p [] d tt (none_after p), perm)
  where
    none_after : (t : List ℤ) → All (λ y. All (AtMost y) []) t
    none_after [] = tt
    none_after (z ∷ t) = (tt, none_after t)
