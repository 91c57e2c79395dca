-- ===== src/Vector/Growth.antt =====
-- vector.c where the array is full: `VectorReserve` inside of `VectorPushBack`.
use daher_repo.Prelude.{
  ℕ, ◌*◌, ◌^◌, ◌≤◌, ◌<◌, ◌≡◌, refl, sym, ap, ◌∙◌, ◌⊎◌, inl, inr, true, false, none, some, List, [],
  ◌∷◌, ◌++◌, arith, pos, ◌>>=◌, length, store, Option, Option-cases, ◌==◌, mul_word, dec_lt,
}
use daher_repo.Vector.{Vector, IsRealloc, reserve, make_room, append_last, push_back}
use daher_repo.Vector.Contents.{IsVector, append_last_lem, is_full_lem}

module _ {ℓ} {A : Type ℓ} (realloc : List A → ℕ → Option (List A)) where
  reserve-some :
      (v : Vector A) (n : ℕ) {new : List A}
      → realloc v.elements n ≡ some new
      → reserve realloc v n ≡ (0, record v { elements = new; capacity = n })
  unfolding reserve
  reserve-some v n e = rw (e, reserve)

  reserve-none : (v : Vector A) (n : ℕ) → realloc v.elements n ≡ none → reserve realloc v n ≡ (1, v)
  unfolding reserve
  reserve-none v n e = rw (e, reserve)

  -- `VectorReserve` to a size that holds all elements keeps the sequence.
  pub reserve_keeps :
      IsRealloc realloc
      → (v : Vector A) (xs : List A) (n : ℕ) {new : List A} → IsVector v xs
      → length xs ≤ n
      → n < 2 ^ 31
      → realloc v.elements n ≡ some new
      → IsVector (record v { elements = new; capacity = n }) xs
  reserve_keeps law v xs n r h k e = record {
    array = law.new_length v.elements n e;
    limit = k;
    last = r.last;
    room = h;
    prefix = law.keeps v.elements n (length xs) e h (omega (arith, r.array, r.room)) ∙ r.prefix;
  }

  room_left :
      (v : Vector A) (xs : List A)
      → IsVector v xs
      → length xs < v.capacity
      → make_room realloc v ≡ (0, v)
  unfolding make_room
  room_left v xs r h = rw (is_full_lem v xs r, other h)
    where
      other : length xs < v.capacity → (length xs == v.capacity) ≡ false
      other h = ground arith

  no_room :
      (v : Vector A) (xs : List A)
      → IsVector v xs
      → length xs ≡ v.capacity
      → make_room realloc v ≡ reserve realloc v (mul_word v.capacity 2)
  unfolding make_room
  no_room v xs r h = rw (is_full_lem v xs r, same h)
    where
      same : length xs ≡ v.capacity → (length xs == v.capacity) ≡ true
      same h = ground arith

  -- what `VectorPushBack` can leave: the element appended, or nothing changed and 1 returned
  abbrev pub Pushed : Vector A → A → List A → Type ℓ
  Pushed v x xs =
      ((w : Vector A) × (push_back realloc v x ≡ some (0, w)) × IsVector w (xs ++ (x ∷ [])))
      ⊎ ((push_back realloc v x ≡ some (1, v))
          × (length xs ≡ v.capacity)
          × (realloc v.elements (2 * v.capacity) ≡ none))

  -- On a vector of a capacity from 1 to 2 ^ 30 - 1, `VectorPushBack` reads and writes inside of the
  -- array. It appends the element, growing the array where it is full; only where the array is full
  -- and no memory is left does it return 1, and then nothing has changed.
  pub push_back_lem :
      IsRealloc realloc
      → (v : Vector A) (x : A) (xs : List A) → IsVector v xs
      → 0 < v.capacity
      → v.capacity < 2 ^ 30
      → Pushed v x xs
  unfolding push_back
  push_back_lem law v x xs r h k = elim (dec_lt (length xs) v.capacity) [
    | yes room ↦
        let (w, e, s) = append_last_lem v x xs r room in inl (w, rw (room_left v xs r room) e, s)
    | no full ↦
        grow (omega (arith, full, r.room)) (Option-cases (realloc v.elements (2 * v.capacity)))
  ]
    where
      doubled : mul_word v.capacity 2 ≡ 2 * v.capacity
      doubled = omega (arith, k)

      grow :
          length xs ≡ v.capacity
          → (realloc v.elements (2 * v.capacity) ≡ none)
            ⊎ ((new : List A) × (realloc v.elements (2 * v.capacity) ≡ some new))
          → Pushed v x xs
      grow full (inl fails) =
          inr
            (rw (no_room v xs r full, doubled, reserve-none v (2 * v.capacity) fails), full, fails)
      grow full (inr (new, e)) =
          let bigger =
            reserve_keeps law v xs (2 * v.capacity) r (omega (arith, full)) (omega (arith, k)) e in
          let (w, p, s) =
            append_last_lem (record v { elements = new; capacity = 2 * v.capacity }) x xs bigger
              (omega (arith, full, h)) in
          inl (w, rw (no_room v xs r full, doubled, reserve-some v (2 * v.capacity) e) p, s)

  -- A vector of capacity 0 cannot grow by doubling: when `realloc` gives an array of no elements,
  -- `VectorPushBack` goes on to write outside of it.
  pub push_back_zero_capacity :
      IsRealloc realloc
      → (v : Vector A) (x : A) {new : List A} → IsVector v []
      → v.capacity ≡ 0
      → realloc v.elements 0 ≡ some new
      → push_back realloc v x ≡ none
  unfolding push_back append_last
  push_back_zero_capacity law v x {new} r z e =
      rw (made, r.last)
        (ap (λ o. o >>= λ es. some (0, record v { elements = es; capacity = 0; pointer = pos 0 }))
          (nothing_to_write new (law.new_length v.elements 0 e)))
    where
      made : make_room realloc v ≡ (0, record v { elements = new; capacity = 0 })
      made =
          no_room v [] r (sym z) ∙ ap (λ c. reserve realloc v (mul_word c 2)) z ∙ reserve-some v 0 e

      nothing_to_write : (es : List A) → length es ≡ 0 → store es 0 x ≡ none
      nothing_to_write [] h = refl
      nothing_to_write (y ∷ es) h = absurd (omega (arith, h))
