-- ===== src/SortedList/Order.antt =====
-- sorted_list.c, `SortedListInsert`: where it puts the data, and that it keeps the order.
use mathlib.Core.Path.{subst}
use daher_repo.Prelude.{
  ℕ, ◌<◌, ◌≡◌, ◌≢◌, refl, ap, Bool, true, false, not, some, List, [], ◌∷◌, ◌++◌, if◌then◌else◌, inl,
  inr, ◌⊎◌, Bool-cases, length, ℤ, is_neg, All,
}
use daher_repo.Dlist.{Store}
use daher_repo.Dlist.Segments.{Outside}
use daher_repo.Dlist.View.{IsDlist, data_of, full, begin-iter, iter-not_end}
use daher_repo.Dlist.Changing.{IsMalloc, insert-IsDlist}
use daher_repo.Dlist.Walking.{from_first, passed, passed-from_first, scan-iter}
use daher_repo.SortedList.{SortedList, insert, begin, list_end}

module _ {ℓ} {A : Type ℓ} (sort_func : A → A → ℤ) where
  -- Every two elements stand as the callback wants it: it is not negative on an earlier and a later.
  abbrev pub InOrder : List A → Type 0
  InOrder [] = Unit
  InOrder (x ∷ xs) = All (λ y. is_neg (sort_func x y) ≡ false) xs × InOrder xs

  -- The data go before the first element on which the callback is negative.
  unfoldable pub place : A → List A → List A
  place d [] = d ∷ []
  place d (x ∷ xs) =
      let behind = place d xs in if is_neg (sort_func x d) then d ∷ x ∷ xs else x ∷ behind

  -- What an order of the list asks of the callback, on the data it is used for.
  pub record IsSortFunc (Keyed : A → Type 0) : Type ℓ where
    pub turned :
        (x d : A)
        → Keyed x
        → Keyed d
        → is_neg (sort_func x d) ≡ true
        → is_neg (sort_func d x) ≡ false
    pub onwards :
        (d x y : A)
        → Keyed d
        → Keyed x
        → Keyed y
        → is_neg (sort_func x d) ≡ true
        → is_neg (sort_func x y) ≡ false
        → is_neg (sort_func d y) ≡ false

  pub All-place : (P : A → Type 0) (d : A) (xs : List A) → P d → All P xs → All P (place d xs)
  unfolding place
  All-place P d [] p a = (p, tt)
  All-place P d (x ∷ xs) p a = elim (Bool-cases (is_neg (sort_func x d))) [
    | inl t ↦ rw t (p, a)
    | inr f ↦ rw f (a.0, All-place P d xs p a.1)
  ]

  All-onwards :
      (Keyed : A → Type 0)
      → IsSortFunc Keyed
      → (d x : A) (xs : List A) → Keyed d
      → Keyed x
      → All Keyed xs
      → is_neg (sort_func x d) ≡ true
      → All (λ y. is_neg (sort_func x y) ≡ false) xs
      → All (λ y. is_neg (sort_func d y) ≡ false) xs
  All-onwards Keyed law d x [] k kx ks t a = tt
  All-onwards Keyed law d x (y ∷ ys) k kx ks t a =
      (law.onwards d x y k kx ks.0 t a.0, All-onwards Keyed law d x ys k kx ks.1 t a.1)

  -- Where the callback is such on all the data, they stay in order.
  pub place-InOrder :
      (Keyed : A → Type 0)
      → IsSortFunc Keyed
      → (d : A) (xs : List A) → Keyed d
      → All Keyed xs
      → InOrder xs
      → InOrder (place d xs)
  unfolding place
  place-InOrder Keyed law d [] k ks o = (tt, tt)
  place-InOrder Keyed law d (x ∷ xs) k ks o = elim (Bool-cases (is_neg (sort_func x d))) [
    | inl t ↦ rw t ((law.turned x d ks.0 k t, All-onwards Keyed law d x xs k ks.0 ks.1 t o.0), o)
    | inr f ↦ rw f (
      All-place (λ y. is_neg (sort_func x y) ≡ false) d xs f o.0,
      place-InOrder Keyed law d xs k ks.1 o.1,
    )
  ]

  -- the search of an insertion stops where `place` puts the data
  place-scan :
      (d : A) (a : ℕ) (xs : List (ℕ × A))
      → data_of (
          passed (λ y. not (is_neg (sort_func y d))) xs
          ++ ((a, d) ∷ from_first (λ y. not (is_neg (sort_func y d))) xs))
        ≡ place d (data_of xs)
  unfolding place
  place-scan d a [] = refl
  place-scan d a (x ∷ xs) = elim (Bool-cases (is_neg (sort_func x.1 d))) [
    | inl t ↦ rw t refl
    | inr f ↦ rw f (ap (λ r. x.1 ∷ r) (place-scan d a xs))
  ]

module _ {ℓ} {A : Type ℓ} where
  -- Where malloc returns NULL or an address not in use, and fuel is above the length,
  -- SortedListInsert puts the data before the first element on which the callback is negative and
  -- changes nothing outside of the list; only without memory does it return the end, and then
  -- nothing has changed.
  pub insert-place :
      (malloc : Store A → ℕ)
      → IsMalloc malloc
      → (fuel : ℕ) (h : Store A) (list : SortedList A) (xs : List (ℕ × A)) (x : A)
      → IsDlist h list.list_of xs
      → length xs < fuel
      → ((malloc h ≡ 0) × (insert malloc fuel h list x ≡ some (h, list_end list)))
        ⊎ ((malloc h ≢ 0)
            × ((g : Store A) × (ys : List (ℕ × A)) × (insert malloc fuel h list x
                  ≡ some (g, malloc h))
                × IsDlist g list.list_of ys
                × (data_of ys ≡ place list.sort_func x (data_of xs))
                × (malloc h ≢ list_end list)
                × ((a : ℕ) → a ≢ malloc h → Outside a (full list.list_of xs) → g a ≡ h a)))
  unfolding insert begin list_end
  insert-place malloc law fuel h list xs x v f =
      let goes_on : A → Bool = (λ y. not (is_neg (list.sort_func y x))) in
      let l = list.list_of in
      let split = passed-from_first goes_on xs in
      let found = scan-iter goes_on fuel h l [] xs v f in
      elim (insert-IsDlist malloc law h l (passed goes_on xs) (from_first goes_on xs) x
        (subst (IsDlist h l) split v)) [
          | inl (no_memory, same) ↦ inl (no_memory, rw (begin-iter h l xs v, found) same)
          | inr (ne, (g, done, w, far)) ↦ inr (
            ne,
            (
              g,
              passed goes_on xs ++ ((malloc h, x) ∷ from_first goes_on xs),
              rw (begin-iter h l xs v, found) done,
              w,
              place-scan list.sort_func x (malloc h) xs,
              iter-not_end g l (passed goes_on xs) (from_first goes_on xs) (malloc h, x) w,
              (λ a d o. far a d (subst (λ t. Outside a (full l t)) split o)),
            ),
          )
        ]
