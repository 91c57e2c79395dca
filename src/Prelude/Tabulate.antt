-- ===== src/Prelude/Tabulate.antt =====
-- Lists by their elements: `tabulate f off n` is `f off, …, f (off + n - 1)`; the blocks that `memcpy` moves.
use Prim.Native.Nat.{ℕ, zero, suc, ◌+◌, ◌-◌, ◌≤◌, ◌<◌}
use mathlib.Core.Path.{◌≡◌, refl, sym, ap, ap₂, ◌∙◌}
use mathlib.Core.List.{List, [], ◌∷◌, ◌++◌}
use native.Mathlib.Nat.{add-zero, zero-add, suc-add}
use native.Mathlib.Omega.{arith}
use daher_repo.Prelude.Lists.{length, get_or, take, drop, length-drop}

module _ {ℓ} {A : Type ℓ} where
  abbrev pub tabulate : (ℕ → A) → ℕ → ℕ → List A
  tabulate f off zero = []
  tabulate f off (suc n) = f off ∷ tabulate f (suc off) n

  -- `n` elements from index `off` on
  abbrev pub slice : List A → ℕ → ℕ → List A
  slice xs off n = take n (drop off xs)

  -- A block copied over a list; what would reach past the end is not written.
  abbrev pub overwrite : List A → List A → List A
  overwrite xs [] = xs
  overwrite [] (b ∷ bs) = []
  overwrite (x ∷ xs) (b ∷ bs) = b ∷ overwrite xs bs

  -- the block copied at index `off`
  abbrev pub splice : List A → ℕ → List A → List A
  splice xs zero bs = overwrite xs bs
  splice [] (suc off) bs = []
  splice (x ∷ xs) (suc off) bs = x ∷ splice xs off bs

  pub tabulate_ext :
      (f g : ℕ → A) (a b n : ℕ)
      → ((i : ℕ) → i < n → f (a + i) ≡ g (b + i))
      → tabulate f a n ≡ tabulate g b n
  tabulate_ext f g a b zero h = refl
  tabulate_ext f g a b (suc n) h =
      ap₂ ◌∷◌ (ap f (omega arith) ∙ h 0 (omega arith) ∙ ap g (omega arith)) (
        tabulate_ext f g (suc a) (suc b) n
          (λ i p. ap f (omega arith) ∙ h (suc i) (omega arith) ∙ ap g (omega arith)))

  pub length-tabulate : (f : ℕ → A) (a n : ℕ) → length (tabulate f a n) ≡ n
  length-tabulate f a zero = refl
  length-tabulate f a (suc n) = ap suc (length-tabulate f (suc a) n)

  pub tabulate-append :
      (f : ℕ → A) (a m n : ℕ) → tabulate f a m ++ tabulate f (a + m) n ≡ tabulate f a (m + n)
  tabulate-append f a zero n = ap₂ (tabulate f) (add-zero a) (sym (zero-add n))
  tabulate-append f a (suc m) n = rw suc-add (
      ap (λ t. f a ∷ t)
        (ap (λ k. tabulate f (suc a) m ++ tabulate f k n) (omega arith)
          ∙ tabulate-append f (suc a) m n))

  pub take-tabulate : (f : ℕ → A) (a m n : ℕ) → m ≤ n → take m (tabulate f a n) ≡ tabulate f a m
  take-tabulate f a zero n h = refl
  take-tabulate f a (suc m) zero h = elim h [ ]
  take-tabulate f a (suc m) (suc n) h =
      ap (λ t. f a ∷ t) (take-tabulate f (suc a) m n (omega arith))

  pub drop-tabulate :
      (f : ℕ → A) (a m n : ℕ) → m ≤ n → drop m (tabulate f a n) ≡ tabulate f (a + m) (n - m)
  drop-tabulate f a zero n h = ap₂ (tabulate f) (sym (add-zero a)) (omega arith)
  drop-tabulate f a (suc m) zero h = elim h [ ]
  drop-tabulate f a (suc m) (suc n) h =
      drop-tabulate f (suc a) m n (omega arith) ∙ ap₂ (tabulate f) (omega arith) (omega arith)

  take-eq-tabulate :
      (xs : List A) (n : ℕ) (d : A) (f : ℕ → A) (a : ℕ)
      → n ≤ length xs
      → ((i : ℕ) → i < n → get_or xs i d ≡ f (a + i))
      → take n xs ≡ tabulate f a n
  take-eq-tabulate xs zero d f a h e = refl
  take-eq-tabulate [] (suc n) d f a h e = elim h [ ]
  take-eq-tabulate (x ∷ xs) (suc n) d f a h e = ap₂ ◌∷◌ (e 0 (omega arith) ∙ ap f (omega arith)) (
      take-eq-tabulate xs n d f (suc a) (omega arith)
        (λ i p. e (suc i) (omega arith) ∙ ap f (omega arith)))

  pub get_or-drop :
      (xs : List A) (off i : ℕ) (d : A) → get_or (drop off xs) i d ≡ get_or xs (off + i) d
  get_or-drop xs zero i d = ap (λ k. get_or xs k d) (omega arith)
  get_or-drop [] (suc off) i d = refl
  get_or-drop (x ∷ xs) (suc off) i d = rw suc-add (get_or-drop xs off i d)

  pub slice-tabulate :
      (xs : List A) (off n : ℕ) (d : A)
      → off + n ≤ length xs
      → slice xs off n ≡ tabulate (λ i. get_or xs i d) off n
  slice-tabulate xs off n d h =
      take-eq-tabulate (drop off xs) n d (λ i. get_or xs i d) off
        (omega (arith, length-drop off xs)) (λ i p. get_or-drop xs off i d)

  pub get_or-take : (xs : List A) (n i : ℕ) (d : A) → i < n → get_or (take n xs) i d ≡ get_or xs i d
  get_or-take xs zero i d h = elim h [ ]
  get_or-take [] (suc n) i d h = refl
  get_or-take (x ∷ xs) (suc n) zero d h = refl
  get_or-take (x ∷ xs) (suc n) (suc i) d h = get_or-take xs n i d (omega arith)

  pub get_or-splice_in :
      (xs bs : List A) (off j : ℕ) (d : A)
      → off + length bs ≤ length xs
      → off ≤ j
      → j < off + length bs
      → get_or (splice xs off bs) j d ≡ get_or bs (j - off) d
  get_or-splice_in xs bs zero j d h k m =
      get_or-overwrite_in xs bs j (omega arith) (omega arith)
      ∙ ap (λ i. get_or bs i d) (omega arith)
    where
      get_or-overwrite_in :
          (xs bs : List A) (j : ℕ)
          → length bs ≤ length xs
          → j < length bs
          → get_or (overwrite xs bs) j d ≡ get_or bs j d
      get_or-overwrite_in xs [] j h k = elim k [ ]
      get_or-overwrite_in [] (b ∷ bs) j h k = elim h [ ]
      get_or-overwrite_in (x ∷ xs) (b ∷ bs) zero h k = refl
      get_or-overwrite_in (x ∷ xs) (b ∷ bs) (suc j) h k =
          get_or-overwrite_in xs bs j (omega arith) (omega arith)
  get_or-splice_in [] bs (suc off) j d h k m = absurd (omega arith)
  get_or-splice_in (x ∷ xs) bs (suc off) zero d h k m = elim k [ ]
  get_or-splice_in (x ∷ xs) bs (suc off) (suc j) d h k m =
      get_or-splice_in xs bs off j d (omega arith) (omega arith) (omega arith)
      ∙ ap (λ i. get_or bs i d) (omega arith)

  get_or-overwrite_out :
      (xs bs : List A) (j : ℕ) (d : A)
      → length bs ≤ j
      → get_or (overwrite xs bs) j d ≡ get_or xs j d
  get_or-overwrite_out xs [] j d h = refl
  get_or-overwrite_out [] (b ∷ bs) j d h = refl
  get_or-overwrite_out (x ∷ xs) (b ∷ bs) zero d h = elim h [ ]
  get_or-overwrite_out (x ∷ xs) (b ∷ bs) (suc j) d h = get_or-overwrite_out xs bs j d (omega arith)

  pub get_or-splice_before :
      (xs bs : List A) (off j : ℕ) (d : A) → j < off → get_or (splice xs off bs) j d ≡ get_or xs j d
  get_or-splice_before xs bs zero j d h = elim h [ ]
  get_or-splice_before [] bs (suc off) j d h = refl
  get_or-splice_before (x ∷ xs) bs (suc off) zero d h = refl
  get_or-splice_before (x ∷ xs) bs (suc off) (suc j) d h =
      get_or-splice_before xs bs off j d (omega arith)

  pub get_or-splice_after :
      (xs bs : List A) (off j : ℕ) (d : A)
      → off + length bs ≤ j
      → get_or (splice xs off bs) j d ≡ get_or xs j d
  get_or-splice_after xs bs zero j d h = get_or-overwrite_out xs bs j d (omega arith)
  get_or-splice_after [] bs (suc off) j d h = refl
  get_or-splice_after (x ∷ xs) bs (suc off) zero d h = absurd (omega arith)
  get_or-splice_after (x ∷ xs) bs (suc off) (suc j) d h =
      get_or-splice_after xs bs off j d (omega arith)

  pub length-splice : (xs bs : List A) (off : ℕ) → length (splice xs off bs) ≡ length xs
  length-splice [] [] zero = refl
  length-splice [] (b ∷ bs) zero = refl
  length-splice [] bs (suc off) = refl
  length-splice (x ∷ xs) [] zero = refl
  length-splice (x ∷ xs) (b ∷ bs) zero = ap suc (length-splice xs bs zero)
  length-splice (x ∷ xs) bs (suc off) = ap suc (length-splice xs bs off)
