-- ===== src/Dlist/Changing.antt =====
-- dlist.c: `DlistInsert`, `DlistRemove` and the operations at the ends, on the sequence of a list.
use mathlib.Core.Path.{subst}
use daher_repo.Prelude.{
  ℕ, ◌≡◌, ◌≢◌, ◌∙◌, refl, sym, ap, true, false, Option, none, some, List, [], ◌∷◌, ◌++◌, ◌==◌,
  append_assoc, inl, inr, ◌⊎◌, Bool-cases, ==→eq,
}
use daher_repo.Dlist.{Store, Dlist, cell, insert, remove}
use daher_repo.Dlist.Segments.{
  eq_test, last_or, Seg, Outside, Distinct, insert-Distinct, remove-Distinct, last_or-append,
}
use daher_repo.Dlist.Linking.{insert-Seg, remove-Seg}
use daher_repo.Dlist.View.{
  IsDlist, real, rest, front, full, iter, datum_at, after, rest-cons, full-append, snoc,
  iter-not_null, iter-not_end,
}

-- `malloc` returns NULL, or an address that holds no node.
abbrev pub IsMalloc {ℓ} : {A : Type ℓ} → (Store A → ℕ) → Type ℓ
IsMalloc {A} malloc = (h : Store A) → malloc h ≢ 0 → h (malloc h) ≡ none

module _ {ℓ} {A : Type ℓ} where
  -- An address without a node is none of the list's.
  pub Seg-Outside :
      (h : Store A) (n q : ℕ) (cs : List (ℕ × Option A)) (r : ℕ)
      → h n ≡ none
      → Seg h q cs r
      → Outside n cs
  Seg-Outside h n q [] r e s = tt
  Seg-Outside h n q (c ∷ cs) r e s = (
    (λ same. let bad : none ≡ some (cell c.1 _ q) = sym e ∙ ap h same ∙ s.0 in cc),
    Seg-Outside h n c.0 cs r e s.1,
  )

  -- the cell in front of an iterator
  before :
      (l : Dlist) (ps : List (ℕ × A))
      → (pre : List (ℕ × Option A)) × (u : ℕ × Option A) × ((qs : List (ℕ × A))
          → full l (ps ++ qs) ≡ pre ++ (u ∷ rest l qs))
        × (last_or 0 (front l ps) ≡ u.0)
  before l ps =
      let (pre, u, e) = snoc (l.begin_dummy, none) (real ps) in
      (
        pre,
        u,
        (λ qs.
            full-append l ps qs
            ∙ ap (λ t. t ++ rest l qs) e
            ∙ append_assoc pre (u ∷ []) (rest l qs)),
        ap (last_or 0) e ∙ last_or-append pre (u ∷ []) 0,
      )

  -- Where malloc returns NULL or an address not in use, DlistInsert before any element or at the
  -- end of a list puts the data there and changes nothing outside of the list; without memory it
  -- returns the end and changes nothing.
  pub insert-IsDlist :
      (malloc : Store A → ℕ)
      → IsMalloc malloc
      → (h : Store A) (l : Dlist) (ps qs : List (ℕ × A)) (x : A) → IsDlist h l (ps ++ qs)
      → ((malloc h ≡ 0) × (insert malloc h l (iter l qs) x ≡ some (h, l.end_dummy)))
        ⊎ ((malloc h ≢ 0)
            × ((g : Store A) × (insert malloc h l (iter l qs) x ≡ some (g, malloc h))
                × IsDlist g l (ps ++ ((malloc h, x) ∷ qs))
                × ((a : ℕ) → a ≢ malloc h → Outside a (full l (ps ++ qs)) → g a ≡ h a)))
  unfolding insert
  insert-IsDlist malloc law h l ps qs x v =
      let where_not_null = iter-not_null h l ps qs v in
      elim (Bool-cases (malloc h == 0)) [
        | inl none_left ↦ inl (
          ==→eq (malloc h) 0 none_left,
          rw (eq_test (iter l qs) 0 where_not_null, none_left) refl,
        )
        | inr given ↦
            let ne : malloc h ≢ 0 =
              (λ e. let bad : true ≡ false = sym (ap (λ z. z == 0) e) ∙ given in cc) in
            let (pre, u, split, _) = before l ps in
            let w : ℕ × Option A = (iter l qs, datum_at qs) in
            let shape : full l (ps ++ qs) ≡ pre ++ (u ∷ w ∷ after l qs) =
              split qs ∙ ap (λ t. pre ++ (u ∷ t)) (rest-cons l qs) in
            let out = Seg-Outside h (malloc h) 0 (full l (ps ++ qs)) 0 (law h ne) v.chain in
            let (g1, g, made, linked, chain, far) =
              insert-Seg h pre u w (after l qs) (malloc h) x
                (subst (λ cs. Seg h 0 cs 0) shape v.chain) (subst Distinct shape v.distinct) ne
                (subst (Outside (malloc h)) shape out) in
            let new_shape : full l (ps ++ ((malloc h, x) ∷ qs))
                ≡ pre ++ (u ∷ (malloc h, some x) ∷ w ∷ after l qs) =
              split ((malloc h, x) ∷ qs)
              ∙ ap (λ t. pre ++ (u ∷ (malloc h, some x) ∷ t)) (rest-cons l qs) in
            inr (
              ne,
              (
                g,
                rw (eq_test (iter l qs) 0 where_not_null, given, made, linked) refl,
                record {
                  chain = subst (λ cs. Seg g 0 cs 0) (sym new_shape) chain;
                  distinct = subst Distinct (sym (new_shape ∙ sym (append_assoc pre (u ∷ []) _))) (
                      insert-Distinct (pre ++ (u ∷ [])) (w ∷ after l qs) (malloc h, some x) ne
                        (subst (Outside (malloc h)) (shape ∙ sym (append_assoc pre (u ∷ []) _)) out)
                        (subst Distinct (shape ∙ sym (append_assoc pre (u ∷ []) _)) v.distinct));
                },
                (λ a d o. spared a pre u w (after l qs) g d (subst (Outside a) shape o) far),
              ),
            )
      ]
    where
      spared :
          (a : ℕ) (pre : List (ℕ × Option A)) (u w : ℕ × Option A) (post : List (ℕ × Option A))
          (g : Store A)
          → a ≢ malloc h
          → Outside a (pre ++ (u ∷ w ∷ post))
          → ((a : ℕ) → a ≢ malloc h → a ≢ u.0 → a ≢ w.0 → g a ≡ h a)
          → g a ≡ h a
      spared a [] u w post g d o far = far a d o.0 o.1.0
      spared a (c ∷ pre) u w post g d o far = spared a pre u w post g d o.1 far

  -- DlistRemove of any element takes it out of the list, returns the iterator behind it, gives its
  -- node back and changes nothing outside of the list.
  pub remove-IsDlist :
      (h : Store A) (l : Dlist) (ps qs : List (ℕ × A)) (x : ℕ × A)
      → IsDlist h l (ps ++ (x ∷ qs))
      → (g : Store A) × (remove h l x.0 ≡ some (g, iter l qs))
        × IsDlist g l (ps ++ qs)
        × (g x.0 ≡ none)
        × ((a : ℕ) → Outside a (full l (ps ++ (x ∷ qs))) → g a ≡ h a)
  remove-IsDlist h l ps qs x v =
      let (pre, u, split, _) = before l ps in
      let w : ℕ × Option A = (iter l qs, datum_at qs) in
      let c : ℕ × Option A = (x.0, some x.1) in
      let shape : full l (ps ++ (x ∷ qs)) ≡ pre ++ (u ∷ c ∷ w ∷ after l qs) =
        split (x ∷ qs) ∙ ap (λ t. pre ++ (u ∷ c ∷ t)) (rest-cons l qs) in
      let new_shape : full l (ps ++ qs) ≡ pre ++ (u ∷ w ∷ after l qs) =
        split qs ∙ ap (λ t. pre ++ (u ∷ t)) (rest-cons l qs) in
      let (g, ran, chain, gone, far) =
        remove-Seg h l pre u c w (after l qs) (subst (λ cs. Seg h 0 cs 0) shape v.chain)
          (subst Distinct shape v.distinct) (λ e. iter-not_end h l ps qs x v (sym e)) in
      (
        g,
        ran,
        record {
          chain = subst (λ cs. Seg g 0 cs 0) (sym new_shape) chain;
          distinct = subst Distinct (sym (new_shape ∙ sym (append_assoc pre (u ∷ []) _))) (
              remove-Distinct (pre ++ (u ∷ [])) (w ∷ after l qs) c
                (subst Distinct (shape ∙ sym (append_assoc pre (u ∷ []) _)) v.distinct));
        },
        gone,
        (λ a o. spared a pre u c w (after l qs) g (subst (Outside a) shape o) far),
      )
    where
      spared :
          (a : ℕ) (pre : List (ℕ × Option A)) (u c w : ℕ × Option A) (post : List (ℕ × Option A))
          (g : Store A)
          → Outside a (pre ++ (u ∷ c ∷ w ∷ post))
          → ((a : ℕ) → a ≢ u.0 → a ≢ c.0 → a ≢ w.0 → g a ≡ h a)
          → g a ≡ h a
      spared a [] u c w post g o far = far a o.0 o.1.0 o.1.1.0
      spared a (b ∷ pre) u c w post g o far = spared a pre u c w post g o.1 far
