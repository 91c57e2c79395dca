-- ===== src/Dlist/Walking.antt =====
-- dlist.c: the loops over a list, from an iterator to the end.
use mathlib.Core.Path.{subst}
use daher_repo.Prelude.{
  ℕ, zero, suc, ◌+◌, ◌<◌, ◌≡◌, ◌≢◌, ◌∙◌, refl, sym, ap, Bool, true, false, some, List, [], ◌∷◌,
  ◌++◌, append_assoc, if◌then◌else◌, arith, inl, inr, Bool-cases, length, ℤ, pos, is_zero,
}
use daher_repo.Dlist.{
  Store, Dlist, cell, load, size, size_from, is_same_iter, scan, for_each, is_empty,
}
use daher_repo.Dlist.Segments.{eq_test, same_test, first_or, last_or, load-some}
use daher_repo.Dlist.View.{
  IsDlist, front, rest, iter, data_of, cells_at, next-iter, get_data-iter, begin-iter, iter-not_end,
  iter-not_null,
}
use daher_repo.Prelude.{append-nil}

module _ {ℓ} {A : Type ℓ} where
  -- an iterator moved behind the element it points to
  pub pass :
      {h : Store A} {l : Dlist}
      → (ps qs : List (ℕ × A)) (x : ℕ × A) → IsDlist h l (ps ++ (x ∷ qs))
      → IsDlist h l ((ps ++ (x ∷ [])) ++ qs)
  pass {h} {l} ps qs x v = subst (IsDlist h l) (sym (append_assoc ps (x ∷ []) qs)) v

  pub length-data_of : (xs : List (ℕ × A)) → length (data_of xs) ≡ length xs
  length-data_of [] = refl
  length-data_of (x ∷ xs) = ap suc (length-data_of xs)

  pub end-not_null :
      (h : Store A) (l : Dlist) (xs : List (ℕ × A)) → IsDlist h l xs → l.end_dummy ≢ 0
  end-not_null h l xs v = iter-not_null h l xs [] (subst (IsDlist h l) (sym (append-nil xs)) v)

  size_from_lem :
      (fuel : ℕ) (h : Store A) (l : Dlist) (ps qs : List (ℕ × A)) (c : ℕ)
      → IsDlist h l (ps ++ qs)
      → length qs < fuel
      → size_from fuel h l (iter l qs) c ≡ some (c + length qs)
  unfolding size_from
  size_from_lem zero h l ps qs c v f = elim f [ ]
  size_from_lem (suc fuel) h l ps [] c v f = rw (same_test l.end_dummy) (ap some (omega arith))
  size_from_lem (suc fuel) h l ps (x ∷ qs) c v f =
      rw
        (eq_test l.end_dummy x.0 (λ e. iter-not_end h l ps qs x v (sym e)), next-iter h l ps qs x v)
        (size_from_lem fuel h l (ps ++ (x ∷ [])) qs (c + 1) (pass ps qs x v) (omega arith)
          ∙ ap some (omega arith))

  -- With fuel above the length, `DlistSize` counts the elements.
  pub size-IsDlist :
      (fuel : ℕ) (h : Store A) (l : Dlist) (xs : List (ℕ × A))
      → IsDlist h l xs
      → length xs < fuel
      → size fuel h l ≡ some (length xs)
  unfolding size
  size-IsDlist fuel h l xs v f =
      rw (begin-iter h l xs v) (size_from_lem fuel h l [] xs 0 v f ∙ ap some (omega arith))

  abbrev pub no_element : List (ℕ × A) → Bool
  no_element [] = true
  no_element (x ∷ xs) = false

  pub is_empty-IsDlist :
      (h : Store A) (l : Dlist) (xs : List (ℕ × A))
      → IsDlist h l xs
      → is_empty h l ≡ some (no_element xs)
  unfolding is_empty
  is_empty-IsDlist h l [] v = rw (begin-iter h l [] v, same_test l.end_dummy) refl
  is_empty-IsDlist h l (x ∷ xs) v =
      rw (begin-iter h l (x ∷ xs) v, eq_test x.0 l.end_dummy (iter-not_end h l [] xs x v)) refl

  -- what a search leaves: the elements from the first that fails the test on
  abbrev pub from_first : (A → Bool) → List (ℕ × A) → List (ℕ × A)
  from_first goes_on [] = []
  from_first goes_on (x ∷ xs) =
      let behind = from_first goes_on xs in if goes_on x.1 then behind else x ∷ xs

  -- and what it passes
  abbrev pub passed : (A → Bool) → List (ℕ × A) → List (ℕ × A)
  passed goes_on [] = []
  passed goes_on (x ∷ xs) = let behind = passed goes_on xs in if goes_on x.1 then x ∷ behind else []

  pub passed-from_first :
      (goes_on : A → Bool) (xs : List (ℕ × A)) → xs ≡ passed goes_on xs ++ from_first goes_on xs
  passed-from_first goes_on [] = refl
  passed-from_first goes_on (x ∷ xs) = elim (Bool-cases (goes_on x.1)) [
    | inl t ↦ rw t (ap (λ r. x ∷ r) (passed-from_first goes_on xs))
    | inr f ↦ rw f refl
  ]

  -- With fuel above the number of elements behind an iterator, a search from it to the end stops at the
  -- first that fails the test, or at the end.
  pub scan-iter :
      (goes_on : A → Bool) (fuel : ℕ) (h : Store A) (l : Dlist) (ps qs : List (ℕ × A))
      → IsDlist h l (ps ++ qs)
      → length qs < fuel
      → scan goes_on fuel h (iter l qs) l.end_dummy ≡ some (iter l (from_first goes_on qs))
  unfolding scan is_same_iter
  scan-iter goes_on zero h l ps qs v f = elim f [ ]
  scan-iter goes_on (suc fuel) h l ps [] v f =
      rw (eq_test l.end_dummy 0 (iter-not_null h l ps [] v), same_test l.end_dummy) refl
  scan-iter goes_on (suc fuel) h l ps (x ∷ qs) v f =
      rw
        (
          eq_test x.0 0 (iter-not_null h l ps (x ∷ qs) v),
          eq_test l.end_dummy 0 (end-not_null h l (ps ++ (x ∷ qs)) v),
          eq_test x.0 l.end_dummy (iter-not_end h l ps qs x v),
          get_data-iter h l ps qs x v,
        )
        (elim (Bool-cases (goes_on x.1)) [
          | inl t ↦
              rw (t, next-iter h l ps qs x v)
                (scan-iter goes_on fuel h l (ps ++ (x ∷ [])) qs (pass ps qs x v) (omega arith))
          | inr e ↦ rw e refl
        ])

  module _ {κ} {S : Type κ} (action : A → S → S × ℤ) where
    -- the state and the result after a pass over data, with its early stop
    abbrev pub for_data : List A → S → S × ℤ
    for_data [] s = (s, pos 0)
    for_data (x ∷ xs) s =
        let behind = for_data xs (action x s).0 in
        if is_zero (action x s).1 then behind else action x s

    load-iter :
        (h : Store A) (l : Dlist) (ps qs : List (ℕ × A)) (x : ℕ × A)
        → IsDlist h l (ps ++ (x ∷ qs))
        → load h x.0 ≡ some (cell (some x.1) (first_or 0 (rest l qs)) (last_or 0 (front l ps)))
    load-iter h l ps qs x v =
        let (_, behind, d, _, _) = cells_at h l ps (x ∷ qs) v in
        load-some h x.0 (cell (some x.1) (first_or 0 (rest l qs)) (last_or 0 (front l ps))) d.0
          behind.0

    -- With fuel above the number of elements from an iterator on, DlistForEach from there to the
    -- end is one pass over their data, with the early stop of the action.
    pub for_each-iter :
        (fuel : ℕ) (h : Store A) (l : Dlist) (ps qs : List (ℕ × A)) (s : S)
        → IsDlist h l (ps ++ qs)
        → length qs < fuel
        → for_each fuel h (iter l qs) l.end_dummy action s ≡ some (for_data (data_of qs) s)
    unfolding for_each is_same_iter
    for_each-iter zero h l ps qs s v f = elim f [ ]
    for_each-iter (suc fuel) h l ps [] s v f =
        rw (eq_test l.end_dummy 0 (iter-not_null h l ps [] v), same_test l.end_dummy) refl
    for_each-iter (suc fuel) h l ps (x ∷ qs) s v f =
        rw
          (
            eq_test x.0 0 (iter-not_null h l ps (x ∷ qs) v),
            eq_test l.end_dummy 0 (end-not_null h l (ps ++ (x ∷ qs)) v),
            eq_test x.0 l.end_dummy (iter-not_end h l ps qs x v),
            load-iter h l ps qs x v,
          )
          (elim (Bool-cases (is_zero (action x.1 s).1)) [
            | inl t ↦
                rw (t, next-iter h l ps qs x v)
                  (for_each-iter fuel h l (ps ++ (x ∷ [])) qs (action x.1 s).0 (pass ps qs x v)
                    (omega arith))
            | inr e ↦ rw e refl
          ])
