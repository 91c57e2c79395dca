-- ===== src/Dlist/View.antt =====
-- dlist.c: the lists that a store holds, and where their iterators point.
use mathlib.Core.Path.{subst}
use daher_repo.Prelude.{
  ℕ, ◌≡◌, ◌≢◌, ◌∙◌, refl, sym, ap, Option, none, some, List, [], ◌∷◌, ◌++◌, All,
}
use daher_repo.Dlist.{Store, Dlist, cell, next, prev, begin, get_data, assert_inner}
use daher_repo.Dlist.Segments.{
  eq_test, load-some, first_or, last_or, Seg, Outside, Distinct, Seg-of_append, Distinct-of_append,
}
use daher_repo.Dlist.Linking.{next_lem, prev_lem}

module _ {ℓ} {A : Type ℓ} where
  -- The cells from the given ones on to the end dummy; all cells; and those before.
  abbrev pub real : List (ℕ × A) → List (ℕ × Option A)
  real [] = []
  real (x ∷ xs) = (x.0, some x.1) ∷ real xs

  abbrev pub rest : Dlist → List (ℕ × A) → List (ℕ × Option A)
  rest l [] = (l.end_dummy, none) ∷ []
  rest l (x ∷ xs) = (x.0, some x.1) ∷ rest l xs

  abbrev pub front : Dlist → List (ℕ × A) → List (ℕ × Option A)
  front l xs = (l.begin_dummy, none) ∷ real xs

  abbrev pub full : Dlist → List (ℕ × A) → List (ℕ × Option A)
  full l xs = (l.begin_dummy, none) ∷ rest l xs

  -- The store holds the list, with these addresses and data between its dummies.
  pub record IsDlist (h : Store A) (l : Dlist) (xs : List (ℕ × A)) : Type ℓ where
    pub chain : Seg h 0 (full l xs) 0
    pub distinct : Distinct (full l xs)

  -- the data alone
  abbrev pub data_of : List (ℕ × A) → List A
  data_of [] = []
  data_of (x ∷ xs) = x.1 ∷ data_of xs

  -- the iterator in front of the given cells
  abbrev pub iter : Dlist → List (ℕ × A) → ℕ
  iter l [] = l.end_dummy
  iter l (x ∷ xs) = x.0

  pub rest-append : (l : Dlist) (ps qs : List (ℕ × A)) → rest l (ps ++ qs) ≡ real ps ++ rest l qs
  rest-append l [] qs = refl
  rest-append l (p ∷ ps) qs = ap (λ t. (p.0, some p.1) ∷ t) (rest-append l ps qs)

  pub full-append : (l : Dlist) (ps qs : List (ℕ × A)) → full l (ps ++ qs) ≡ front l ps ++ rest l qs
  full-append l ps qs = ap (λ t. (l.begin_dummy, none) ∷ t) (rest-append l ps qs)

  pub rest-first : (l : Dlist) (qs : List (ℕ × A)) → first_or 0 (rest l qs) ≡ iter l qs
  rest-first l [] = refl
  rest-first l (x ∷ xs) = refl

  -- what stands in front of an iterator: a last cell, and those before
  pub snoc :
      (c : ℕ × Option A) (cs : List (ℕ × Option A))
      → (pre : List (ℕ × Option A)) × (u : ℕ × Option A) × (c ∷ cs ≡ pre ++ (u ∷ []))
  snoc c [] = ([], c, refl)
  snoc c (d ∷ cs) = let (pre, u, e) = snoc d cs in (c ∷ pre, u, ap (λ t. c ∷ t) e)

  -- what stands at an iterator
  abbrev pub datum_at : List (ℕ × A) → Option A
  datum_at [] = none
  datum_at (x ∷ xs) = some x.1

  abbrev pub after : Dlist → List (ℕ × A) → List (ℕ × Option A)
  after l [] = []
  after l (x ∷ xs) = rest l xs

  pub rest-cons :
      (l : Dlist) (qs : List (ℕ × A)) → rest l qs ≡ (iter l qs, datum_at qs) ∷ after l qs
  rest-cons l [] = refl
  rest-cons l (x ∷ xs) = refl

  -- a view at an iterator: the two cells around it, which never are NULL
  pub cells_at :
      (h : Store A) (l : Dlist) (ps qs : List (ℕ × A))
      → IsDlist h l (ps ++ qs)
      → Seg h 0 (front l ps) (iter l qs)
        × Seg h (last_or 0 (front l ps)) (rest l qs) 0
        × Distinct (rest l qs)
        × Distinct (front l ps)
        × All (λ c. Outside c.0 (rest l qs)) (front l ps)
  cells_at h l ps qs v =
      let (before, behind) =
        Seg-of_append h 0 (front l ps) (rest l qs) 0
          (subst (λ cs. Seg h 0 cs 0) (full-append l ps qs) v.chain) in
      let (d, e, apart) =
        Distinct-of_append (front l ps) (rest l qs)
          (subst Distinct (full-append l ps qs) v.distinct) in
      (subst (λ r. Seg h 0 (front l ps) r) (rest-first l qs) before, behind, e, d, apart)

  pub iter-not_null :
      (h : Store A) (l : Dlist) (ps qs : List (ℕ × A)) → IsDlist h l (ps ++ qs) → iter l qs ≢ 0
  iter-not_null h l ps qs v =
      let (_, _, d, _, _) = cells_at h l ps qs v in (subst Distinct (rest-cons l qs) d).0

  pub last-not_null : (q : ℕ) (cs : List (ℕ × Option A)) → q ≢ 0 → Distinct cs → last_or q cs ≢ 0
  last-not_null q [] ne d = ne
  last-not_null q (c ∷ cs) ne d = last-not_null c.0 cs d.0 d.2

  -- `DlistNext` and `DlistGetData` at an element, `DlistBegin`, and a comparison with the end
  pub next-iter :
      (h : Store A) (l : Dlist) (ps qs : List (ℕ × A)) (x : ℕ × A)
      → IsDlist h l (ps ++ (x ∷ qs))
      → next h x.0 ≡ some (iter l qs)
  next-iter h l ps qs x v =
      let (_, behind, d, _, _) = cells_at h l ps (x ∷ qs) v in
      next_lem h x.0 (cell (some x.1) (first_or 0 (rest l qs)) (last_or 0 (front l ps))) d.0
        behind.0
      ∙ ap some (rest-first l qs)

  pub prev-iter :
      (h : Store A) (l : Dlist) (ps qs : List (ℕ × A))
      → IsDlist h l (ps ++ qs)
      → prev h (iter l qs) ≡ some (last_or 0 (front l ps))
  prev-iter h l ps qs v =
      let (_, behind, d, _, _) = cells_at h l ps qs v in
      let b = subst (λ cs. Seg h (last_or 0 (front l ps)) cs 0) (rest-cons l qs) behind in
      prev_lem h (iter l qs) (cell (datum_at qs) (first_or 0 (after l qs)) (last_or 0 (front l ps)))
        (iter-not_null h l ps qs v) b.0

  pub get_data-iter :
      (h : Store A) (l : Dlist) (ps qs : List (ℕ × A)) (x : ℕ × A)
      → IsDlist h l (ps ++ (x ∷ qs))
      → get_data h x.0 ≡ some x.1
  unfolding get_data assert_inner
  get_data-iter h l ps qs x v =
      let (_, behind, d, d_front, _) = cells_at h l ps (x ∷ qs) v in
      let behind_null : first_or 0 (rest l qs) ≢ 0 =
        (λ e. (subst Distinct (rest-cons l qs) d.2).0 (sym (rest-first l qs) ∙ e)) in
      let before_null : last_or 0 (front l ps) ≢ 0 =
        last-not_null l.begin_dummy (real ps) d_front.0 d_front.2 in
      rw
        (
          load-some h x.0 (cell (some x.1) (first_or 0 (rest l qs)) (last_or 0 (front l ps))) d.0
              behind.0,
          eq_test (first_or 0 (rest l qs)) 0 behind_null,
          eq_test (last_or 0 (front l ps)) 0 before_null,
        )
        refl

  pub begin-iter :
      (h : Store A) (l : Dlist) (xs : List (ℕ × A)) → IsDlist h l xs → begin h l ≡ some (iter l xs)
  unfolding begin
  begin-iter h l xs v =
      next_lem h l.begin_dummy (cell none (first_or 0 (rest l xs)) 0) (v.distinct).0 (v.chain).0
      ∙ ap some (rest-first l xs)

  -- No element stands where the list ends.
  pub iter-not_end :
      (h : Store A) (l : Dlist) (ps qs : List (ℕ × A)) (x : ℕ × A)
      → IsDlist h l (ps ++ (x ∷ qs))
      → x.0 ≢ l.end_dummy
  iter-not_end h l ps qs x v = let (_, _, d, _, _) = cells_at h l ps (x ∷ qs) v in to_end qs d.1
    where
      to_end : (qs : List (ℕ × A)) → Outside x.0 (rest l qs) → x.0 ≢ l.end_dummy
      to_end [] o = o.0
      to_end (q ∷ qs) o = to_end qs o.1
