-- ===== src/Dlist/Writing.antt =====
-- dlist.c: `DlistSetData` on the sequence of a list.
use mathlib.Core.Path.{subst}
use daher_repo.Prelude.{ℕ, ◌≡◌, ◌≢◌, ◌∙◌, sym, some, List, ◌∷◌, ◌++◌, All-imp}
use daher_repo.Dlist.{Store, Dlist, cell, put, set_data}
use daher_repo.Dlist.Segments.{
  put-same, put-other, first_or, last_or, Seg, Outside, Distinct, Seg-append, Seg-put,
  Distinct-append,
}
use daher_repo.Dlist.Linking.{set_data_lem}
use daher_repo.Dlist.View.{
  IsDlist, real, rest, front, full-append, rest-cons, rest-first, cells_at, last-not_null,
}

module _ {ℓ} {A : Type ℓ} where
  -- `DlistSetData` at an element changes its data and no other address.
  pub set_data-IsDlist :
      (h : Store A) (l : Dlist) (ps qs : List (ℕ × A)) (x : ℕ × A) (d : A)
      → IsDlist h l (ps ++ (x ∷ qs))
      → (g : Store A) × (set_data h x.0 d ≡ some g)
        × IsDlist g l (ps ++ ((x.0, d) ∷ qs))
        × ((a : ℕ) → a ≢ x.0 → g a ≡ h a)
  set_data-IsDlist h l ps qs x d v =
      let (before, behind, e, e_front, apart) = cells_at h l ps (x ∷ qs) v in
      let next_node = first_or 0 (rest l qs) in
      let prev_node = last_or 0 (front l ps) in
      let behind_null : next_node ≢ 0 =
        (λ z. (subst Distinct (rest-cons l qs) e.2).0 (sym (rest-first l qs) ∙ z)) in
      let before_null : prev_node ≢ 0 = last-not_null l.begin_dummy (real ps) e_front.0 e_front.2 in
      let n = some (cell (some d) next_node prev_node) in
      let g = put h x.0 n in
      let out : Outside x.0 (front l ps) = All-imp (λ c o z. o.0 (sym z)) (front l ps) apart in
      (
        g,
        set_data_lem h x.0 d (cell (some x.1) next_node prev_node) e.0 behind.0 behind_null
            before_null,
        record {
          chain =
              subst (λ cs. Seg g 0 cs 0) (sym (full-append l ps ((x.0, d) ∷ qs)))
                (Seg-append g 0 (front l ps) (rest l ((x.0, d) ∷ qs)) 0
                  (Seg-put h x.0 n 0 (front l ps) x.0 out before)
                  (put-same h x.0 n, Seg-put h x.0 n x.0 (rest l qs) 0 e.1 behind.1));
          distinct =
              subst Distinct (sym (full-append l ps ((x.0, d) ∷ qs)))
                (Distinct-append (front l ps) (rest l ((x.0, d) ∷ qs)) e_front e apart);
        },
        (λ a ne. put-other h x.0 a n ne),
      )
