-- ===== src/Hash/Removing.antt =====
-- hash.c: `HashRemove`.
use mathlib.Core.Path.{subst}
use daher_repo.Prelude.{ℕ, ◌<◌, ◌≡◌, refl, sym, Option, some, List, [], ◌∷◌, ◌++◌, All-imp, length}
use daher_repo.Dlist.{Store, Dlist, is_same_iter}
use daher_repo.Dlist.Segments.{eq_test, same_test, Outside}
use daher_repo.Dlist.View.{IsDlist, full, rest, iter, data_of, iter-not_null, iter-not_end}
use daher_repo.Dlist.Changing.{remove-IsDlist}
use daher_repo.Dlist.Walking.{from_first, passed, passed-from_first, end-not_null}
use daher_repo.Dlist.Matching.{without_match, misses, behind_first, without_match_lem}
use daher_repo.Hash.{HashTable, find_in, find_data, remove}
use daher_repo.Hash.Rows.{Apart, IsTable, with_row, change_row}
use daher_repo.Hash.Searching.{found_in}

module _ {ℓ} {A : Type ℓ} where
  shrunk :
      (l : Dlist) (ps qs : List (ℕ × A)) (x : ℕ × A) (ds : List (ℕ × Option A))
      → Apart (rest l (ps ++ (x ∷ qs))) ds
      → Apart (rest l (ps ++ qs)) ds
  shrunk l [] qs x ds a = a.1
  shrunk l (p ∷ ps) qs x ds a = (a.0, shrunk l ps qs x ds a.1)

module _ {ℓ} {A : Type ℓ} (table : HashTable A) (bucket : ℕ → Dlist) (fuel : ℕ) (d : A) where
  remove_at :
      (h : Store A) (rows : ℕ → List (ℕ × A)) (ps qs : List (ℕ × A))
      → table.hash_func d < table.capacity
      → IsTable table bucket h rows
      → rows (table.hash_func d) ≡ ps ++ qs
      → find_in fuel h table (bucket (table.hash_func d)) d
        ≡ some (iter (bucket (table.hash_func d)) qs)
      → (g : Store A) × (remove fuel h table d ≡ some g)
        × IsTable table bucket g
            (with_row table bucket rows (table.hash_func d) (ps ++ behind_first qs))
  unfolding remove find_data is_same_iter
  remove_at h rows ps [] p t e found =
      let i = table.hash_func d in
      let l = bucket i in
      let v : IsDlist h l (ps ++ []) = subst (IsDlist h l) e (t.holds i p) in
      (
        h,
        rw
            (
              t.there i p,
              found,
              eq_test l.end_dummy 0 (end-not_null h l (ps ++ []) v),
              same_test l.end_dummy,
            )
            refl,
        change_row table bucket h h rows i (ps ++ []) t v
            (λ j q other.
              All-imp (λ c apart. refl) (full (bucket j) (rows j)) (t.apart j i q p other))
            (λ j q other.
              subst (λ r. Apart (full l r) (full (bucket j) (rows j))) e
                (t.apart i j p q (λ z. other (sym z)))),
      )
  remove_at h rows ps (x ∷ qs) p t e found =
      let i = table.hash_func d in
      let l = bucket i in
      let v : IsDlist h l (ps ++ (x ∷ qs)) = subst (IsDlist h l) e (t.holds i p) in
      let (g, ran, w, _, far) = remove-IsDlist h l ps qs x v in
      (
        g,
        rw
            (
              t.there i p,
              found,
              eq_test l.end_dummy 0 (end-not_null h l (ps ++ (x ∷ qs)) v),
              eq_test x.0 0 (iter-not_null h l ps (x ∷ qs) v),
              eq_test x.0 l.end_dummy (iter-not_end h l ps qs x v),
              eq_test x.0 0 (iter-not_null h l ps (x ∷ qs) v),
              ran,
            )
            refl,
        change_row table bucket h g rows i (ps ++ qs) t w
            (λ j q other.
              All-imp (λ c apart. far c.0 (subst (λ r. Outside c.0 (full l r)) e apart))
                (full (bucket j) (rows j)) (t.apart j i q p other))
            (λ j q other.
              let a =
                subst (λ r. Apart (full l r) (full (bucket j) (rows j))) e
                  (t.apart i j p q (λ z. other (sym z))) in
              (a.0, shrunk l ps qs x (full (bucket j) (rows j)) a.1)),
      )

  -- Where the hash of the data is below the capacity and fuel is above the length of the bucket,
  -- HashRemove takes the first match out of the bucket, or changes no data where there is none, and
  -- keeps the other buckets.
  pub remove-IsTable :
      (h : Store A) (rows : ℕ → List (ℕ × A))
      → table.hash_func d < table.capacity
      → IsTable table bucket h rows
      → length (rows (table.hash_func d)) < fuel
      → (g : Store A) × (ys : List (ℕ × A)) × (remove fuel h table d ≡ some g)
        × IsTable table bucket g (with_row table bucket rows (table.hash_func d) ys)
        × (data_of ys ≡ without_match table.match_func d (data_of (rows (table.hash_func d))))
  remove-IsTable h rows p t f =
      let misses_d = misses table.match_func d in
      let row = rows (table.hash_func d) in
      let (g, ran, w) =
        remove_at h rows (passed misses_d row) (from_first misses_d row) p t
          (passed-from_first misses_d row) (found_in table bucket fuel d h rows p t f) in
      (
        g,
        passed misses_d row ++ behind_first (from_first misses_d row),
        ran,
        w,
        without_match_lem table.match_func d row,
      )
