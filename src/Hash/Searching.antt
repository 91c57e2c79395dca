-- ===== src/Hash/Searching.antt =====
-- hash.c: `HashFind`, in the bucket that the hash function gives.
use mathlib.Core.Path.{subst}
use daher_repo.Prelude.{
  ℕ, ◌<◌, ◌≡◌, ◌∙◌, refl, sym, ap, some, List, [], ◌∷◌, ◌++◌, get_elem?, length,
}
use daher_repo.Dlist.{Store, Dlist, is_same_iter}
use daher_repo.Dlist
use daher_repo.Dlist.Segments.{eq_test, same_test}
use daher_repo.Dlist.View.{
  IsDlist, iter, data_of, datum_at, begin-iter, get_data-iter, iter-not_null, iter-not_end,
}
use daher_repo.Dlist.Walking.{from_first, passed, passed-from_first, scan-iter, end-not_null}
use daher_repo.Dlist.Matching.{first_match, misses, first_match_lem}
use daher_repo.Hash.{HashTable, find_in, find_data, find}
use daher_repo.Hash.Rows.{IsTable}

module _ {ℓ} {A : Type ℓ} (table : HashTable A) (bucket : ℕ → Dlist) (fuel : ℕ) (d : A) where
  pub found_in :
      (h : Store A) (rows : ℕ → List (ℕ × A))
      → table.hash_func d < table.capacity
      → IsTable table bucket h rows
      → length (rows (table.hash_func d)) < fuel
      → find_in fuel h table (bucket (table.hash_func d)) d
        ≡ some (
            iter
              (bucket (table.hash_func d))
              (from_first (misses table.match_func d) (rows (table.hash_func d))))
  unfolding find_in Dlist.find
  found_in h rows p t f =
      let v = t.holds (table.hash_func d) p in
      rw (begin-iter h (bucket (table.hash_func d)) (rows (table.hash_func d)) v) (
        scan-iter (misses table.match_func d) fuel h (bucket (table.hash_func d)) []
          (rows (table.hash_func d)) v f)

  find_at :
      (h : Store A) (l : Dlist) (ps qs : List (ℕ × A))
      → get_elem? table.hash_arr (table.hash_func d) ≡ some l
      → IsDlist h l (ps ++ qs)
      → find_in fuel h table l d ≡ some (iter l qs)
      → find fuel h table d ≡ some (datum_at qs)
  unfolding find find_data is_same_iter
  find_at h l ps [] at v found =
      rw (at, found, eq_test l.end_dummy 0 (iter-not_null h l ps [] v), same_test l.end_dummy) refl
  find_at h l ps (x ∷ qs) at v found =
      rw
        (
          at,
          found,
          eq_test x.0 0 (iter-not_null h l ps (x ∷ qs) v),
          eq_test l.end_dummy 0 (end-not_null h l (ps ++ (x ∷ qs)) v),
          eq_test x.0 l.end_dummy (iter-not_end h l ps qs x v),
          eq_test x.0 0 (iter-not_null h l ps (x ∷ qs) v),
          get_data-iter h l ps qs x v,
        )
        refl

  -- With a hash function in range and fuel above the length of the bucket, `HashFind` returns the first
  -- data of the key's bucket that match.
  pub find-first_match :
      (h : Store A) (rows : ℕ → List (ℕ × A))
      → table.hash_func d < table.capacity
      → IsTable table bucket h rows
      → length (rows (table.hash_func d)) < fuel
      → find fuel h table d
        ≡ some (first_match table.match_func d (data_of (rows (table.hash_func d))))
  find-first_match h rows p t f =
      let split = passed-from_first (misses table.match_func d) (rows (table.hash_func d)) in
      let l = bucket (table.hash_func d) in
      find_at h l (passed (misses table.match_func d) (rows (table.hash_func d)))
        (from_first (misses table.match_func d) (rows (table.hash_func d)))
        (t.there (table.hash_func d) p) (subst (IsDlist h l) split (t.holds (table.hash_func d) p))
        (found_in h rows p t f)
      ∙ ap some (sym (first_match_lem table.match_func d (rows (table.hash_func d))))
