-- ===== src/Hash/Inserting.antt =====
-- hash.c: `HashInsert`, and `HashFind` after it.
use mathlib.Core.Path.{subst}
use daher_repo.Prelude.{
  ℕ, suc, arith, ◌<◌, ◌≡◌, ◌≢◌, ◌∙◌, refl, sym, ap, false, Option, some, List, [], ◌∷◌, ◌++◌, All,
  All-imp, inl, inr, ◌⊎◌, length, is_zero,
}
use daher_repo.Dlist.{Store, Dlist, is_same_iter}
use daher_repo.Dlist
use daher_repo.Dlist.Segments.{eq_test, same_test, Outside}
use daher_repo.Dlist.View.{IsDlist, full, rest, iter, data_of, iter-not_null, iter-not_end}
use daher_repo.Dlist.Changing.{IsMalloc, Seg-Outside, insert-IsDlist}
use daher_repo.Dlist.Walking.{from_first, passed, passed-from_first, length-data_of, end-not_null}
use daher_repo.Dlist.Matching.{
  first_match, put_in, misses, with_first, put_in_lem, first_match-put_in, length-put_in,
}
use daher_repo.Dlist.Writing.{set_data-IsDlist}
use daher_repo.Hash.{HashTable, find_in, find, insert}
use daher_repo.Hash.Rows.{Apart, IsTable, with_row, row_same, change_row}
use daher_repo.Hash.Searching.{found_in, find-first_match}

module _ {ℓ} {A : Type ℓ} where
  All-both :
      {P Q : ℕ × Option A → Type 0} {R : ℕ × Option A → Type ℓ}
      → ((c : ℕ × Option A) → P c → Q c → R c)
      → (cs : List (ℕ × Option A)) → All P cs
      → All Q cs
      → All R cs
  All-both f [] p q = tt
  All-both f (c ∷ cs) p q = (f c p.0 q.0, All-both f cs p.1 q.1)

  -- an element comes between, changes its data, or goes
  grown :
      (l : Dlist) (ps qs : List (ℕ × A)) (m : ℕ) (d : A) (ds : List (ℕ × Option A))
      → Outside m ds
      → Apart (rest l (ps ++ qs)) ds
      → Apart (rest l (ps ++ ((m, d) ∷ qs))) ds
  grown l [] qs m d ds o a = (o, a)
  grown l (p ∷ ps) qs m d ds o a = (a.0, grown l ps qs m d ds o a.1)

  changed :
      (l : Dlist) (ps qs : List (ℕ × A)) (x : ℕ × A) (d : A) (ds : List (ℕ × Option A))
      → Apart (rest l (ps ++ (x ∷ qs))) ds
      → Apart (rest l (ps ++ ((x.0, d) ∷ qs))) ds
  changed l [] qs x d ds a = a
  changed l (p ∷ ps) qs x d ds a = (a.0, changed l ps qs x d ds a.1)

  element-Outside :
      (l : Dlist) (ps qs : List (ℕ × A)) (x : ℕ × A) (c : ℕ)
      → Outside c (full l (ps ++ (x ∷ qs)))
      → c ≢ x.0
  element-Outside l ps qs x c o = go ps o.1
    where
      go : (ps : List (ℕ × A)) → Outside c (rest l (ps ++ (x ∷ qs))) → c ≢ x.0
      go [] o = o.0
      go (p ∷ ps) o = go ps o.1

module _ {ℓ} {A : Type ℓ} (table : HashTable A) (bucket : ℕ → Dlist) (fuel : ℕ) (d : A) where
  insert_at :
      (malloc : Store A → ℕ)
      → IsMalloc malloc
      → (h : Store A) (rows : ℕ → List (ℕ × A)) (ps qs : List (ℕ × A))
      → table.hash_func d < table.capacity
      → IsTable table bucket h rows
      → rows (table.hash_func d) ≡ ps ++ qs
      → find_in fuel h table (bucket (table.hash_func d)) d
        ≡ some (iter (bucket (table.hash_func d)) qs)
      → ((malloc h ≡ 0) × (insert malloc fuel h table d ≡ some (h, 0)))
        ⊎ ((g : Store A) × (insert malloc fuel h table d ≡ some (g, 1))
            × IsTable table bucket g
                (with_row table bucket rows (table.hash_func d) (ps ++ with_first (malloc h) d qs)))
  unfolding insert is_same_iter Dlist.push_back
  insert_at malloc law h rows ps [] p t e found =
      let i = table.hash_func d in
      let l = bucket i in
      let v : IsDlist h l (ps ++ []) = subst (IsDlist h l) e (t.holds i p) in
      let end_null = end-not_null h l (ps ++ []) v in
      elim (insert-IsDlist malloc law h l ps [] d v) [
        | inl (no_memory, same) ↦ inl (
          no_memory,
          rw
              (
                t.there i p,
                found,
                eq_test l.end_dummy 0 end_null,
                same_test l.end_dummy,
                same,
                eq_test l.end_dummy 0 end_null,
                same_test l.end_dummy,
              )
              refl,
        )
        | inr (ne, (g, ran, w, far)) ↦
            let not_end = iter-not_end g l ps [] (malloc h, d) w in
            let free : (j : ℕ)
                → j < table.capacity
                → Outside (malloc h) (full (bucket j) (rows j)) =
              (λ j q.
                Seg-Outside h (malloc h) 0 (full (bucket j) (rows j)) 0 (law h ne)
                  (t.holds j q).chain) in
            inr (
              g,
              rw
                  (
                    t.there i p,
                    found,
                    eq_test l.end_dummy 0 end_null,
                    same_test l.end_dummy,
                    ran,
                    eq_test (malloc h) 0 ne,
                    eq_test l.end_dummy (malloc h) (λ z. not_end (sym z)),
                  )
                  refl,
              change_row table bucket h g rows i (ps ++ ((malloc h, d) ∷ [])) t w
                  (λ j q other.
                    All-both
                      (λ c apart new.
                        far c.0 (λ z. new (sym z)) (subst (λ r. Outside c.0 (full l r)) e apart))
                      (full (bucket j) (rows j)) (t.apart j i q p other) (free j q))
                  (λ j q other.
                    let a =
                      subst (λ r. Apart (full l r) (full (bucket j) (rows j))) e
                        (t.apart i j p q (λ z. other (sym z))) in
                    (a.0, grown l ps [] (malloc h) d (full (bucket j) (rows j)) (free j q) a.1)),
            )
      ]
  insert_at malloc law h rows ps (x ∷ qs) p t e found =
      let i = table.hash_func d in
      let l = bucket i in
      let v : IsDlist h l (ps ++ (x ∷ qs)) = subst (IsDlist h l) e (t.holds i p) in
      let (g, ran, w, far) = set_data-IsDlist h l ps qs x d v in
      inr (
        g,
        rw
            (
              t.there i p,
              found,
              eq_test l.end_dummy 0 (end-not_null h l (ps ++ (x ∷ qs)) v),
              eq_test x.0 0 (iter-not_null h l ps (x ∷ qs) v),
              eq_test l.end_dummy x.0 (λ z. iter-not_end h l ps qs x v (sym z)),
              ran,
            )
            refl,
        change_row table bucket h g rows i (ps ++ ((x.0, d) ∷ qs)) t w
            (λ j q other.
              All-imp
                (λ c apart.
                  far c.0
                    (element-Outside l ps qs x c.0 (subst (λ r. Outside c.0 (full l r)) e apart)))
                (full (bucket j) (rows j)) (t.apart j i q p other))
            (λ j q other.
              let a =
                subst (λ r. Apart (full l r) (full (bucket j) (rows j))) e
                  (t.apart i j p q (λ z. other (sym z))) in
              (a.0, changed l ps qs x d (full (bucket j) (rows j)) a.1)),
      )

  -- Where malloc returns NULL or an address not in use, the hash of the data is below the capacity,
  -- and fuel is above the length of the bucket: HashInsert returns 1, puts the data in the place of
  -- the first match in the bucket, or else at its end, and keeps the other buckets; only without
  -- memory does it return 0, and then nothing has changed. 1 for success and 0 for failure are the
  -- values of hash.c; hash.h names them the other way round.
  pub insert-IsTable :
      (malloc : Store A → ℕ)
      → IsMalloc malloc
      → (h : Store A) (rows : ℕ → List (ℕ × A)) → table.hash_func d < table.capacity
      → IsTable table bucket h rows
      → length (rows (table.hash_func d)) < fuel
      → ((malloc h ≡ 0) × (insert malloc fuel h table d ≡ some (h, 0)))
        ⊎ ((g : Store A) × (ys : List (ℕ × A)) × (insert malloc fuel h table d ≡ some (g, 1))
            × IsTable table bucket g (with_row table bucket rows (table.hash_func d) ys)
            × (data_of ys ≡ put_in table.match_func d d (data_of (rows (table.hash_func d)))))
  insert-IsTable malloc law h rows p t f =
      let misses_d = misses table.match_func d in
      let row = rows (table.hash_func d) in
      elim (insert_at malloc law h rows (passed misses_d row) (from_first misses_d row) p t
        (passed-from_first misses_d row) (found_in table bucket fuel d h rows p t f)) [
          | inl failed ↦ inl failed
          | inr (g, ran, w) ↦ inr (
            g,
            passed misses_d row ++ with_first (malloc h) d (from_first misses_d row),
            ran,
            w,
            put_in_lem table.match_func d (malloc h) d row,
          )
        ]

  -- Where malloc returns NULL or an address not in use, the hash of the data is below the capacity,
  -- fuel is above the length of the bucket and one, and the data match themselves: HashInsert
  -- returns 1, and HashFind then finds the data that it has put in; only without memory does
  -- HashInsert return 0, and then nothing has changed. 1 for success and 0 for failure are the
  -- values of hash.c; hash.h names them the other way round.
  pub find-insert :
      (malloc : Store A → ℕ)
      → IsMalloc malloc
      → (h : Store A) (rows : ℕ → List (ℕ × A)) → table.hash_func d < table.capacity
      → IsTable table bucket h rows
      → suc (length (rows (table.hash_func d))) < fuel
      → is_zero (table.match_func d d) ≡ false
      → ((malloc h ≡ 0) × (insert malloc fuel h table d ≡ some (h, 0)))
        ⊎ ((g : Store A) × (insert malloc fuel h table d ≡ some (g, 1))
            × (find fuel g table d ≡ some (some d)))
  find-insert malloc law h rows p t f m =
      elim (insert-IsTable malloc law h rows p t (omega arith)) [
        | inl failed ↦ inl failed
        | inr (g, ys, ran, w, placed) ↦
            let i = table.hash_func d in
            let same : with_row table bucket rows i ys i ≡ ys = row_same table bucket rows i ys in
            let row = rows (table.hash_func d) in
            let put = length-put_in table.match_func d d (data_of row) in
            let size = length-data_of row in
            let new_size : length ys ≡ length (put_in table.match_func d d (data_of row)) =
              sym (length-data_of ys) ∙ ap length placed in
            let fits : length (with_row table bucket rows i ys i) < fuel =
              subst (λ r. length r < fuel) (sym same) (omega arith) in
            inr (
              g,
              ran,
              find-first_match table bucket fuel d g (with_row table bucket rows i ys) p w fits
                  ∙ ap (λ r. some (first_match table.match_func d (data_of r))) same
                  ∙ ap (λ r. some (first_match table.match_func d r)) placed
                  ∙ ap some (
                      first_match-put_in table.match_func d d (data_of (rows (table.hash_func d)))
                        m),
            )
      ]
