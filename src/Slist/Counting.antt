-- ===== src/Slist/Counting.antt =====
-- slist.c: what `SlistCount` counts.
use daher_repo.Prelude.{
  ℕ, zero, suc, ◌≡◌, ◌≢◌, ◌∙◌, ap, some, List, [], ◌∷◌, length, ◌<◌, ◌+◌, pos, arith,
}
use daher_repo.Dlist.Segments.{eq_test}
use daher_repo.Slist.{
  datum, owner, Node, Memory, cell, load, begin, list_end, next, get_content, for_each,
  is_same_iter, count,
}
use daher_repo.Slist.Line.{
  first_node, Line, Distinct, IsSlist, first_node-not_null, Line-dummy, Distinct-end,
}

module _ {ℓ} {A : Type ℓ} where
  count_from :
      (fuel : ℕ) (h : Memory A) (q : ℕ) (xs : List (ℕ × A)) (e b n : ℕ) (c : Node A)
      → Line h xs e q
      → Distinct xs e
      → load h b ≡ some c
      → length xs < fuel
      → for_each fuel h b (first_node xs e) e (λ c n. (n + 1, pos 0)) n
        ≡ some (n + length xs, pos 0)
  unfolding for_each is_same_iter get_content next load
  count_from zero h q xs e b n c l d at f = elim f [ ]
  count_from (suc fuel) h q [] e b n c l d at f =
      rw (eq_test e 0 d, l) (ap (λ k. some (k, pos 0)) (omega arith))
  count_from (suc fuel) h q (x ∷ xs) e b n c l d at f =
      let next_null : first_node xs e ≢ 0 = first_node-not_null xs e d.1.1.1 in
      rw
        (
          eq_test x.0 0 d.0,
          l.0,
          eq_test e 0 (Distinct-end xs e d.1.1.1),
          Line-dummy h xs e q l.1,
          eq_test (first_node xs e) 0 next_null,
          at,
        )
        (count_from fuel h q xs e b (n + 1) c l.1 d.1.1.1 at (omega arith)
          ∙ ap (λ k. some (k, pos 0)) (omega arith))

  load-first_node :
      (h : Memory A) (q : ℕ) (xs : List (ℕ × A)) (e : ℕ)
      → Line h xs e q
      → Distinct xs e
      → (c : Node A) × (load h (first_node xs e) ≡ some c)
  unfolding load
  load-first_node h q [] e l d = (cell (owner q) 0, rw (eq_test e 0 d) l)
  load-first_node h q (x ∷ xs) e l d =
      (cell (datum x.1) (first_node xs e), rw (eq_test x.0 0 d.0) l.0)

  -- With fuel above the number of elements, `SlistCount` counts them.
  pub count-IsSlist :
      (fuel : ℕ) (h : Memory A) (q : ℕ) (xs : List (ℕ × A)) (e : ℕ)
      → IsSlist h q xs e
      → length xs < fuel
      → count fuel h q ≡ some (length xs)
  unfolding count begin list_end
  count-IsSlist fuel h q xs e v f =
      let (c, at) = load-first_node h q xs e v.line v.distinct in
      rw (v.listed, count_from fuel h q xs e (first_node xs e) 0 c v.line v.distinct at f)
        (ap some (omega arith))
