-- ===== src/Dlist/Linking.antt =====
-- dlist.c: how an insertion and a removal change the segments of a store.
use daher_repo.Prelude.{
  ℕ, ◌≡◌, ◌≢◌, ◌∙◌, refl, sym, Option, none, some, List, [], ◌∷◌, ◌++◌, All, All-of_append, All-imp,
}
use daher_repo.Dlist.{
  Node, Store, Dlist, cell, put, set_next, set_prev, set_data, assert_inner, next, prev, make_node,
  link_node, remove,
}
use daher_repo.Dlist.Segments.{
  eq_test, put-same, put-other, load-some, first_or, last_or, Seg, Outside, Distinct, Seg-append,
  Seg-of_append, Seg-frame, Distinct-of_append,
}

module _ {ℓ} {A : Type ℓ} where
  pub set_next_lem :
      (h : Store A) (p q : ℕ) (n : Node A)
      → p ≢ 0
      → h p ≡ some n
      → set_next h p q ≡ some (put h p (some (cell n.datum q n.prev_node)))
  unfolding set_next
  set_next_lem h p q n ne e = rw (load-some h p n ne e) refl

  pub set_prev_lem :
      (h : Store A) (p q : ℕ) (n : Node A)
      → p ≢ 0
      → h p ≡ some n
      → set_prev h p q ≡ some (put h p (some (cell n.datum n.next_node q)))
  unfolding set_prev
  set_prev_lem h p q n ne e = rw (load-some h p n ne e) refl

  pub set_data_lem :
      (h : Store A) (p : ℕ) (x : A) (n : Node A)
      → p ≢ 0
      → h p ≡ some n
      → n.next_node ≢ 0
      → n.prev_node ≢ 0
      → set_data h p x ≡ some (put h p (some (cell (some x) n.next_node n.prev_node)))
  unfolding set_data assert_inner
  set_data_lem h p x n ne e a b =
      rw (load-some h p n ne e, eq_test n.next_node 0 a, eq_test n.prev_node 0 b) refl

  pub next_lem :
      (h : Store A) (p : ℕ) (n : Node A) → p ≢ 0 → h p ≡ some n → next h p ≡ some n.next_node
  unfolding next
  next_lem h p n ne e = rw (load-some h p n ne e) refl

  pub prev_lem :
      (h : Store A) (p : ℕ) (n : Node A) → p ≢ 0 → h p ≡ some n → prev h p ≡ some n.prev_node
  unfolding prev
  prev_lem h p n ne e = rw (load-some h p n ne e) refl

  make_node_lem :
      (h : Store A) (n w : ℕ) (x : A) (m : Node A)
      → n ≢ 0
      → w ≢ 0
      → w ≢ n
      → h w ≡ some m
      → m.prev_node ≢ 0
      → (g : Store A) × (make_node h n w x ≡ some g)
        × (g n ≡ some (cell (some x) w m.prev_node))
        × ((a : ℕ) → a ≢ n → g a ≡ h a)
  unfolding make_node
  make_node_lem h n w x m nn nw ne at_w inner =
      let h0 = put h n (some (cell none 0 0)) in
      let h1 = put h0 n (some (cell none w 0)) in
      let h2 = put h1 n (some (cell none w m.prev_node)) in
      let h3 = put h2 n (some (cell (some x) w m.prev_node)) in
      let far : (a : ℕ) → a ≢ n → h1 a ≡ h a =
        (λ a d. put-other h0 n a _ d ∙ put-other h n a _ d) in
      (
        h3,
        rw
            (
              set_next_lem h0 n w (cell none 0 0) nn (put-same h n _),
              prev_lem h1 w m nw (far w ne ∙ at_w),
              set_prev_lem h1 n m.prev_node (cell none w 0) nn (put-same h0 n _),
            )
            (set_data_lem h2 n x (cell none w m.prev_node) nn (put-same h1 n _) nw inner),
        put-same h2 n _,
        (λ a d. put-other h2 n a _ d ∙ put-other h1 n a _ d ∙ far a d),
      )

  -- two of the conditions for an address to be left alone
  away :
      (u w : ℕ) (cs : List (ℕ × Option A))
      → Outside u cs
      → Outside w cs
      → All (λ c. (c.0 ≢ u) × (c.0 ≢ w)) cs
  away u w [] p q = tt
  away u w (c ∷ cs) p q = (((λ e. p.0 (sym e)), (λ e. q.0 (sym e))), away u w cs p.1 q.1)

  away_front :
      (u w : ℕ × Option A) (post pre : List (ℕ × Option A))
      → All (λ c. Outside c.0 (u ∷ w ∷ post)) pre
      → All (λ c. (c.0 ≢ u.0) × (c.0 ≢ w.0)) pre
  away_front u w post pre d = All-imp (λ c o. (o.0, o.1.0)) pre d

  -- In front of the cell `w`, behind the cell `u`.
  pub insert-Seg :
      (h : Store A) (pre : List (ℕ × Option A)) (u w : ℕ × Option A) (post : List (ℕ × Option A))
      (n : ℕ) (x : A)
      → Seg h 0 (pre ++ (u ∷ w ∷ post)) 0
      → Distinct (pre ++ (u ∷ w ∷ post))
      → n ≢ 0
      → Outside n (pre ++ (u ∷ w ∷ post))
      → (g1 : Store A) × (g : Store A) × (make_node h n w.0 x ≡ some g1)
        × (link_node g1 n w.0 ≡ some g)
        × Seg g 0 (pre ++ (u ∷ (n, some x) ∷ w ∷ post)) 0
        × ((a : ℕ) → a ≢ n → a ≢ u.0 → a ≢ w.0 → g a ≡ h a)
  unfolding link_node
  insert-Seg h pre u w post n x s d nn out =
      let (front, back) = Seg-of_append h 0 pre (u ∷ w ∷ post) 0 s in
      let (d_pre, d_back, apart) = Distinct-of_append pre (u ∷ w ∷ post) d in
      let (out_pre, out_back) = All-of_append (λ c. n ≢ c.0) pre (u ∷ w ∷ post) out in
      let n_u : u.0 ≢ n = (λ e. out_back.0 (sym e)) in
      let n_w : w.0 ≢ n = (λ e. out_back.1.0 (sym e)) in
      let w_u : w.0 ≢ u.0 = (λ e. d_back.1.0 (sym e)) in
      let (g1, made, at_n, far) =
        make_node_lem h n w.0 x (cell w.1 (first_or 0 post) u.0) nn (d_back.2.0) n_w back.1.0
          (d_back.0) in
      let g2 = put g1 u.0 (some (cell u.1 n (last_or 0 pre))) in
      let g3 = put g2 w.0 (some (cell w.1 (first_or 0 post) n)) in
      let w_in_g2 : g2 w.0 ≡ some (cell w.1 (first_or 0 post) u.0) =
        put-other g1 u.0 w.0 _ w_u ∙ far w.0 n_w ∙ back.1.0 in
      let same : (a : ℕ) → a ≢ n → a ≢ u.0 → a ≢ w.0 → g3 a ≡ h a =
        (λ a p q r. put-other g2 w.0 a _ r ∙ put-other g1 u.0 a _ q ∙ far a p) in
      (
        g1,
        g3,
        made,
        rw
            (
              prev_lem g1 w.0 (cell w.1 (first_or 0 post) u.0) (d_back.2.0)
                  (far w.0 n_w ∙ back.1.0),
              set_next_lem g1 u.0 n (cell u.1 w.0 (last_or 0 pre)) (d_back.0)
                  (far u.0 n_u ∙ back.0),
            )
            (set_prev_lem g2 w.0 n (cell w.1 (first_or 0 post) u.0) (d_back.2.0) w_in_g2),
        Seg-append g3 0 pre (u ∷ (n, some x) ∷ w ∷ post) 0
            (Seg-frame h g3 0 pre u.0 (both pre out_pre (away_front u w post pre apart) same) front)
            (
              put-other g2 w.0 u.0 _ (λ e. w_u (sym e)) ∙ put-same g1 u.0 _,
              (
                put-other g2 w.0 n _ (λ e. n_w (sym e))
                    ∙ put-other g1 u.0 n _ (λ e. n_u (sym e))
                    ∙ at_n,
                (
                  put-same g2 w.0 _,
                  Seg-frame h g3 w.0 post 0
                      (both post out_back.1.1 (away u.0 w.0 post d_back.1.1 (d_back.2.1)) same)
                      back.1.1,
                ),
              ),
            ),
        same,
      )
    where
      both :
          {g : Store A}
          → (cs : List (ℕ × Option A)) → Outside n cs
          → All (λ c. (c.0 ≢ u.0) × (c.0 ≢ w.0)) cs
          → ((a : ℕ) → a ≢ n → a ≢ u.0 → a ≢ w.0 → g a ≡ h a)
          → All (λ c. g c.0 ≡ h c.0) cs
      both [] o p same = tt
      both (c ∷ cs) o p same = (same c.0 (λ e. o.0 (sym e)) p.0.0 p.0.1, both cs o.1 p.1 same)

  -- The cell `v`, between the cells `u` and `w`, is taken out and given back.
  pub remove-Seg :
      (h : Store A) (list : Dlist) (pre : List (ℕ × Option A)) (u v w : ℕ × Option A)
      (post : List (ℕ × Option A))
      → Seg h 0 (pre ++ (u ∷ v ∷ w ∷ post)) 0
      → Distinct (pre ++ (u ∷ v ∷ w ∷ post))
      → list.end_dummy ≢ v.0
      → (g : Store A) × (remove h list v.0 ≡ some (g, w.0))
        × Seg g 0 (pre ++ (u ∷ w ∷ post)) 0
        × (g v.0 ≡ none)
        × ((a : ℕ) → a ≢ u.0 → a ≢ v.0 → a ≢ w.0 → g a ≡ h a)
  unfolding remove
  remove-Seg h list pre u v w post s d inner =
      let (front, back) = Seg-of_append h 0 pre (u ∷ v ∷ w ∷ post) 0 s in
      let (d_pre, d_back, apart) = Distinct-of_append pre (u ∷ v ∷ w ∷ post) d in
      let v_u : v.0 ≢ u.0 = (λ e. d_back.1.0 (sym e)) in
      let w_u : w.0 ≢ u.0 = (λ e. d_back.1.1.0 (sym e)) in
      let w_v : w.0 ≢ v.0 = (λ e. d_back.2.1.0 (sym e)) in
      let g1 = put h w.0 (some (cell w.1 (first_or 0 post) u.0)) in
      let g2 = put g1 u.0 (some (cell u.1 w.0 (last_or 0 pre))) in
      let g3 = put g2 v.0 none in
      let v_in_g1 : g1 v.0 ≡ some (cell v.1 w.0 u.0) =
        put-other h w.0 v.0 _ (λ e. w_v (sym e)) ∙ back.1.0 in
      let u_in_g1 : g1 u.0 ≡ some (cell u.1 v.0 (last_or 0 pre)) =
        put-other h w.0 u.0 _ (λ e. w_u (sym e)) ∙ back.0 in
      let same : (a : ℕ) → a ≢ u.0 → a ≢ v.0 → a ≢ w.0 → g3 a ≡ h a =
        (λ a p q r. put-other g2 v.0 a _ q ∙ put-other g1 u.0 a _ p ∙ put-other h w.0 a _ r) in
      (
        g3,
        rw
            (
              eq_test v.0 0 (d_back.2.0),
              eq_test list.end_dummy v.0 inner,
              load-some h v.0 (cell v.1 w.0 u.0) (d_back.2.0) back.1.0,
              set_prev_lem h w.0 u.0 (cell w.1 (first_or 0 post) v.0) (d_back.2.2.0) back.1.1.0,
              load-some g1 v.0 (cell v.1 w.0 u.0) (d_back.2.0) v_in_g1,
              set_next_lem g1 u.0 w.0 (cell u.1 v.0 (last_or 0 pre)) (d_back.0) u_in_g1,
            )
            refl,
        Seg-append g3 0 pre (u ∷ w ∷ post) 0
            (Seg-frame h g3 0 pre u.0 (untouched_front pre apart same) front)
            (
              put-other g2 v.0 u.0 _ (λ e. v_u (sym e)) ∙ put-same g1 u.0 _,
              (
                put-other g2 v.0 w.0 _ w_v ∙ put-other g1 u.0 w.0 _ w_u ∙ put-same h w.0 _,
                Seg-frame h g3 w.0 post 0
                    (untouched post d_back.1.1.1 d_back.2.1.1 (d_back.2.2.1) same) back.1.1.1,
              ),
            ),
        put-same g2 v.0 none,
        same,
      )
    where
      untouched_front :
          {g : Store A}
          → (cs : List (ℕ × Option A)) → All (λ c. Outside c.0 (u ∷ v ∷ w ∷ post)) cs
          → ((a : ℕ) → a ≢ u.0 → a ≢ v.0 → a ≢ w.0 → g a ≡ h a)
          → All (λ c. g c.0 ≡ h c.0) cs
      untouched_front cs o same = All-imp (λ c p. same c.0 p.0 p.1.0 p.1.1.0) cs o

      untouched :
          {g : Store A}
          → (cs : List (ℕ × Option A)) → Outside u.0 cs
          → Outside v.0 cs
          → Outside w.0 cs
          → ((a : ℕ) → a ≢ u.0 → a ≢ v.0 → a ≢ w.0 → g a ≡ h a)
          → All (λ c. g c.0 ≡ h c.0) cs
      untouched [] p q r same = tt
      untouched (c ∷ cs) p q r same = (
        same c.0 (λ e. p.0 (sym e)) (λ e. q.0 (sym e)) (λ e. r.0 (sym e)),
        untouched cs p.1 q.1 r.1 same,
      )
