-- ===== src/Slist/Line.antt =====
-- queue.c: the sequence that a queue holds.
use daher_repo.Prelude.{
  ℕ, ◌≡◌, ◌≢◌, ◌∙◌, refl, sym, ap, false, Option, none, some, List, [], ◌∷◌, ◌++◌, map, All,
  All-append,
}
use daher_repo.Dlist.Segments.{eq_test, same_test}
use daher_repo.Slist.{
  datum, owner, Node, Memory, cell, load, put, put_list, owner_of, data_of, begin, list_end,
  get_content, insert, remove,
}
use daher_repo.Slist.Queue.{enqueue, dequeue, peek}

module _ {ℓ} {A : Type ℓ} where
  abbrev pub first_node : List (ℕ × A) → ℕ → ℕ
  first_node [] e = e
  first_node (x ∷ xs) e = x.0

  -- nodes from the first to the dummy of the list
  abbrev pub Line : Memory A → List (ℕ × A) → ℕ → ℕ → Type ℓ
  Line h [] e q = h.nodes e ≡ some (cell (owner q) 0)
  Line h (x ∷ xs) e q = (h.nodes x.0 ≡ some (cell (datum x.1) (first_node xs e))) × Line h xs e q

  abbrev pub Off : ℕ → List (ℕ × A) → Type 0
  Off a xs = All (λ x. a ≢ x.0) xs

  abbrev pub Distinct : List (ℕ × A) → ℕ → Type 0
  Distinct [] e = e ≢ 0
  Distinct (x ∷ xs) e = (x.0 ≢ 0) × ((x.0 ≢ e) × (Off x.0 xs × Distinct xs e))

  -- The memory holds a list at this address, with these nodes and this dummy.
  pub record IsSlist (h : Memory A) (q : ℕ) (xs : List (ℕ × A)) (e : ℕ) : Type ℓ where
    pub listed : h.lists q ≡ some (record { head = first_node xs e; tail = e })
    pub line : Line h xs e q
    pub distinct : Distinct xs e

  put-same : (h : Memory A) (p : ℕ) (c : Option (Node A)) → (put h p c).nodes p ≡ c
  unfolding put
  put-same h p c = rw (same_test p) refl

  put-other :
      (h : Memory A) (p a : ℕ) (c : Option (Node A)) → a ≢ p → (put h p c).nodes a ≡ h.nodes a
  unfolding put
  put-other h p a c ne = rw (eq_test a p ne) refl

  pub Line-dummy :
      (h : Memory A) (xs : List (ℕ × A)) (e q : ℕ)
      → Line h xs e q
      → h.nodes e ≡ some (cell (owner q) 0)
  Line-dummy h [] e q l = l
  Line-dummy h (x ∷ xs) e q l = Line-dummy h xs e q l.1

  pub Distinct-end : (xs : List (ℕ × A)) (e : ℕ) → Distinct xs e → e ≢ 0
  Distinct-end [] e d = d
  Distinct-end (x ∷ xs) e d = Distinct-end xs e d.1.1.1

  pub first_node-not_null : (ys : List (ℕ × A)) (e : ℕ) → Distinct ys e → first_node ys e ≢ 0
  first_node-not_null [] e d = d
  first_node-not_null (y ∷ ys) e d = d.0

  -- nodes of a list survive what changes other nodes
  Line-frame :
      (h g : Memory A) (a b : ℕ) (xs : List (ℕ × A)) (e q : ℕ)
      → ((c : ℕ) → c ≢ a → c ≢ b → g.nodes c ≡ h.nodes c)
      → Off a xs
      → Off b xs
      → a ≢ e
      → b ≢ e
      → Line h xs e q
      → Line g xs e q
  Line-frame h g a b [] e q far oa ob ea eb l = far e (λ z. ea (sym z)) (λ z. eb (sym z)) ∙ l
  Line-frame h g a b (x ∷ xs) e q far oa ob ea eb l = (
    far x.0 (λ z. oa.0 (sym z)) (λ z. ob.0 (sym z)) ∙ l.0,
    Line-frame h g a b xs e q far oa.1 ob.1 ea eb l.1,
  )

  first_node-append :
      (xs : List (ℕ × A)) (e m : ℕ) (d : A) → first_node xs e ≡ first_node (xs ++ ((e, d) ∷ [])) m
  first_node-append [] e m d = refl
  first_node-append (y ∷ ys) e m d = refl

  -- a node that becomes the dummy behind the former one
  Line-append :
      (h g : Memory A) (xs : List (ℕ × A)) (e m q : ℕ) (d : A)
      → Line h xs e q
      → Distinct xs e
      → m ≢ 0
      → h.nodes m ≡ none
      → ((a : ℕ) → a ≢ m → a ≢ e → g.nodes a ≡ h.nodes a)
      → g.nodes e ≡ some (cell (datum d) m)
      → g.nodes m ≡ some (cell (owner q) 0)
      → Line g (xs ++ ((e, d) ∷ [])) m q × Distinct (xs ++ ((e, d) ∷ [])) m
  Line-append h g [] e m q d l dist nn free far at_e at_m = (
    (at_e, at_m),
    (
      dist,
      (
        (λ same.
            let bad : none ≡ some (cell (owner q) 0) = sym free ∙ ap h.nodes (sym same) ∙ l in cc),
        (tt, nn),
      ),
    ),
  )
  Line-append h g (x ∷ xs) e m q d l dist nn free far at_e at_m =
      let (line, rest) = Line-append h g xs e m q d l.1 dist.1.1.1 nn free far at_e at_m in
      let new : x.0 ≢ m = (λ same.
        let bad : none ≡ some (cell (datum x.1) (first_node xs e)) =
          sym free ∙ ap h.nodes (sym same) ∙ l.0 in
        cc) in
      (
        (
          far x.0 new dist.1.0
              ∙ l.0
              ∙ ap (λ n. some (cell (datum x.1) n)) (first_node-append xs e m d),
          line,
        ),
        (
          dist.0,
          (new, (All-append (λ y. x.0 ≢ y.0) xs ((e, d) ∷ []) dist.1.1.0 (dist.1.0, tt), rest)),
        ),
      )

  -- Where malloc returns an address other than NULL that holds no node, QEnqueue puts the data
  -- behind those of the queue and returns 0; the node at the address is the new dummy.
  pub enqueue-IsSlist :
      (fuel : ℕ) (h : Memory A) (q : ℕ) (xs : List (ℕ × A)) (e m : ℕ) (x : A)
      → IsSlist h q xs e
      → m ≢ 0
      → h.nodes m ≡ none
      → (g : Memory A) × (enqueue fuel h m q x ≡ some (g, false))
        × IsSlist g q (xs ++ ((e, x) ∷ [])) m
  unfolding enqueue insert list_end load owner_of put_list
  enqueue-IsSlist fuel h q xs e m x v nn free =
      let dummy = Line-dummy h xs e q v.line in
      let e_null = Distinct-end xs e v.distinct in
      let e_new : e ≢ m = (λ same.
        let bad : none ≡ some (cell (owner q) 0) = sym free ∙ ap h.nodes (sym same) ∙ dummy in
        cc) in
      let linked = put h m (some (cell (owner q) 0)) in
      let g = put linked e (some (cell (datum x) m)) in
      let lists_same : g.lists q ≡ some (record { head = first_node xs e; tail = e }) =
        unfold put in v.listed in
      let after = put_list g q (record { head = first_node xs e; tail = m }) in
      let (line, distinct) =
        Line-append h after xs e m q x v.line v.distinct nn free
          (λ a ne1 ne2.
            put-other linked e a (some (cell (datum x) m)) ne2
            ∙ put-other h m a (some (cell (owner q) 0)) ne1)
          (put-same linked e (some (cell (datum x) m)))
          (put-other linked e m (some (cell (datum x) m)) (λ z. e_new (sym z))
            ∙ put-same h m (some (cell (owner q) 0))) in
      (
        after,
        rw
            (
              v.listed,
              eq_test e 0 e_null,
              dummy,
              eq_test m 0 nn,
              lists_same,
              same_test q,
              eq_test e m e_new,
            )
            refl,
        record {
          listed =
              rw (same_test q)
                (ap (λ n. some (record { head = n; tail = m })) (first_node-append xs e m x));
          line = line;
          distinct = distinct;
        },
      )

  -- On a queue that is not empty, QPeek returns the first data, and QDequeue takes them out and
  -- leaves the data behind them in their order.
  pub dequeue-IsSlist :
      (h : Memory A) (q : ℕ) (xs : List (ℕ × A)) (a e : ℕ) (x : A)
      → IsSlist h q ((a, x) ∷ xs) e
      → (g : Memory A) × (ys : List (ℕ × A)) × (end_node : ℕ) × (peek h q ≡ some x)
        × (dequeue h q ≡ some g)
        × IsSlist g q ys end_node
        × (map (λ y. y.1) ys ≡ map (λ y. y.1) xs)
  unfolding dequeue peek remove begin load get_content data_of owner_of put_list
  dequeue-IsSlist h q [] a e x v =
      let d = v.distinct in
      let e_null = Distinct-end [] e d.1.1.1 in
      let dummy = (v.line).1 in
      let half = put h a (some (cell (owner q) 0)) in
      let g = put half e none in
      let lists_same : g.lists q ≡ some (record { head = a; tail = e }) = unfold put in v.listed in
      let after = put_list g q (record { head = a; tail = a }) in
      (
        after,
        [],
        a,
        rw (v.listed, eq_test a 0 d.0, (v.line).0) refl,
        rw (v.listed, eq_test a 0 d.0, (v.line).0, eq_test e 0 e_null, dummy, lists_same) refl,
        record {
          listed = rw (same_test q) refl;
          line = put-other half e a none d.1.0 ∙ put-same h a (some (cell (owner q) 0));
          distinct = d.0;
        },
        refl,
      )
  dequeue-IsSlist h q ((b, y) ∷ ys) a e x v =
      let d = v.distinct in
      let b_null = d.1.1.1.0 in
      let a_b : a ≢ b = d.1.1.0.0 in
      let next_null : first_node ys e ≢ 0 = first_node-not_null ys e d.1.1.1.1.1.1 in
      let n = some (cell (datum y) (first_node ys e)) in
      let half = put h a n in
      let g = put half b none in
      (
        g,
        (a, y) ∷ ys,
        e,
        rw (v.listed, eq_test a 0 d.0, (v.line).0) refl,
        rw
            (
              v.listed,
              eq_test a 0 d.0,
              (v.line).0,
              eq_test b 0 b_null,
              (v.line).1.0,
              eq_test (first_node ys e) 0 next_null,
            )
            refl,
        record {
          listed = unfold put in v.listed;
          line = (
            put-other half b a none a_b ∙ put-same h a n,
            Line-frame h g a b ys e q (λ c ca cb. put-other half b c none cb ∙ put-other h a c n ca)
                d.1.1.0.1 d.1.1.1.1.1.0 d.1.0 d.1.1.1.1.0 (v.line).1.1,
          );
          distinct = (d.0, (d.1.0, (d.1.1.0.1, d.1.1.1.1.1.1)));
        },
        refl,
      )
