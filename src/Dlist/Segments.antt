-- ===== src/Dlist/Segments.antt =====
-- dlist.c: what a store holds of a list, as segments of linked nodes.
use daher_repo.Prelude.{
  ℕ, ◌≡◌, ◌≢◌, ◌∙◌, refl, sym, ap, true, false, Option, some, List, [], ◌∷◌, ◌++◌, ◌==◌, All,
  All-append, All-of_append, All-imp, arith,
}
use daher_repo.Dlist.{Node, Store, cell, put, load}

pub eq_test : (a b : ℕ) → a ≢ b → (a == b) ≡ false
eq_test a b h = ground arith

pub same_test : (a : ℕ) → (a == a) ≡ true
same_test a = ground arith

module _ {ℓ} {A : Type ℓ} where
  pub put-same : (h : Store A) (p : ℕ) (c : Option (Node A)) → put h p c p ≡ c
  unfolding put
  put-same h p c = rw (same_test p) refl

  pub put-other : (h : Store A) (p a : ℕ) (c : Option (Node A)) → a ≢ p → put h p c a ≡ h a
  unfolding put
  put-other h p a c ne = rw (eq_test a p ne) refl

  pub load-some : (h : Store A) (p : ℕ) (n : Node A) → p ≢ 0 → h p ≡ some n → load h p ≡ some n
  unfolding load
  load-some h p n ne e = rw (eq_test p 0 ne) e

  -- the address of the first cell, or else the one given
  abbrev pub first_or : ℕ → List (ℕ × Option A) → ℕ
  first_or r [] = r
  first_or r (c ∷ cs) = c.0

  abbrev pub last_or : ℕ → List (ℕ × Option A) → ℕ
  last_or q [] = q
  last_or q (c ∷ cs) = last_or c.0 cs

  -- These cells follow each other, between the addresses `q` and `r`.
  abbrev pub Seg : Store A → ℕ → List (ℕ × Option A) → ℕ → Type ℓ
  Seg h q [] r = Unit
  Seg h q (c ∷ cs) r = (h c.0 ≡ some (cell c.1 (first_or r cs) q)) × Seg h c.0 cs r

  -- An address that is none of the cells'.
  abbrev pub Outside : ℕ → List (ℕ × Option A) → Type 0
  Outside a cs = All (λ c. a ≢ c.0) cs

  -- The addresses differ, and none is NULL.
  abbrev pub Distinct : List (ℕ × Option A) → Type 0
  Distinct [] = Unit
  Distinct (c ∷ cs) = (c.0 ≢ 0) × Outside c.0 cs × Distinct cs

  pub first_or-append :
      (xs ys : List (ℕ × Option A)) (r : ℕ) → first_or r (xs ++ ys) ≡ first_or (first_or r ys) xs
  first_or-append [] ys r = refl
  first_or-append (c ∷ xs) ys r = refl

  pub last_or-append :
      (xs ys : List (ℕ × Option A)) (q : ℕ) → last_or q (xs ++ ys) ≡ last_or (last_or q xs) ys
  last_or-append [] ys q = refl
  last_or-append (c ∷ xs) ys q = last_or-append xs ys c.0

  pub Seg-append :
      (h : Store A) (q : ℕ) (xs ys : List (ℕ × Option A)) (r : ℕ)
      → Seg h q xs (first_or r ys)
      → Seg h (last_or q xs) ys r
      → Seg h q (xs ++ ys) r
  Seg-append h q [] ys r s t = t
  Seg-append h q (c ∷ xs) ys r s t = (
    s.0 ∙ ap (λ n. some (cell c.1 n q)) (sym (first_or-append xs ys r)),
    Seg-append h c.0 xs ys r s.1 t,
  )

  pub Seg-of_append :
      (h : Store A) (q : ℕ) (xs ys : List (ℕ × Option A)) (r : ℕ)
      → Seg h q (xs ++ ys) r
      → Seg h q xs (first_or r ys) × Seg h (last_or q xs) ys r
  Seg-of_append h q [] ys r s = (tt, s)
  Seg-of_append h q (c ∷ xs) ys r s =
      let (front, back) = Seg-of_append h c.0 xs ys r s.1 in
      ((s.0 ∙ ap (λ n. some (cell c.1 n q)) (first_or-append xs ys r), front), back)

  -- A segment depends on its own addresses only.
  pub Seg-frame :
      (h g : Store A) (q : ℕ) (cs : List (ℕ × Option A)) (r : ℕ)
      → All (λ c. g c.0 ≡ h c.0) cs
      → Seg h q cs r
      → Seg g q cs r
  Seg-frame h g q [] r same s = tt
  Seg-frame h g q (c ∷ cs) r same s = (same.0 ∙ s.0, Seg-frame h g c.0 cs r same.1 s.1)

  pub Seg-put :
      (h : Store A) (p : ℕ) (n : Option (Node A)) (q : ℕ) (cs : List (ℕ × Option A)) (r : ℕ)
      → Outside p cs
      → Seg h q cs r
      → Seg (put h p n) q cs r
  Seg-put h p n q cs r out s =
      Seg-frame h (put h p n) q cs r
        (All-imp (λ c ne. put-other h p c.0 n (λ e. ne (sym e))) cs out) s

  pub Distinct-of_append :
      (xs ys : List (ℕ × Option A))
      → Distinct (xs ++ ys)
      → Distinct xs × Distinct ys × All (λ c. Outside c.0 ys) xs
  Distinct-of_append [] ys d = (tt, d, tt)
  Distinct-of_append (c ∷ xs) ys d =
      let (front, back, apart) = Distinct-of_append xs ys d.2 in
      let (mine, theirs) = All-of_append (λ e. c.0 ≢ e.0) xs ys d.1 in
      ((d.0, mine, front), back, (theirs, apart))

  pub Distinct-append :
      (xs ys : List (ℕ × Option A))
      → Distinct xs
      → Distinct ys
      → All (λ c. Outside c.0 ys) xs
      → Distinct (xs ++ ys)
  Distinct-append [] ys d e apart = e
  Distinct-append (c ∷ xs) ys d e apart =
      (d.0, All-append (λ e. c.0 ≢ e.0) xs ys d.1 apart.0, Distinct-append xs ys d.2 e apart.1)

  -- the other way round
  pub Outside-swap :
      (xs ys : List (ℕ × Option A)) → All (λ c. Outside c.0 ys) xs → All (λ c. Outside c.0 xs) ys
  Outside-swap [] ys a = All-Unit ys
    where
      All-Unit : (ys : List (ℕ × Option A)) → All (λ c. Outside c.0 []) ys
      All-Unit [] = tt
      All-Unit (c ∷ ys) = (tt, All-Unit ys)
  Outside-swap (c ∷ xs) ys a =
      both ys (All-imp (λ d ne e. ne (sym e)) ys a.0) (Outside-swap xs ys a.1)
    where
      both :
          (ys : List (ℕ × Option A))
          → All (λ d. d.0 ≢ c.0) ys
          → All (λ d. Outside d.0 xs) ys
          → All (λ d. Outside d.0 (c ∷ xs)) ys
      both [] p q = tt
      both (d ∷ ys) p q = ((p.0, q.0), both ys p.1 q.1)

  -- A cell with a new address comes in between, or a cell goes.
  pub insert-Distinct :
      (xs ys : List (ℕ × Option A)) (c : ℕ × Option A)
      → c.0 ≢ 0
      → Outside c.0 (xs ++ ys)
      → Distinct (xs ++ ys)
      → Distinct (xs ++ (c ∷ ys))
  insert-Distinct [] ys c nn out d = (nn, out, d)
  insert-Distinct (e ∷ xs) ys c nn out d =
      (d.0, grown xs d.1 (λ z. out.0 (sym z)), insert-Distinct xs ys c nn out.1 d.2)
    where
      grown :
          (xs : List (ℕ × Option A))
          → Outside e.0 (xs ++ ys)
          → e.0 ≢ c.0
          → Outside e.0 (xs ++ (c ∷ ys))
      grown [] o ne = (ne, o)
      grown (b ∷ xs) o ne = (o.0, grown xs o.1 ne)

  pub remove-Distinct :
      (xs ys : List (ℕ × Option A)) (c : ℕ × Option A)
      → Distinct (xs ++ (c ∷ ys))
      → Distinct (xs ++ ys)
  remove-Distinct [] ys c d = d.2
  remove-Distinct (e ∷ xs) ys c d = (d.0, shrunk xs d.1, remove-Distinct xs ys c d.2)
    where
      shrunk : (xs : List (ℕ × Option A)) → Outside e.0 (xs ++ (c ∷ ys)) → Outside e.0 (xs ++ ys)
      shrunk [] o = o.1
      shrunk (b ∷ xs) o = (o.0, shrunk xs o.1)
