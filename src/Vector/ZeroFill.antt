-- ===== src/Vector/ZeroFill.antt =====
-- A `realloc` for runs of vector.c: it always has memory, and fills new places with zeros.
use daher_repo.Prelude.{
  ℕ, zero, suc, ◌≤◌, ◌≡◌, refl, sym, ap, ◌∙◌, some, List, [], ◌∷◌, ◌++◌, arith, length, take,
  replicate, length-append, length-take, length-replicate, Option, some_inj,
}
use daher_repo.Vector.{IsRealloc}

abbrev pub grow : List ℕ → ℕ → Option (List ℕ)
grow es n = some (take n (es ++ replicate n 0))

take-grow :
    (es : List ℕ) (n m k : ℕ)
    → k ≤ n
    → k ≤ length es
    → take k (take n (es ++ replicate m 0)) ≡ take k es
take-grow es n m zero h e = refl
take-grow es zero m (suc k) h e = elim h [ ]
take-grow [] (suc n) m (suc k) h e = elim e [ ]
take-grow (x ∷ es) (suc n) m (suc k) h e =
    ap (λ t. x ∷ t) (take-grow es n m k (omega arith) (omega arith))

pub grow-IsRealloc : IsRealloc grow
grow-IsRealloc = record {
  new_length = λ es n e. ap length (sym (some_inj e)) ∙ long es n;
  keeps = λ es n k e h i. ap (take k) (sym (some_inj e)) ∙ take-grow es n n k h i;
}
  where
    long : (es : List ℕ) (n : ℕ) → length (take n (es ++ replicate n 0)) ≡ n
    long es n = omega (
      arith,
      length-take n (es ++ replicate n 0),
      length-append es (replicate n 0),
      length-replicate {A = ℕ} n 0,
    )
