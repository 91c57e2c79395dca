-- ===== src/Strings/Copying.antt =====
-- string.c and recursion.c: what the functions that write leave in the memory of their target.
use daher_repo.Prelude.{
  ℕ, suc, ◌+◌, ◌<◌, ◌≡◌, refl, sym, ap, ap₂, ◌∙◌, Option, none, some, List, [], ◌∷◌, ◌++◌, arith,
  ◌==◌, ◌>>=◌, length, length-append, store, set, store-set, length-set, get_elem?,
  get_elem?-set_ne, get_elem?-set_self, Bool-cases, ==→eq, inl, inr,
}
use mathlib.Core.List.{append_assoc}
use daher_repo.Strings.{strcpy, strcpy_from, strcat, strcat_from, strdup, strdup_from}
use daher_repo.Strings.Recursive.{copy_recursive}
use daher_repo.Strings.Reading.{IsText, not_end, strlen_lem}

abbrev behind : List ℕ → Option (List ℕ) → Option (List ℕ)
behind before o = o >>= λ d. some (before ++ d)

store-behind :
    (before : List ℕ) (d c : ℕ) (dest : List ℕ)
    → store (before ++ (d ∷ dest)) (length before) c ≡ some (before ++ (c ∷ dest))
store-behind [] d c dest = refl
store-behind (b ∷ before) d c dest = rw (store-behind before d c dest)

store-outside : (before : List ℕ) (c : ℕ) → store (before ++ []) (length before) c ≡ none
store-outside [] c = refl
store-outside (b ∷ before) c = rw (store-outside before c)

behind-cons :
    (before : List ℕ) (c : ℕ) (o : Option (List ℕ))
    → behind (before ++ (c ∷ [])) o ≡ behind before (o >>= λ r. some (c ∷ r))
behind-cons before c none = refl
behind-cons before c (some d) = ap some (append_assoc before (c ∷ []) d)

strcpy_from-recursive :
    (before dest src : List ℕ)
    → strcpy_from (length before) (before ++ dest) src ≡ behind before (copy_recursive dest src)
unfolding strcpy_from copy_recursive
strcpy_from-recursive before dest [] = refl
strcpy_from-recursive before [] (c ∷ src) = elim (Bool-cases (c == 0)) [
  | inl z ↦ rw (z, store-outside before 0)
  | inr nz ↦ rw (nz, store-outside before c)
]
strcpy_from-recursive before (d ∷ dest) (c ∷ src) = elim (Bool-cases (c == 0)) [
  | inl z ↦
      rw (z, store-behind before d 0 dest)
        (ap (λ k. some (before ++ (k ∷ dest))) (sym (==→eq c 0 z)))
  | inr nz ↦
      rw (nz, store-behind before d c dest)
        (ap₂ (λ i m. strcpy_from i m src) at (sym (append_assoc before (c ∷ []) dest))
          ∙ strcpy_from-recursive (before ++ (c ∷ [])) dest src
          ∙ behind-cons before c (copy_recursive dest src))
]
  where
    at : suc (length before) ≡ length (before ++ (c ∷ []))
    at = omega (arith, length-append before (c ∷ []))

-- The two `Strcpy` leave the same target, or both access memory outside of an object.
pub strcpy-recursive : (dest src : List ℕ) → strcpy dest src ≡ copy_recursive dest src
unfolding strcpy
strcpy-recursive dest src = strcpy_from-recursive [] dest src ∙ same (copy_recursive dest src)
  where
    same : (o : Option (List ℕ)) → behind [] o ≡ o
    same none = refl
    same (some d) = refl

copy_recursive_lem :
    (s rest old : List ℕ)
    → IsText s
    → length s < length old
    → (tail : List ℕ) × (copy_recursive old (s ++ (0 ∷ rest)) ≡ some (s ++ (0 ∷ tail)))
      × (length (s ++ (0 ∷ tail)) ≡ length old)
unfolding copy_recursive
copy_recursive_lem [] rest [] h room = elim room [ ]
copy_recursive_lem [] rest (d ∷ old) h room = (old, refl, refl)
copy_recursive_lem (c ∷ s) rest [] h room = elim room [ ]
copy_recursive_lem (c ∷ s) rest (d ∷ old) h room =
    let (tail, e, l) = copy_recursive_lem s rest old h.1 (omega arith) in
    (tail, rw (not_end c h.0, e), ap suc l)

-- `Strcpy` of a string to an object with room for it and its terminator leaves the string there.
pub strcpy_lem :
    (s rest old : List ℕ)
    → IsText s
    → length s < length old
    → (tail : List ℕ) × (strcpy old (s ++ (0 ∷ rest)) ≡ some (s ++ (0 ∷ tail)))
      × (length (s ++ (0 ∷ tail)) ≡ length old)
strcpy_lem s rest old h room =
    let (tail, e, l) = copy_recursive_lem s rest old h room in
    (tail, strcpy-recursive old (s ++ (0 ∷ rest)) ∙ e, l)

-- What a copying loop from index `i` on does not reach, and what it leaves behind the last character.
strdup_from_lem :
    (i : ℕ) (new s rest : List ℕ)
    → IsText s
    → i + length s < length new
    → (d : List ℕ) × (strdup_from i new (s ++ (0 ∷ rest)) ≡ some d)
      × (get_elem? d (i + length s) ≡ get_elem? new (i + length s))
unfolding strdup_from
strdup_from_lem i new [] rest h room = (new, refl, refl)
strdup_from_lem i new (c ∷ s) rest h room =
    let e : suc i + length s ≡ i + suc (length s) = omega arith in
    let (d, ran, kept) =
      strdup_from_lem (suc i) (set new i c) s rest h.1 (omega (arith, length-set new i c)) in
    (
      d,
      rw (not_end c h.0, store-set new i c (omega arith)) ran,
      ap (get_elem? d) (sym e)
          ∙ kept
          ∙ get_elem?-set_ne new c (λ q. omega (arith, q))
          ∙ ap (get_elem? new) e,
    )

-- `Strdup` of a string leaves, where the terminator belongs, what `malloc` had there.
pub strdup_no_end :
    (malloc : ℕ → Option (List ℕ)) (s rest new : List ℕ)
    → IsText s
    → malloc (length s + 1) ≡ some new
    → length new ≡ length s + 1
    → (d : List ℕ) × (strdup malloc (s ++ (0 ∷ rest)) ≡ some (some d))
      × (get_elem? d (length s) ≡ get_elem? new (length s))
unfolding strdup
strdup_no_end malloc s rest new h given size =
    let e : 0 + length s ≡ length s = omega arith in
    let (d, ran, kept) = strdup_from_lem 0 new s rest h (omega (arith, size)) in
    (
      d,
      rw (strlen_lem s rest h, given, ran),
      ap (get_elem? d) (sym e) ∙ kept ∙ ap (get_elem? new) e,
    )

strcat_from_lem :
    (i : ℕ) (dest s rest : List ℕ)
    → IsText s
    → i + length s + 1 < length dest
    → (d : List ℕ) × (strcat_from i dest (s ++ (0 ∷ rest)) ≡ some d)
      × (get_elem? d (i + length s) ≡ get_elem? dest (i + length s))
      × (get_elem? d (suc (i + length s)) ≡ some 0)
unfolding strcat_from
strcat_from_lem i dest [] rest h room =
    let e : i + 0 ≡ i = omega arith in
    (
      set dest (suc i) 0,
      store-set dest (suc i) 0 (omega arith),
      get_elem?-set_ne dest 0 (λ q. omega (arith, q)),
      ap (λ k. get_elem? (set dest (suc i) 0) (suc k)) e
          ∙ get_elem?-set_self dest (suc i) 0 (omega arith),
    )
strcat_from_lem i dest (c ∷ s) rest h room =
    let e : suc i + length s ≡ i + suc (length s) = omega arith in
    let (d, ran, kept, last) =
      strcat_from_lem (suc i) (set dest i c) s rest h.1 (omega (arith, length-set dest i c)) in
    (
      d,
      rw (not_end c h.0, store-set dest i c (omega arith)) ran,
      ap (get_elem? d) (sym e)
          ∙ kept
          ∙ get_elem?-set_ne dest c (λ q. omega (arith, q))
          ∙ ap (get_elem? dest) e,
      ap (λ k. get_elem? d (suc k)) (sym e) ∙ last,
    )

-- `Strcat` writes its terminator one place behind where it belongs, and leaves there what the target
-- had before.
pub strcat_no_end :
    (t old s rest : List ℕ)
    → IsText t
    → IsText s
    → length s < length old
    → (d : List ℕ) × (strcat (t ++ (0 ∷ old)) (s ++ (0 ∷ rest)) ≡ some d)
      × (get_elem? d (length t + length s) ≡ get_elem? (t ++ (0 ∷ old)) (length t + length s))
      × (get_elem? d (suc (length t + length s)) ≡ some 0)
unfolding strcat
strcat_no_end t old s rest g h room =
    let (d, ran, kept, last) =
      strcat_from_lem (length t) (t ++ (0 ∷ old)) s rest h
        (omega (arith, length-append t (0 ∷ old))) in
    (d, rw (strlen_lem t old g) ran, kept, last)
