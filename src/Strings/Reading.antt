-- ===== src/Strings/Reading.antt =====
-- string.c and recursion.c: what the functions that only read return.
use daher_repo.Prelude.{
  ℕ, zero, suc, ◌+◌, ◌-◌, ◌≡◌, ◌≢◌, refl, ap, ◌∙◌, Bool, true, false, Option, none, some, List, [],
  ◌∷◌, ◌++◌, arith, ◌==◌, if◌then◌else◌, ◌>>=◌, pos, length, All, Bool-cases, ==→eq, inl, inr,
}
use daher_repo.Strings.{
  strlen, strlen_from, strcmp, strcasecmp, case_char, strstr, starts_with, strspn, strspn_from,
  is_accepted,
}
use daher_repo.Strings.Recursive.{
  length_recursive, compare_recursive, is_needle_in, find_recursive, fibonacci_loop,
  fibonacci_iteratively, fibonacci_recursively,
}

-- a string: no character is the terminator
abbrev pub IsText : List ℕ → Type 0
IsText s = All (λ c. c ≢ 0) s

pub not_end : (c : ℕ) → c ≢ 0 → (c == 0) ≡ false
not_end c h = ground arith

pub strlen_from_lem :
    (i : ℕ) (s : List ℕ) (rest : List ℕ)
    → IsText s
    → strlen_from i (s ++ (0 ∷ rest)) ≡ some (i + length s)
unfolding strlen_from
strlen_from_lem i [] rest h = ap some (omega arith)
strlen_from_lem i (c ∷ s) rest h =
    rw (not_end c h.0, strlen_from_lem (suc i) s rest h.1) (ap some (omega arith))

-- On a string with its terminator, `Strlen` counts the characters.
pub strlen_lem : (s rest : List ℕ) → IsText s → strlen (s ++ (0 ∷ rest)) ≡ some (length s)
unfolding strlen
strlen_lem s rest h = strlen_from_lem 0 s rest h ∙ ap some (omega arith)

one_more :
    (i : ℕ) (o : Option ℕ)
    → (o >>= λ n. some (suc i + n)) ≡ ((o >>= λ n. some (1 + n)) >>= λ n. some (i + n))
one_more i none = refl
one_more i (some n) = ap some (omega arith)

strlen_from-recursive :
    (i : ℕ) (s : List ℕ) → strlen_from i s ≡ length_recursive s >>= λ n. some (i + n)
unfolding strlen_from length_recursive
strlen_from-recursive i [] = refl
strlen_from-recursive i (c ∷ s) = elim (Bool-cases (c == 0)) [
  | inl z ↦ rw z (ap some (omega arith))
  | inr nz ↦ rw (nz, strlen_from-recursive (suc i) s) (one_more i (length_recursive s))
]

-- The two `Strlen` agree on every memory.
pub strlen-recursive : (s : List ℕ) → strlen s ≡ length_recursive s
unfolding strlen
strlen-recursive s = strlen_from-recursive 0 s ∙ no_more (length_recursive s)
  where
    no_more : (o : Option ℕ) → (o >>= λ n. some (0 + n)) ≡ o
    no_more none = refl
    no_more (some n) = ap some (omega arith)

-- The two `Strcmp` agree on every two memories.
pub strcmp-recursive : (s t : List ℕ) → strcmp s t ≡ compare_recursive s t
unfolding strcmp compare_recursive
strcmp-recursive [] t = refl
strcmp-recursive (a ∷ s) [] = refl
strcmp-recursive (a ∷ s) (b ∷ t) = rw (strcmp-recursive s t)

-- `Strcasecmp` finds no difference between a string and any string that goes on behind it.
pub strcasecmp-prefix :
    (tolower : ℕ → ℕ) (s t rest : List ℕ)
    → IsText s
    → strcasecmp tolower (s ++ (0 ∷ rest)) (s ++ t) ≡ some (pos 0)
unfolding strcasecmp case_char
strcasecmp-prefix tolower [] [] rest h = refl
strcasecmp-prefix tolower [] (b ∷ t) rest h = refl
strcasecmp-prefix tolower (c ∷ s) t rest h =
    rw (not_end c h.0, same c) (strcasecmp-prefix tolower s t rest h.1)
  where
    same : (k : ℕ) → (k == k) ≡ true
    same k = ground arith

step :
    (c h : ℕ) (rest : Option Bool)
    → (if c == 0
        then some true
        else if h == 0
        then some false
        else if c == h
        then rest
        else some false)
      ≡ (if c == 0 then some true else if c == h then rest else some false)
step c h rest = ground arith

starts_with-needle :
    (hay : List ℕ) (needle : List ℕ) → starts_with hay needle ≡ is_needle_in hay needle
unfolding starts_with is_needle_in
starts_with-needle hay [] = refl
starts_with-needle [] (c ∷ needle) = refl
starts_with-needle (h ∷ hay) (c ∷ needle) =
    rw (starts_with-needle hay needle) (step c h (is_needle_in hay needle))

not_in :
    (a : ℕ) (hay : List ℕ) (c : ℕ) (needle : List ℕ)
    → c ≢ 0
    → (a == 0) ≡ true
    → is_needle_in (a ∷ hay) (c ∷ needle) ≡ some false
unfolding is_needle_in
not_in a hay c needle h z = rw (not_end c h, differ)
  where
    differ : (c == a) ≡ false
    differ = ground (arith, ==→eq a 0 z)

-- The two `Strstr` agree on every haystack for a needle that is not empty.
pub strstr-recursive :
    (hay : List ℕ) (c : ℕ) (needle : List ℕ)
    → c ≢ 0
    → strstr hay (c ∷ needle) ≡ find_recursive hay (c ∷ needle)
unfolding strstr find_recursive
strstr-recursive [] c needle h = unfold is_needle_in in rw (not_end c h)
strstr-recursive (a ∷ hay) c needle h = elim (Bool-cases (a == 0)) [
  | inl z ↦ rw (z, not_in a hay c needle h z)
  | inr nz ↦ rw (nz, not_end c h, starts_with-needle hay needle, strstr-recursive hay c needle h)
]

-- `Strspn` returns 0 for a string all of whose characters are accepted.
pub strspn_zero :
    (str rest accept : List ℕ)
    → IsText str
    → All (λ c. is_accepted accept c ≡ some true) str
    → strspn (str ++ (0 ∷ rest)) accept ≡ some 0
unfolding strspn strspn_from
strspn_zero str rest accept h a = go 0 str h a
  where
    go :
        (count : ℕ) (s : List ℕ)
        → IsText s
        → All (λ c. is_accepted accept c ≡ some true) s
        → strspn_from count (s ++ (0 ∷ rest)) accept ≡ some 0
    go count [] h a = refl
    go count (c ∷ s) h a = rw (not_end c h.0, a.0, go (suc count) s h.1 a.1)

fibonacci_loop_lem :
    (n k : ℕ)
    → fibonacci_loop n (fibonacci_recursively (suc k)) (fibonacci_recursively (suc (suc k)))
      ≡ fibonacci_recursively (suc (suc (n + k)))
unfolding fibonacci_loop fibonacci_recursively
fibonacci_loop_lem zero k =
    let e : k ≡ 0 + k = omega arith in
    ap (λ j. fibonacci_recursively j + fibonacci_recursively (suc j)) e
fibonacci_loop_lem (suc n) k =
    let a = fibonacci_recursively k in
    let b = fibonacci_recursively (suc k) in
    let first : a + b + b - b ≡ a + b = omega arith in
    let second : a + b + b ≡ b + (a + b) = omega arith in
    let e : n + suc k ≡ suc n + k = omega arith in
    rw (first, second)
      (fibonacci_loop_lem n (suc k) ∙ ap (λ j. fibonacci_recursively (suc (suc j))) e)

-- From the index 1 on, the two Fibonacci functions agree.
pub fibonacci_lem : (n : ℕ) → fibonacci_iteratively (suc n) ≡ fibonacci_recursively (suc n)
unfolding fibonacci_iteratively fibonacci_recursively fibonacci_loop
fibonacci_lem zero = refl
fibonacci_lem (suc n) =
    let e : suc (suc n) - 2 ≡ n = omega arith in
    let k : n + 0 ≡ n = omega arith in
    rw e (fibonacci_loop_lem n 0 ∙ ap (λ j. fibonacci_recursively (suc (suc j))) k)
