-- ===== src/Strings/Recursive.antt =====
-- infinity/c/recursion/recursion.c: the same string functions by recursion, and the two Fibonacci
-- functions, on numbers that fit in an `int`.
use daher_repo.Prelude.{
  ℕ, zero, suc, ◌+◌, ◌-◌, Bool, true, false, Option, none, some, List, [], ◌∷◌, ◌==◌, if◌then◌else◌,
  ◌>>=◌, ℤ, sub_ℕ,
}

-- `Strlen`
unfoldable pub length_recursive : List ℕ → Option ℕ
length_recursive [] = none
length_recursive (c ∷ s) =
    let rest = length_recursive s in if c == 0 then some 0 else rest >>= λ n. some (1 + n)

-- `Strcmp`
unfoldable pub compare_recursive : List ℕ → List ℕ → Option ℤ
compare_recursive [] t = none
compare_recursive (a ∷ s) [] = none
compare_recursive (a ∷ s) (b ∷ t) =
    let rest = compare_recursive s t in
    if a == 0 then some (sub_ℕ a b) else if a == b then rest else some (sub_ℕ a b)

-- `Strcpy`
unfoldable pub copy_recursive : List ℕ → List ℕ → Option (List ℕ)
copy_recursive dest [] = none
copy_recursive [] (c ∷ src) = none
copy_recursive (d ∷ dest) (c ∷ src) =
    let rest = copy_recursive dest src in
    if c == 0 then some (c ∷ dest) else rest >>= λ r. some (c ∷ r)

-- `Strcat` from the terminator of the target on
unfoldable pub concat_end : List ℕ → List ℕ → Option (List ℕ)
concat_end dest [] = none
concat_end [] (c ∷ src) = none
concat_end (d ∷ []) (c ∷ src) = none
concat_end (d ∷ e ∷ dest) (c ∷ src) =
    let rest = concat_end (0 ∷ dest) src in
    if c == 0 then some (c ∷ 0 ∷ dest) else rest >>= λ r. some (c ∷ r)

-- `Strcat`
unfoldable pub concat_recursive : List ℕ → List ℕ → Option (List ℕ)
unfolding concat_end
concat_recursive [] src = none
concat_recursive (d ∷ dest) src =
    let rest = concat_recursive dest src in
    if d == 0 then concat_end (d ∷ dest) src else rest >>= λ r. some (d ∷ r)

-- `IsNeedleIn`
unfoldable pub is_needle_in : List ℕ → List ℕ → Option Bool
is_needle_in hay [] = none
is_needle_in [] (c ∷ needle) = if c == 0 then some true else none
is_needle_in (h ∷ hay) (c ∷ needle) =
    let rest = is_needle_in hay needle in
    if c == 0 then some true else if c == h then rest else some false

-- `Strstr`
unfoldable pub find_recursive : List ℕ → List ℕ → Option (Option (List ℕ))
unfolding is_needle_in
find_recursive [] needle =
    is_needle_in [] needle >>= λ found. if found then some (some []) else none
find_recursive (h ∷ hay) needle =
    let rest = find_recursive hay needle in
    is_needle_in (h ∷ hay) needle >>= λ found.
    if found then some (some (h ∷ hay)) else if h == 0 then some none else rest

-- the loop of `FibonacciIteratively`, run so many times
unfoldable pub fibonacci_loop : ℕ → ℕ → ℕ → ℕ
fibonacci_loop zero first second = second
fibonacci_loop (suc n) first second = fibonacci_loop n (second + first - first) (second + first)

-- `FibonacciIteratively`
unfoldable pub fibonacci_iteratively : ℕ → ℕ
unfolding fibonacci_loop
fibonacci_iteratively element_index = fibonacci_loop (element_index - 2) 1 1

-- `FibonacciRecursively`
unfoldable pub fibonacci_recursively : ℕ → ℕ
fibonacci_recursively zero = 0
fibonacci_recursively (suc zero) = 1
fibonacci_recursively (suc (suc n)) = fibonacci_recursively n + fibonacci_recursively (suc n)
