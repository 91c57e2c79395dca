-- ===== src/Strings/Tests.antt =====
-- string.c and recursion.c, run on "ab", "abc" and their like.
use daher_repo.Prelude.{ℕ, ◌≡◌, refl, Option, some, List, [], ◌∷◌, ◌++◌, arith, true, replicate}
use daher_repo.Strings.{is_palindrom, strncpy}
use daher_repo.Strings.Recursive.{concat_recursive}
use daher_repo.Strings.Reading.{IsText}

abbrev ab : List ℕ
ab = 97 ∷ 98 ∷ []

abbrev ended : List ℕ → List ℕ
ended s = s ++ (0 ∷ [])

ab-IsText : IsText ab
ab-IsText = ((λ e. omega (arith, e)), ((λ e. omega (arith, e)), tt))

abbrev memory : ℕ → Option (List ℕ)
memory n = some (replicate n 7)

palindrom : is_palindrom (ended (97 ∷ 98 ∷ 97 ∷ [])) ≡ some true
unfolding is_palindrom
palindrom = refl

cut : strncpy (replicate 4 7) (ended ab) 1 ≡ some (97 ∷ 0 ∷ 7 ∷ 7 ∷ [])
unfolding strncpy
cut = refl

concatenated :
    concat_recursive (97 ∷ 0 ∷ 7 ∷ 7 ∷ []) (ended (98 ∷ [])) ≡ some (97 ∷ 98 ∷ 0 ∷ 0 ∷ [])
unfolding concat_recursive
concatenated = refl
