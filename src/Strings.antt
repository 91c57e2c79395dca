-- ===== src/Strings.antt =====
-- infinity/c/ws2/string.c: string functions that loop over the characters. A pointer is the memory
-- from its place to the end of its object, as character codes; `none` is an access outside of it,
-- and an inner `none` a returned `NULL`. Source and target are different objects. A function that writes hands back the memory of its target.
pub mod Recursive
pub mod Reading
pub mod Copying
mod Tests
use daher_repo.Prelude.{
  ℕ, zero, suc, ◌+◌, ◌-◌, Bool, true, false, ◌&&◌, Option, none, some, List, [], ◌∷◌, ltb, leb,
  ◌==◌, if◌then◌else◌, ◌>>=◌, ℤ, pos, sub_ℕ, get_elem?, store,
}

-- `Strlen`, from the count `i` on
unfoldable pub strlen_from : ℕ → List ℕ → Option ℕ
strlen_from i [] = none
strlen_from i (c ∷ s) = if c == 0 then some i else strlen_from (suc i) s

unfoldable pub strlen : List ℕ → Option ℕ
unfolding strlen_from
strlen s = strlen_from 0 s

-- `Strcmp`
unfoldable pub strcmp : List ℕ → List ℕ → Option ℤ
strcmp [] t = none
strcmp (a ∷ s) [] = none
strcmp (a ∷ s) (b ∷ t) =
    let rest = strcmp s t in
    if a == 0 then some (sub_ℕ a b) else if a == b then rest else some (sub_ℕ a b)

-- `Case_Char`: 0 for the same letter
unfoldable pub case_char : ℕ → ℕ → ℕ
case_char c1 c2 =
    if c1 == c2
    then 0
    else if leb 65 c1 && leb c1 90 && (c1 + 32 == c2)
    then 0
    else if leb 97 c1 && leb c1 122 && (c1 == c2 + 32)
    then 0
    else 1

-- `Strcasecmp`, where `tolower` is that of the C library
unfoldable pub strcasecmp : (ℕ → ℕ) → List ℕ → List ℕ → Option ℤ
unfolding case_char
strcasecmp tolower [] t = none
strcasecmp tolower (a ∷ s) [] = if a == 0 then some (pos 0) else none
strcasecmp tolower (a ∷ s) (b ∷ t) =
    let rest = strcasecmp tolower s t in
    if a == 0
    then some (pos 0)
    else if case_char a b == 0
    then rest
    else some (sub_ℕ (tolower a) (tolower b))

-- `Strchr`: its loop, then its test for the terminator
unfoldable pub strchr_from : List ℕ → ℕ → Option (Option (List ℕ))
strchr_from [] c = none
strchr_from (a ∷ s) c =
    let rest = strchr_from s c in
    if a == 0 then some none else if a == c then some (some (a ∷ s)) else rest

unfoldable pub strchr : List ℕ → ℕ → Option (Option (List ℕ))
unfolding strchr_from
strchr str c = if c == 0 then some (some str) else strchr_from str c

-- the inner loop of `Strstr`: whether the needle starts the haystack
unfoldable pub starts_with : List ℕ → List ℕ → Option Bool
starts_with hay [] = none
starts_with [] (c ∷ needle) = if c == 0 then some true else none
starts_with (h ∷ hay) (c ∷ needle) =
    let rest = starts_with hay needle in
    if c == 0 then some true else if h == 0 then some false else if c == h then rest else some false

-- `Strstr`
unfoldable pub strstr : List ℕ → List ℕ → Option (Option (List ℕ))
unfolding starts_with
strstr [] needle = none
strstr (h ∷ hay) needle =
    let rest = strstr hay needle in
    if h == 0
    then some none
    else starts_with (h ∷ hay) needle >>= λ found. if found then some (some (h ∷ hay)) else rest

-- the inner loop of `Strspn`
unfoldable pub is_accepted : List ℕ → ℕ → Option Bool
is_accepted [] c = none
is_accepted (a ∷ accept) c =
    let rest = is_accepted accept c in
    if a == 0 then some false else if a == c then some true else rest

-- `Strspn`, from the count on
unfoldable pub strspn_from : ℕ → List ℕ → List ℕ → Option ℕ
unfolding is_accepted
strspn_from count [] accept = none
strspn_from count (c ∷ str) accept =
    let rest = strspn_from (suc count) str accept in
    if c == 0 then some 0 else is_accepted accept c >>= λ b. if b then rest else some count

unfoldable pub strspn : List ℕ → List ℕ → Option ℕ
unfolding strspn_from
strspn str accept = strspn_from 0 str accept

-- `Strcpy`, from the index `i` of the target on
unfoldable pub strcpy_from : ℕ → List ℕ → List ℕ → Option (List ℕ)
strcpy_from i dest [] = none
strcpy_from i dest (c ∷ src) =
    if c == 0 then store dest i 0 else store dest i c >>= λ d. strcpy_from (suc i) d src

unfoldable pub strcpy : List ℕ → List ℕ → Option (List ℕ)
unfolding strcpy_from
strcpy dest src = strcpy_from 0 dest src

-- `Strncpy`, with the rest of the count
unfoldable pub strncpy_from : ℕ → ℕ → List ℕ → List ℕ → Option (List ℕ)
strncpy_from zero i dest src = store dest i 0
strncpy_from (suc n) i dest [] = none
strncpy_from (suc n) i dest (c ∷ src) =
    if c == 0 then store dest i 0 else store dest i c >>= λ d. strncpy_from n (suc i) d src

unfoldable pub strncpy : List ℕ → List ℕ → ℕ → Option (List ℕ)
unfolding strncpy_from
strncpy dest src n = strncpy_from n 0 dest src

-- the loop of `Strdup`, which leaves the terminator out
unfoldable pub strdup_from : ℕ → List ℕ → List ℕ → Option (List ℕ)
strdup_from i new [] = none
strdup_from i new (c ∷ str) =
    if c == 0 then some new else store new i c >>= λ d. strdup_from (suc i) d str

-- `Strdup`, where `malloc` gives the memory; a `NULL` of it is not tested.
unfoldable pub strdup : (ℕ → Option (List ℕ)) → List ℕ → Option (Option (List ℕ))
unfolding strlen strdup_from
strdup malloc str = strlen str >>= λ n. elim (malloc (n + 1)) [
  | none ↦ if n == 0 then some none else none
  | some new ↦ strdup_from 0 new str >>= λ d. some (some d)
]

-- the second loop of `Strcat`, and the terminator one place behind it
unfoldable pub strcat_from : ℕ → List ℕ → List ℕ → Option (List ℕ)
strcat_from i dest [] = none
strcat_from i dest (c ∷ src) =
    if c == 0 then store dest (suc i) 0 else store dest i c >>= λ d. strcat_from (suc i) d src

-- `Strcat`; its first loop counts as `Strlen` does.
unfoldable pub strcat : List ℕ → List ℕ → Option (List ℕ)
unfolding strlen strcat_from
strcat dest src = strlen dest >>= λ n. strcat_from n dest src

-- the second loop of `Strncat`, which reads the source before it tests the count
unfoldable pub strncat_from : ℕ → ℕ → List ℕ → List ℕ → Option (List ℕ)
strncat_from n i dest [] = none
strncat_from zero i dest (c ∷ src) = store dest (suc i) 0
strncat_from (suc n) i dest (c ∷ src) =
    if c == 0 then store dest (suc i) 0 else store dest i c >>= λ d. strncat_from n (suc i) d src

unfoldable pub strncat : List ℕ → List ℕ → ℕ → Option (List ℕ)
unfolding strlen strncat_from
strncat dest src n = strlen dest >>= λ k. strncat_from n k dest src

-- `IsPalindrom`: the loop, with the index of `str` and the index behind `right`
unfoldable pub is_palindrom_from : ℕ → List ℕ → ℕ → ℕ → Option Bool
is_palindrom_from zero s left past = none
is_palindrom_from (suc fuel) s left past =
    let rest = is_palindrom_from fuel s (suc left) (past - 1) in
    if ltb (suc left) past
    then (get_elem? s (past - 1) >>= λ r.
        get_elem? s left >>= λ l. if r == l then rest else some false)
    else some true

unfoldable pub is_palindrom : List ℕ → Option Bool
unfolding strlen is_palindrom_from
is_palindrom s = strlen s >>= λ n. is_palindrom_from (suc n) s 0 n
