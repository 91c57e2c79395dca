-- ===== src/Stack/Sorting.antt =====
-- infinity/c/recursion/recursion.c: `SortStack` and `SortElemnt` on the stack of stack.c. The
-- elements are pointers, compared as addresses. The fuel is at least the depth of the recursion, the
-- size of the stack and one; `none` is also its end.
use mathlib.Core.List.{Perm}
use mathlib.Core.List.Perm
use daher_repo.Prelude.{
  ℕ, zero, suc, ◌≤◌, ◌<◌, ◌≡◌, refl, ap, ◌∙◌, inl, inr, true, false, Option, none, some, List, [],
  ◌∷◌, arith, leb, if◌then◌else◌, ◌>>=◌, Bool-cases, length, All,
}
use daher_repo.Stack.{Stack, pop, push, peek, is_empty, is_minus_one}
use daher_repo.Stack.View.{IsStack, pop_lem, peek_lem, push_lem}

-- `SortElemnt`
unfoldable pub sort_element : ℕ → Stack ℕ → ℕ → Option (Stack ℕ)
sort_element zero stack element = none
sort_element (suc fuel) stack element =
    if is_empty stack
    then push stack element
    else (peek stack >>= λ top.
        if leb top element
        then push stack element
        else (pop stack >>= λ popped.
            sort_element fuel popped element >>= λ sorted. push sorted top))

-- `SortStack`
unfoldable pub sort_stack : ℕ → Stack ℕ → Option (Stack ℕ)
sort_stack zero stack = none
sort_stack (suc fuel) stack =
    if is_empty stack
    then some stack
    else (peek stack >>= λ element. pop stack >>= λ popped.
        sort_stack fuel popped >>= λ sorted. sort_element fuel sorted element)

-- The greater elements are nearer to the top.
abbrev pub IsDescending : List ℕ → Type 0
IsDescending [] = Unit
IsDescending (x ∷ xs) = All (λ y. y ≤ x) xs × IsDescending xs

insert_down : ℕ → List ℕ → List ℕ
insert_down e [] = e ∷ []
insert_down e (t ∷ xs) = if leb t e then e ∷ t ∷ xs else t ∷ insert_down e xs

length-insert_down : (e : ℕ) (xs : List ℕ) → length (insert_down e xs) ≡ suc (length xs)
unfolding insert_down
length-insert_down e [] = refl
length-insert_down e (t ∷ xs) = ground (arith, length-insert_down e xs)

All-insert_down :
    (e b : ℕ) (xs : List ℕ) → e ≤ b → All (λ y. y ≤ b) xs → All (λ y. y ≤ b) (insert_down e xs)
unfolding insert_down
All-insert_down e b [] h a = (h, tt)
All-insert_down e b (t ∷ xs) h a = ground (arith, All-insert_down e b xs h)

All-le : (b c : ℕ) (xs : List ℕ) → b ≤ c → All (λ y. y ≤ b) xs → All (λ y. y ≤ c) xs
All-le b c [] h a = tt
All-le b c (x ∷ xs) h a = (omega (arith, a.0), All-le b c xs h a.1)

insert_down-IsDescending : (e : ℕ) (xs : List ℕ) → IsDescending xs → IsDescending (insert_down e xs)
unfolding insert_down
insert_down-IsDescending e [] d = (tt, tt)
insert_down-IsDescending e (t ∷ xs) d =
    ground (arith, insert_down-IsDescending e xs d.1, All-insert_down e t xs, All-le t e xs)

insert_down-perm : (e : ℕ) (xs : List ℕ) → Perm (insert_down e xs) (e ∷ xs)
unfolding insert_down
insert_down-perm e [] = Perm.refl _
insert_down-perm e (t ∷ xs) = elim (Bool-cases (leb t e)) [
  | inl h ↦ rw h (Perm.refl _)
  | inr h ↦ rw h (Perm.trans (Perm.cons t (insert_down-perm e xs)) (Perm.swap e t xs))
]

is_empty-nil : (s : Stack ℕ) → IsStack s [] → is_empty s ≡ true
unfolding is_empty
is_empty-nil s v = ap is_minus_one v.pointer

is_empty-cons : (s : Stack ℕ) {x : ℕ} {xs : List ℕ} → IsStack s (x ∷ xs) → is_empty s ≡ false
unfolding is_empty
is_empty-cons s v = ap is_minus_one v.pointer

-- a stack of the same capacity that stands for the list
abbrev pub Yields : Option (Stack ℕ) → ℕ → List ℕ → Type 0
Yields o capacity xs = (s : Stack ℕ) × (o ≡ some s) × IsStack s xs × (s.stack_capacity ≡ capacity)

sort_element_lem :
    (fuel : ℕ) (s : Stack ℕ) (e : ℕ) (xs : List ℕ)
    → IsStack s xs
    → length xs < fuel
    → length xs < s.stack_capacity
    → Yields (sort_element fuel s e) s.stack_capacity (insert_down e xs)
unfolding sort_element insert_down
sort_element_lem zero s e xs v h room = elim h [ ]
sort_element_lem (suc fuel) s e [] v h room = rw (is_empty-nil s v) (push_lem s e [] v room)
sort_element_lem (suc fuel) s e (x ∷ xs) v h room = elim (Bool-cases (leb x e)) [
  | inl above ↦ rw (is_empty-cons s v, peek_lem s (x ∷ xs) v, above) (push_lem s e (x ∷ xs) v room)
  | inr below ↦
      let (s1, e1, v1, c1) = pop_lem s (x ∷ xs) v in
      let (s2, e2, v2, c2) = sort_element_lem fuel s1 e xs v1 (omega arith) (omega (arith, c1)) in
      let (s3, e3, v3, c3) =
        push_lem s2 x (insert_down e xs) v2 (omega (arith, c1, c2, length-insert_down e xs)) in
      (
        s3,
        rw (is_empty-cons s v, peek_lem s (x ∷ xs) v, below, e1, e2) e3,
        rw below v3,
        c3 ∙ c2 ∙ c1,
      )
]

-- the list that `SortStack` leaves
sort_down : List ℕ → List ℕ
sort_down [] = []
sort_down (x ∷ xs) = insert_down x (sort_down xs)

length-sort_down : (xs : List ℕ) → length (sort_down xs) ≡ length xs
unfolding sort_down
length-sort_down [] = refl
length-sort_down (x ∷ xs) = length-insert_down x (sort_down xs) ∙ ap suc (length-sort_down xs)

sort_down-IsDescending : (xs : List ℕ) → IsDescending (sort_down xs)
unfolding sort_down
sort_down-IsDescending [] = tt
sort_down-IsDescending (x ∷ xs) =
    insert_down-IsDescending x (sort_down xs) (sort_down-IsDescending xs)

sort_down-perm : (xs : List ℕ) → Perm (sort_down xs) xs
unfolding sort_down
sort_down-perm [] = Perm.refl []
sort_down-perm (x ∷ xs) =
    Perm.trans (insert_down-perm x (sort_down xs)) (Perm.cons x (sort_down-perm xs))

sort_stack-sort_down :
    (fuel : ℕ) (s : Stack ℕ) (xs : List ℕ)
    → IsStack s xs
    → length xs < fuel
    → Yields (sort_stack fuel s) s.stack_capacity (sort_down xs)
unfolding sort_stack sort_down
sort_stack-sort_down zero s xs v h = elim h [ ]
sort_stack-sort_down (suc fuel) s [] v h = (s, rw (is_empty-nil s v), v, refl)
sort_stack-sort_down (suc fuel) s (x ∷ xs) v h =
    let (s1, e1, v1, c1) = pop_lem s (x ∷ xs) v in
    let (s2, e2, v2, c2) = sort_stack-sort_down fuel s1 xs v1 (omega arith) in
    let (s3, e3, v3, c3) =
      sort_element_lem fuel s2 x (sort_down xs) v2 (omega (arith, length-sort_down xs))
        (omega (arith, length-sort_down xs, v.room, c1, c2)) in
    (s3, rw (is_empty-cons s v, peek_lem s (x ∷ xs) v, e1, e2) e3, v3, c3 ∙ c2 ∙ c1)

-- With fuel above its size, `SortStack` runs through on every valid stack, with no failed assert and
-- no access outside of the array, and leaves the same elements with the greater ones nearer to the top.
pub sort_stack_lem :
    (fuel : ℕ) (s : Stack ℕ) (xs : List ℕ)
    → IsStack s xs
    → length xs < fuel
    → (ys : List ℕ) × Yields (sort_stack fuel s) s.stack_capacity ys × IsDescending ys × Perm ys xs
sort_stack_lem fuel s xs v h =
    (sort_down xs, sort_stack-sort_down fuel s xs v h, sort_down-IsDescending xs, sort_down-perm xs)
