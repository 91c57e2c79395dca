-- ===== src/Avl/Walk.antt =====
-- avl.c, `AVLForEach` and its three traversals: each runs the operation over the list of its order
-- and stops at the first nonzero result.
use daher_repo.Prelude.{
  ℕ, ◌≡◌, refl, List, [], ◌∷◌, ◌++◌, ℤ, pos, negsuc, ==→eq, is_zero, if◌then◌else◌, arith, ◌==◌, ap,
  sym, ◌∙◌, inl, inr, Bool-cases,
}
use mathlib.Core.Path.{fun_ext}
use daher_repo.Avl.{Tree, leaf, node}
use daher_repo.Avl.Inorder.{inorder}

module _ {ℓ} {A : Type ℓ} where
  abbrev pub preorder : Tree A → List A
  preorder leaf = []
  preorder (node l x h r) = x ∷ (preorder l ++ preorder r)

  abbrev pub postorder : Tree A → List A
  postorder leaf = []
  postorder (node l x h r) = postorder l ++ (postorder r ++ (x ∷ []))

  -- the list that a traversal type names
  pub order_of : Tree A → ℕ → List A
  order_of t kind =
      if kind == 1
      then preorder t
      else if kind == 2
      then inorder t
      else if kind == 3
      then postorder t
      else []

-- The second step runs only after a zero result.
abbrev pub and_then {κ} : {S : Type κ} → ℤ × S → (S → ℤ × S) → ℤ × S
and_then (res, s) rest = if is_zero res then rest s else (res, s)

and_then_assoc {κ} :
    {S : Type κ} (p : ℤ × S) (f g : S → ℤ × S)
    → and_then (and_then p f) g ≡ and_then p (λ s. and_then (f s) g)
and_then_assoc (res, s) f g = elim (Bool-cases (is_zero res)) [
  | inl go ↦ rw go
  | inr stop ↦ rw (stop, stop)
]

and_then_done {κ} : {S : Type κ} (p : ℤ × S) → and_then p (λ s. (pos 0, s)) ≡ p
and_then_done (pos n, s) = elim (Bool-cases (n == 0)) [
  | inl z ↦ rw z (ap (λ k. (pos k, s)) (sym (==→eq n 0 z)))
  | inr nz ↦ rw nz
]
and_then_done (negsuc n, s) = refl

-- The operation acts on a state `S`, which stands for what `param` points to.
module _ {ℓ κ} {A : Type ℓ} {S : Type κ} (operation : A → S → ℤ × S) where
  unfoldable pub for_each_pre_order : Tree A → S → ℤ × S
  for_each_pre_order leaf s = (pos 0, s)
  for_each_pre_order (node l x h r) s =
      and_then (and_then (operation x s) (for_each_pre_order l)) (for_each_pre_order r)

  unfoldable pub for_each_in_order : Tree A → S → ℤ × S
  for_each_in_order leaf s = (pos 0, s)
  for_each_in_order (node l x h r) s =
      and_then (and_then (for_each_in_order l s) (operation x)) (for_each_in_order r)

  unfoldable pub for_each_post_order : Tree A → S → ℤ × S
  for_each_post_order leaf s = (pos 0, s)
  for_each_post_order (node l x h r) s =
      and_then (and_then (for_each_post_order l s) (for_each_post_order r)) (operation x)

  -- `travesal_type` is 1, 2 or 3; any other does nothing.
  unfoldable pub for_each : Tree A → S → ℕ → ℤ × S
  for_each t s kind =
      if kind == 1
      then for_each_pre_order t s
      else if kind == 2
      then for_each_in_order t s
      else if kind == 3
      then for_each_post_order t s
      else (pos 0, s)

  -- the specification: one pass over a list
  pub run_list : List A → S → ℤ × S
  run_list [] s = (pos 0, s)
  run_list (x ∷ xs) s = and_then (operation x s) (run_list xs)

  run_list-none : (s : S) → run_list [] s ≡ (pos 0, s)
  unfolding run_list
  run_list-none s = refl

  run_list-append :
      (xs ys : List A) (s : S) → run_list (xs ++ ys) s ≡ and_then (run_list xs s) (run_list ys)
  unfolding run_list
  run_list-append [] ys s = refl
  run_list-append (x ∷ xs) ys s =
      ap (and_then (operation x s)) (fun_ext (run_list-append xs ys))
      ∙ sym (and_then_assoc (operation x s) (run_list xs) (run_list ys))

  -- a step followed by two traversals, each with its list
  run_list-two :
      (f g : S → ℤ × S) (xs ys : List A)
      → ((s : S) → f s ≡ run_list xs s)
      → ((s : S) → g s ≡ run_list ys s)
      → (s : S) → and_then (f s) g ≡ run_list (xs ++ ys) s
  run_list-two f g xs ys hf hg s =
      (λ i. and_then (hf s i) (λ u. hg u i)) ∙ sym (run_list-append xs ys s)

  run_list-one : (x : A) (s : S) → operation x s ≡ run_list (x ∷ []) s
  unfolding run_list
  run_list-one x s = sym (and_then_done (operation x s))

  pre_order_lem : (t : Tree A) (s : S) → for_each_pre_order t s ≡ run_list (preorder t) s
  unfolding for_each_pre_order run_list
  pre_order_lem leaf s = refl
  pre_order_lem (node l x h r) s =
      and_then_assoc (operation x s) (for_each_pre_order l) (for_each_pre_order r)
      ∙ ap (and_then (operation x s))
          (fun_ext (run_list-two _ _ (preorder l) (preorder r) (pre_order_lem l) (pre_order_lem r)))

  in_order_lem : (t : Tree A) (s : S) → for_each_in_order t s ≡ run_list (inorder t) s
  unfolding for_each_in_order run_list
  in_order_lem leaf s = refl
  in_order_lem (node l x h r) s =
      and_then_assoc (for_each_in_order l s) (operation x) (for_each_in_order r)
      ∙ run_list-two _ (λ u. and_then (operation x u) (for_each_in_order r)) (inorder l)
          (x ∷ inorder r) (in_order_lem l)
          (λ u. ap (and_then (operation x u)) (fun_ext (in_order_lem r))) s

  post_order_lem : (t : Tree A) (s : S) → for_each_post_order t s ≡ run_list (postorder t) s
  unfolding for_each_post_order
  post_order_lem leaf s = unfold run_list in refl
  post_order_lem (node l x h r) s =
      and_then_assoc (for_each_post_order l s) (for_each_post_order r) (operation x)
      ∙ run_list-two _ (λ u. and_then (for_each_post_order r u) (operation x)) (postorder l)
          (postorder r ++ (x ∷ [])) (post_order_lem l)
          (run_list-two _ _ (postorder r) (x ∷ []) (post_order_lem r) (run_list-one x)) s

  -- Each traversal is one pass over the data in its order, with the early stop of the operation;
  -- another traversal type visits nothing.
  pub for_each-run_list :
      (t : Tree A) (s : S) (kind : ℕ) → for_each t s kind ≡ run_list (order_of t kind) s
  unfolding for_each order_of
  for_each-run_list t s kind =
      ground (arith, pre_order_lem t s, in_order_lem t s, post_order_lem t s, run_list-none s)
