-- ===== src/Hash/Rows.antt =====
-- hash.c: the buckets of a table, side by side in a store.
use mathlib.Core.Path.{subst}
use daher_repo.Prelude.{
  ℕ, ◌<◌, ◌≡◌, ◌≢◌, ◌∙◌, refl, sym, ap, true, false, Option, some, List, ◌==◌, if◌then◌else◌,
  get_elem?, All, inl, inr, ◌⊎◌, Bool-cases, ==→eq,
}
use daher_repo.Dlist.{Store, Dlist}
use daher_repo.Dlist.Segments.{eq_test, same_test, Outside, Outside-swap, Seg-frame}
use daher_repo.Dlist.View.{IsDlist, full}
use daher_repo.Hash.{HashTable}

eq_cases : (a b : ℕ) → (a ≡ b) ⊎ (a ≢ b)
eq_cases a b = elim (Bool-cases (a == b)) [
  | inl t ↦ inl (==→eq a b t)
  | inr f ↦ inr (λ e. let bad : true ≡ false = sym (ap (λ n. n == b) e ∙ same_test b) ∙ f in cc)
]

-- No cell of the one has an address of the other.
abbrev pub Apart {ℓ} : {A : Type ℓ} → List (ℕ × Option A) → List (ℕ × Option A) → Type 0
Apart cs ds = All (λ c. Outside c.0 ds) cs

Apart-by {ℓ} :
    {A : Type ℓ} (cs ds : List (ℕ × Option A)) {cs' ds' : List (ℕ × Option A)}
    → cs ≡ cs'
    → ds ≡ ds'
    → Apart cs' ds'
    → Apart cs ds
Apart-by cs ds {cs'} {ds'} e d a =
    subst (λ c. Apart c ds) (sym e) (subst (λ c. Apart cs' c) (sym d) a)

module _ {ℓ} {A : Type ℓ} (table : HashTable A) (bucket : ℕ → Dlist) where
  -- The store holds the buckets of a table, with these cells in each, and no two share an address.
  pub record IsTable (h : Store A) (rows : ℕ → List (ℕ × A)) : Type ℓ where
    pub there : (i : ℕ) → i < table.capacity → get_elem? table.hash_arr i ≡ some (bucket i)
    pub holds : (i : ℕ) → i < table.capacity → IsDlist h (bucket i) (rows i)
    pub apart :
        (i j : ℕ)
        → i < table.capacity
        → j < table.capacity
        → i ≢ j
        → Apart (full (bucket i) (rows i)) (full (bucket j) (rows j))

  abbrev pub with_row : (ℕ → List (ℕ × A)) → ℕ → List (ℕ × A) → ℕ → List (ℕ × A)
  with_row rows i ys j = if j == i then ys else rows j

  pub row_same : (rows : ℕ → List (ℕ × A)) (i : ℕ) (ys : List (ℕ × A)) → with_row rows i ys i ≡ ys
  row_same rows i ys = rw (same_test i) refl

  pub row_other :
      (rows : ℕ → List (ℕ × A)) (i : ℕ) (ys : List (ℕ × A)) (j : ℕ)
      → j ≢ i
      → with_row rows i ys j ≡ rows j
  row_other rows i ys j ne = rw (eq_test j i ne) refl

  -- One bucket changes, and the store keeps the cells of the others.
  pub change_row :
      (h g : Store A) (rows : ℕ → List (ℕ × A)) (i : ℕ) (ys : List (ℕ × A))
      → IsTable h rows
      → IsDlist g (bucket i) ys
      → ((j : ℕ) → j < table.capacity → j ≢ i → All (λ c. g c.0 ≡ h c.0) (full (bucket j) (rows j)))
      → ((j : ℕ)
          → j < table.capacity
          → j ≢ i
          → Apart (full (bucket i) ys) (full (bucket j) (rows j)))
      → IsTable g (with_row rows i ys)
  change_row h g rows i ys t w same new = record {
    there = t.there;
    holds = λ j p. elim (eq_cases j i) [
      | inl e ↦
          subst (λ r. IsDlist g (bucket j) r) (sym (ap (with_row rows i ys) e ∙ row_same rows i ys))
            (subst (λ k. IsDlist g (bucket k) ys) (sym e) w)
      | inr ne ↦
          let v = t.holds j p in
          subst (λ r. IsDlist g (bucket j) r) (sym (row_other rows i ys j ne))
            (record {
              chain = Seg-frame h g 0 (full (bucket j) (rows j)) 0 (same j p ne) v.chain;
              distinct = v.distinct;
            })
    ];
    apart = λ j k p q ne.
        let cells_in : ℕ → List (ℕ × Option A) = (λ n. full (bucket n) (with_row rows i ys n)) in
        let old : ℕ → List (ℕ × Option A) = (λ n. full (bucket n) (rows n)) in
        let mine : (n : ℕ) → n ≡ i → cells_in n ≡ full (bucket i) ys =
          (λ n e. ap cells_in e ∙ ap (full (bucket i)) (row_same rows i ys)) in
        let others : (n : ℕ) → n ≢ i → cells_in n ≡ old n =
          (λ n d. ap (full (bucket n)) (row_other rows i ys n d)) in
        elim (eq_cases j i) [
          | inl a ↦ elim (eq_cases k i) [
            | inl b ↦ absurd (ne (a ∙ sym b))
            | inr b ↦ Apart-by (cells_in j) (cells_in k) (mine j a) (others k b) (new k q b)
          ]
          | inr a ↦ elim (eq_cases k i) [
            | inl b ↦
                Apart-by (cells_in j) (cells_in k) (others j a) (mine k b)
                  (Outside-swap (full (bucket i) ys) (old j) (new j p a))
            | inr b ↦
                Apart-by (cells_in j) (cells_in k) (others j a) (others k b) (t.apart j k p q ne)
          ]
        ];
  }
