-- ===== src/Dhcp/Granting.antt =====
-- dhcp.c, `AllocateSpecificIp` and `AllocateSmallestIp`: one node of the way down, for both.
use daher_repo.Prelude.{
  ℕ, zero, suc, ◌≡◌, ◌∙◌, refl, sym, ap, Bool, true, false, ◌&&◌, if◌then◌else◌, inl, inr, ◌⊎◌,
}
use daher_repo.Dhcp.{
  Node, null, node, Relatives, zeroth, first, is_null, is_full_node, relative, relate, direction_of,
  update_fullness, enter, node_create, DhcpStatus, success, malloc_failure, double_free,
  free_failure,
}
use daher_repo.Dhcp.Trie.{is_taken, IsTrie, Same, Marks, Marks-relate, Same-relate, Marks-after}

-- The address has been marked, or else memory ran out and no address has changed.
abbrev pub Granted : (ℕ → Bool) → ℕ → Node → Node → ℕ → DhcpStatus → Type 0
Granted memory n t u a s =
    ((s ≡ success) × Marks n t u a true)
    ⊎ ((s ≡ malloc_failure)
        × Same n t u
        × (is_full_node u ≡ false)
        × ((m : ℕ) × (memory m ≡ false)))

-- What `enter` leads to: nothing where memory ran out, and else a node like the relative.
pub enter_lem :
    (m : Bool) (k : ℕ) (c : Node)
    → IsTrie k c
    → ((is_null (enter m c) ≡ true) × (m ≡ false))
      ⊎ ((is_null (enter m c) ≡ false)
          × IsTrie k (enter m c)
          × Same k c (enter m c)
          × (is_full_node (enter m c) ≡ is_full_node c))
unfolding enter node_create is_taken
enter_lem false k null w = inl (refl, refl)
enter_lem true zero null w = inr (refl, (refl, refl), (λ j. refl), refl)
enter_lem true (suc k) null w = inr (refl, (tt, tt, refl), (λ j. empty (direction_of j k) j), refl)
  where
    empty : (d : Relatives) (j : ℕ) → is_taken (relative d null null) j k ≡ false
    empty zeroth j = refl
    empty first j = refl
enter_lem m k (node z o f) w = inr (refl, w, (λ j. refl), refl)

pub IsTrie-relative :
    (k : ℕ) (z o : Node) (f : Bool) (d : Relatives)
    → IsTrie (suc k) (node z o f)
    → IsTrie k (relative d z o)
IsTrie-relative k z o f zeroth w = w.0
IsTrie-relative k z o f first w = w.1

-- the node after the recursive call
abbrev pub after : Relatives → Node → Node → Node → DhcpStatus → Node
after d c z o success = update_fullness (relate d c z o false)
after d c z o s = relate d c z o false

pub after-not_null :
    (d : Relatives) (c z o : Node) (s : DhcpStatus) → is_null (after d c z o s) ≡ false
unfolding update_fullness
after-not_null zeroth c z o success = refl
after-not_null zeroth c z o double_free = refl
after-not_null zeroth c z o free_failure = refl
after-not_null zeroth c z o malloc_failure = refl
after-not_null first c z o success = refl
after-not_null first c z o double_free = refl
after-not_null first c z o free_failure = refl
after-not_null first c z o malloc_failure = refl

both : (a : Bool) → (if a then true else false) ≡ a
both true = refl
both false = refl

raise-IsTrie :
    (k : ℕ) (z o c : Node) (f : Bool) (d : Relatives)
    → IsTrie (suc k) (node z o f)
    → IsTrie k c
    → IsTrie (suc k) (update_fullness (relate d c z o false))
unfolding update_fullness
raise-IsTrie k z o c f zeroth w v = (v, w.1, both (is_full_node c && is_full_node o))
raise-IsTrie k z o c f first w v = (w.0, v, both (is_full_node z && is_full_node c))

raise-Marks :
    (k : ℕ) (z o c : Node) (f : Bool) (a : ℕ) (d : Relatives)
    → direction_of a k ≡ d
    → Marks k (relative d z o) c a true
    → Marks (suc k) (node z o f) (update_fullness (relate d c z o false)) a true
unfolding update_fullness
raise-Marks k z o c f a zeroth at m =
    Marks-relate k z o c f (if is_full_node c && is_full_node o then true else false) a true zeroth
      at m
raise-Marks k z o c f a first at m =
    Marks-relate k z o c f (if is_full_node z && is_full_node c then true else false) a true first
      at m

pub keep-IsTrie :
    (k : ℕ) (z o c : Node) (f : Bool) (d : Relatives)
    → IsTrie (suc k) (node z o f)
    → IsTrie k c
    → is_full_node c ≡ false
    → IsTrie (suc k) (relate d c z o false)
keep-IsTrie k z o c f zeroth w v e = (v, w.1, sym (ap (λ x. x && is_full_node o) e))
keep-IsTrie k z o c f first w v e =
    (w.0, v, sym (ap (λ x. is_full_node z && x) e ∙ never (is_full_node z)))
  where
    never : (x : Bool) → (x && false) ≡ false
    never true = refl
    never false = refl

pub relate-not_null : (d : Relatives) (c z o : Node) → is_null (relate d c z o false) ≡ false
relate-not_null zeroth c z o = refl
relate-not_null first c z o = refl

pub relate-not_full : (d : Relatives) (c z o : Node) → is_full_node (relate d c z o false) ≡ false
relate-not_full zeroth c z o = refl
relate-not_full first c z o = refl

-- What the recursive call has done below one relative holds of the node.
pub after_lem :
    (memory : ℕ → Bool) (k : ℕ) (z o e c : Node) (f : Bool) (a : ℕ) (s : DhcpStatus) (d : Relatives)
    → IsTrie (suc k) (node z o f)
    → direction_of a k ≡ d
    → Same k (relative d z o) e
    → IsTrie k c
    → Granted memory k e c a s
    → IsTrie (suc k) (after d c z o s) × Granted memory (suc k) (node z o f) (after d c z o s) a s
after_lem memory k z o e c f a s d w at same v g = elim g [
  | inl (ok, m) ↦
      let marked = Marks-after k (relative d z o) e c a true same m in
      rw ok (raise-IsTrie k z o c f d w v, inl (refl, raise-Marks k z o c f a d at marked))
  | inr (failed, kept, not_full, short) ↦ rw failed (
    keep-IsTrie k z o c f d w v not_full,
    inr (
      refl,
      Same-relate k z o c f false d (λ j. kept j ∙ same j),
      relate-not_full d c z o,
      short,
    ),
  )
]
