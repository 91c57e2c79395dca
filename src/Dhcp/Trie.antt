-- ===== src/Dhcp/Trie.antt =====
-- dhcp.c: which addresses a trie holds, when its flags are right, and what a change of one relative
-- means to both.
use daher_repo.Prelude.{
  ℕ, zero, suc, ◌+◌, ◌*◌, ◌%◌, ◌^◌, ◌<◌, ◌≡◌, ◌∙◌, refl, sym, ap, Bool, true, false, ◌&&◌, ◌==◌,
  if◌then◌else◌, arith, Bool-cases, inl, inr, ◌⊎◌,
}
use daher_repo.Dhcp.{
  Node, null, node, Relatives, zeroth, first, value_of, is_full_node, relative, relate,
  direction_of,
}
use daher_repo.Dhcp.Bits.{low_bits, low_split, low_below}

-- The leaf of an address is there, and full.
unfoldable pub is_taken : Node → ℕ → ℕ → Bool
is_taken null j n = false
is_taken (node z o f) j zero = f
is_taken (node z o f) j (suc k) = is_taken (relative (direction_of j k) z o) j k

pub is_taken_at :
    (z o : Node) (f : Bool) (j k : ℕ) (d : Relatives)
    → direction_of j k ≡ d
    → is_taken (node z o f) j (suc k) ≡ is_taken (relative d z o) j k
unfolding is_taken
is_taken_at z o f j k d e = ap (λ d. is_taken (relative d z o) j k) e

-- A node above the leaves is marked full where both relatives are there and full.
abbrev pub IsTrie : ℕ → Node → Type 0
IsTrie n null = Unit
IsTrie zero (node z o f) = (z ≡ null) × (o ≡ null)
IsTrie (suc k) (node z o f) = IsTrie k z × IsTrie k o × (f ≡ (is_full_node z && is_full_node o))

-- The same addresses are taken.
abbrev pub Same : ℕ → Node → Node → Type 0
Same n t u = (j : ℕ) → is_taken u j n ≡ is_taken t j n

-- The address is taken or not, as said, and the others are as they were.
abbrev pub Marks : ℕ → Node → Node → ℕ → Bool → Type 0
Marks n t u a b = (j : ℕ) → is_taken u j n ≡ (if j % 2 ^ n == a % 2 ^ n then b else is_taken t j n)

pub and_cases : (a b : Bool) → true ≡ (a && b) → (a ≡ true) × (b ≡ true)
and_cases true true e = (refl, refl)
and_cases true false e = cc
and_cases false b e = cc

pub full-is_taken :
    (n : ℕ) (t : Node) (j : ℕ) → IsTrie n t → is_full_node t ≡ true → is_taken t j n ≡ true
unfolding is_taken
full-is_taken n null j w f = cc
full-is_taken zero (node z o f) j w e = e
full-is_taken (suc k) (node z o f) j w e =
    let (p, q) = and_cases (is_full_node z) (is_full_node o) (sym e ∙ w.2) in
    below (direction_of j k) (full-is_taken k z j w.0 p) (full-is_taken k o j w.1 q)
  where
    below :
        (d : Relatives)
        → is_taken z j k ≡ true
        → is_taken o j k ≡ true
        → is_taken (relative d z o) j k ≡ true
    below zeroth p q = p
    below first p q = q

-- An address that is not taken lies below no full node.
pub free-not_full :
    (n : ℕ) (t : Node) (j : ℕ) → IsTrie n t → is_taken t j n ≡ false → is_full_node t ≡ false
free-not_full n t j w e = elim (Bool-cases (is_full_node t)) [
  | inl full ↦ let bad : true ≡ false = sym (full-is_taken n t j w full) ∙ e in cc
  | inr f ↦ f
]

pub is_taken_low :
    (n : ℕ) (t : Node) (i j : ℕ) → i % 2 ^ n ≡ j % 2 ^ n → is_taken t i n ≡ is_taken t j n
unfolding is_taken
is_taken_low n null i j e = refl
is_taken_low zero (node z o f) i j e = refl
is_taken_low (suc k) (node z o f) i j e =
    let (d, low) = low_split i j k e in
    ap (λ d. is_taken (relative d z o) i k) d
    ∙ is_taken_low k (relative (direction_of j k) z o) i j low

pub Marks-low :
    (n : ℕ) (t u : Node) (a c : ℕ) (b : Bool)
    → a % 2 ^ n ≡ c % 2 ^ n
    → Marks n t u a b
    → Marks n t u c b
Marks-low n t u a c b e m j = m j ∙ ap (λ x. if j % 2 ^ n == x then b else is_taken t j n) e

pub Marks-after :
    (n : ℕ) (t u v : Node) (a : ℕ) (b : Bool) → Same n t u → Marks n u v a b → Marks n t v a b
Marks-after n t u v a b s m j = m j ∙ ap (λ x. if j % 2 ^ n == a % 2 ^ n then b else x) (s j)

same_side : (x y w d : ℕ) → ((x + w * d) == (y + w * d)) ≡ (x == y)
same_side x y w d = moved (w * d)
  where
    moved : (v : ℕ) → ((x + v) == (y + v)) ≡ (x == y)
    moved v = ground arith

other_side : (x y w : ℕ) → x < w → y < w → ((x + w * 0) == (y + w * 1)) ≡ false
other_side x y w p q = ground arith

-- Two addresses that go the same way at `k` are told apart by the bits below; others are apart.
same_test :
    (j a k : ℕ)
    → direction_of j k ≡ direction_of a k
    → (j % 2 ^ suc k == a % 2 ^ suc k) ≡ (j % 2 ^ k == a % 2 ^ k)
same_test j a k e =
    ap (λ x. x == a % 2 ^ suc k) (low_bits j k ∙ ap (λ d. j % 2 ^ k + 2 ^ k * value_of d) e)
    ∙ ap (λ y. (j % 2 ^ k + 2 ^ k * value_of (direction_of a k)) == y) (low_bits a k)
    ∙ same_side (j % 2 ^ k) (a % 2 ^ k) (2 ^ k) (value_of (direction_of a k))

apart_test :
    (j a k : ℕ) (d e : Relatives)
    → direction_of j k ≡ d
    → direction_of a k ≡ e
    → (value_of d == value_of e) ≡ false
    → (j % 2 ^ suc k == a % 2 ^ suc k) ≡ false
apart_test j a k d e p q ne =
    ap (λ x. x == a % 2 ^ suc k) (low_bits j k ∙ ap (λ d. j % 2 ^ k + 2 ^ k * value_of d) p)
    ∙ ap (λ y. (j % 2 ^ k + 2 ^ k * value_of d) == y)
        (low_bits a k ∙ ap (λ d. a % 2 ^ k + 2 ^ k * value_of d) q)
    ∙ apart (j % 2 ^ k) (a % 2 ^ k) (2 ^ k) d e (low_below j k) (low_below a k) ne
  where
    apart :
        (x y w : ℕ) (d e : Relatives)
        → x < w
        → y < w
        → (value_of d == value_of e) ≡ false
        → ((x + w * value_of d) == (y + w * value_of e)) ≡ false
    apart x y w zeroth zeroth p q ne = cc
    apart x y w zeroth first p q ne = ground arith
    apart x y w first zeroth p q ne = ground arith
    apart x y w first first p q ne = cc

pub side : (d : Relatives) → (d ≡ zeroth) ⊎ (d ≡ first)
side zeroth = inl refl
side first = inr refl

-- A change below one relative is a change of the addresses that go there.
pub Marks-relate :
    (k : ℕ) (z o c : Node) (f g : Bool) (a : ℕ) (b : Bool) (d : Relatives)
    → direction_of a k ≡ d
    → Marks k (relative d z o) c a b
    → Marks (suc k) (node z o f) (relate d c z o g) a b
Marks-relate k z o c f g a b d at m j = go (direction_of j k) d refl at m
  where
    go :
        (e d : Relatives)
        → direction_of j k ≡ e
        → direction_of a k ≡ d
        → Marks k (relative d z o) c a b
        → is_taken (relate d c z o g) j (suc k)
          ≡ (if j % 2 ^ suc k == a % 2 ^ suc k then b else is_taken (node z o f) j (suc k))
    go zeroth zeroth p at m =
        is_taken_at c o g j k zeroth p
        ∙ m j
        ∙ rw (same_test j a k (p ∙ sym at), is_taken_at z o f j k zeroth p) refl
    go first first p at m =
        is_taken_at z c g j k first p
        ∙ m j
        ∙ rw (same_test j a k (p ∙ sym at), is_taken_at z o f j k first p) refl
    go zeroth first p at m =
        is_taken_at z c g j k zeroth p
        ∙ rw (apart_test j a k zeroth first p at refl, is_taken_at z o f j k zeroth p) refl
    go first zeroth p at m =
        is_taken_at c o g j k first p
        ∙ rw (apart_test j a k first zeroth p at refl, is_taken_at z o f j k first p) refl

pub Same-relate :
    (k : ℕ) (z o c : Node) (f g : Bool) (d : Relatives)
    → Same k (relative d z o) c
    → Same (suc k) (node z o f) (relate d c z o g)
Same-relate k z o c f g zeroth s j = elim (side (direction_of j k)) [
  | inl p ↦ is_taken_at c o g j k zeroth p ∙ s j ∙ sym (is_taken_at z o f j k zeroth p)
  | inr p ↦ is_taken_at c o g j k first p ∙ sym (is_taken_at z o f j k first p)
]
Same-relate k z o c f g first s j = elim (side (direction_of j k)) [
  | inl p ↦ is_taken_at z c g j k zeroth p ∙ sym (is_taken_at z o f j k zeroth p)
  | inr p ↦ is_taken_at z c g j k first p ∙ s j ∙ sym (is_taken_at z o f j k first p)
]
