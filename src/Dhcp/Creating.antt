-- ===== src/Dhcp/Creating.antt =====
-- dhcp.c, `DhcpCreate` and `DhcpInit`: the two addresses that a new network holds.
use mathlib.Core.Path.{subst}
use native.Mathlib.Decide.{dec_lt}
use daher_repo.Prelude.{
  ℕ, zero, suc, ◌+◌, ◌-◌, ◌*◌, ◌%◌, ◌^◌, ◌≤◌, ◌<◌, ◌≡◌, ◌∙◌, refl, sym, ap, Bool, true, false, ◌&&◌,
  ◌||◌, ◌==◌, Option, none, some, if◌then◌else◌, arith, inl, inr, sub_word,
}
use daher_repo.Dhcp.{
  Dhcp, Node, null, node, zeroth, first, is_null, is_full_node, value_of, direction_of, zero_spine,
  one_spine, init, dhcp_create,
}
use daher_repo.Dhcp.Bits.{low_bits, low_below, power_suc, power_pos}
use daher_repo.Dhcp.Trie.{is_taken, is_taken_at, IsTrie, side}
use daher_repo.Dhcp.Network.{IsDhcp, has, width}

low_zeroth : (j k : ℕ) → direction_of j k ≡ zeroth → j % 2 ^ suc k ≡ j % 2 ^ k
low_zeroth j k e =
    low_bits j k ∙ ap (λ d. j % 2 ^ k + 2 ^ k * value_of d) e ∙ plain (j % 2 ^ k) (2 ^ k)
  where
    plain : (x w : ℕ) → x + w * 0 ≡ x
    plain x w = omega arith

low_first : (j k : ℕ) → direction_of j k ≡ first → j % 2 ^ suc k ≡ j % 2 ^ k + 2 ^ k
low_first j k e =
    low_bits j k ∙ ap (λ d. j % 2 ^ k + 2 ^ k * value_of d) e ∙ plain (j % 2 ^ k) (2 ^ k)
  where
    plain : (x w : ℕ) → x + w * 1 ≡ x + w
    plain x w = omega arith

-- A spine with memory: one leaf, and the address of it.
abbrev Spine : Option Node → ℕ → (ℕ → Bool) → Type 0
Spine o k p =
    (t : Node) × (o ≡ some t)
    × IsTrie k t
    × (is_null t ≡ false)
    × (is_full_node t ≡ (k == 0))
    × ((j : ℕ) → is_taken t j k ≡ p j)

is_taken_null : (j k : ℕ) → is_taken null j k ≡ false
unfolding is_taken
is_taken_null j k = refl

not_zero : (k : ℕ) → (suc k == 0) ≡ false
not_zero k = ground arith

zero_spine_lem :
    (memory : ℕ → Bool) (k : ℕ)
    → ((m : ℕ) → memory m ≡ true)
    → Spine (zero_spine memory k) k (λ j. j % 2 ^ k == 0)
unfolding zero_spine
zero_spine_lem memory zero h =
    (node null null true, rw (h 0) refl, (refl, refl), refl, refl, (λ j. unfold is_taken in only j))
  where
    only : (j : ℕ) → true ≡ (j % 2 ^ 0 == 0)
    only j = ground arith
zero_spine_lem memory (suc k) h =
    let (t, run, w, there, full, taken) = zero_spine_lem memory k h in
    (
      node t null false,
      rw (h (suc k), run) refl,
      (w, tt, sym (none_full (is_full_node t))),
      refl,
      sym (not_zero k),
      (λ j. elim (side (direction_of j k)) [
        | inl z ↦
            is_taken_at t null false j k zeroth z
            ∙ taken j
            ∙ ap (λ x. x == 0) (sym (low_zeroth j k z))
        | inr o ↦
            is_taken_at t null false j k first o
            ∙ is_taken_null j k
            ∙ above (j % 2 ^ suc k) (j % 2 ^ k) (2 ^ k) (low_first j k o) (power_pos k)
      ]),
    )
  where
    none_full : (b : Bool) → (b && false) ≡ false
    none_full true = refl
    none_full false = refl

    above : (x y w : ℕ) → x ≡ y + w → 0 < w → false ≡ (x == 0)
    above x y w e p = ground arith

one_spine_lem :
    (memory : ℕ → Bool) (k : ℕ)
    → ((m : ℕ) → memory m ≡ true)
    → Spine (one_spine memory k) k (λ j. j % 2 ^ k == 2 ^ k - 1)
unfolding one_spine
one_spine_lem memory zero h =
    (node null null true, rw (h 0) refl, (refl, refl), refl, refl, (λ j. unfold is_taken in only j))
  where
    only : (j : ℕ) → true ≡ (j % 2 ^ 0 == 2 ^ 0 - 1)
    only j = ground arith
one_spine_lem memory (suc k) h =
    let (t, run, w, there, full, taken) = one_spine_lem memory k h in
    (
      node null t false,
      rw (h (suc k), run) refl,
      (tt, w, refl),
      refl,
      sym (not_zero k),
      (λ j. elim (side (direction_of j k)) [
        | inl z ↦
            is_taken_at null t false j k zeroth z
            ∙ is_taken_null j k
            ∙ below (j % 2 ^ suc k) (j % 2 ^ k) (2 ^ k) (2 ^ suc k) (low_zeroth j k z) (power_suc k)
                (low_below j k)
        | inr o ↦
            is_taken_at null t false j k first o
            ∙ taken j
            ∙ upper (j % 2 ^ suc k) (j % 2 ^ k) (2 ^ k) (2 ^ suc k) (low_first j k o) (power_suc k)
                (power_pos k)
      ]),
    )
  where
    below : (x y w v : ℕ) → x ≡ y → v ≡ w + w → y < w → false ≡ (x == v - 1)
    below x y w v e d h = ground arith

    upper : (x y w v : ℕ) → x ≡ y + w → v ≡ w + w → 0 < w → (y == w - 1) ≡ (x == v - 1)
    upper x y w v e d h = ground arith

init_lem :
    (zeros ones : ℕ → Bool) (k : ℕ)
    → ((m : ℕ) → zeros m ≡ true)
    → ((m : ℕ) → ones m ≡ true)
    → (t : Node) × (init zeros ones (suc (suc k)) ≡ some t)
      × IsTrie (suc (suc k)) t
      × (is_null t ≡ false)
      × ((j : ℕ)
          → is_taken t j (suc (suc k))
            ≡ ((j % 2 ^ suc (suc k) == 0) || (j % 2 ^ suc (suc k) == 2 ^ suc (suc k) - 1)))
unfolding init
init_lem zeros ones k h i =
    let (z, run_z, w_z, there_z, full_z, taken_z) = zero_spine_lem zeros (suc k) h in
    let (o, run_o, w_o, there_o, full_o, taken_o) = one_spine_lem ones (suc k) i in
    (
      node z o false,
      rw (run_z, run_o) refl,
      (w_z, w_o, sym (ap (λ x. x && is_full_node o) (full_z ∙ not_zero k))),
      refl,
      (λ j. elim (side (direction_of j (suc k))) [
        | inl e ↦
            is_taken_at z o false j (suc k) zeroth e
            ∙ taken_z j
            ∙ at_zero (j % 2 ^ suc (suc k)) (j % 2 ^ suc k) (2 ^ suc k) (2 ^ suc (suc k))
                (low_zeroth j (suc k) e) (power_suc (suc k)) (low_below j (suc k))
        | inr e ↦
            is_taken_at z o false j (suc k) first e
            ∙ taken_o j
            ∙ at_end (j % 2 ^ suc (suc k)) (j % 2 ^ suc k) (2 ^ suc k) (2 ^ suc (suc k))
                (low_first j (suc k) e) (power_suc (suc k)) (power_pos (suc k))
      ]),
    )
  where
    at_zero : (x y w v : ℕ) → x ≡ y → v ≡ w + w → y < w → (y == 0) ≡ ((x == 0) || (x == v - 1))
    at_zero x y w v e d h = ground arith

    at_end :
        (x y w v : ℕ) → x ≡ y + w → v ≡ w + w → 0 < w → (y == w - 1) ≡ ((x == 0) || (x == v - 1))
    at_end x y w v e d h = ground arith

-- With memory, `DhcpCreate` of a network of 2 to 32 host bits makes one with right flags in which the
-- first and the last address are taken, and no other.
pub dhcp_create_lem :
    (zeros ones : ℕ → Bool) (sub_net network : ℕ)
    → ((m : ℕ) → zeros m ≡ true)
    → ((m : ℕ) → ones m ≡ true)
    → network ≤ 30
    → (d : Dhcp) × (dhcp_create true true zeros ones sub_net network ≡ some (some d))
      × IsDhcp d
      × (width d ≡ 32 - network)
      × (d.sub_net ≡ sub_net)
      × ((j : ℕ) → has d j ≡ ((j % 2 ^ width d == 0) || (j % 2 ^ width d == 2 ^ width d - 1)))
unfolding dhcp_create
dhcp_create_lem zeros ones sub_net network h i few =
    let bits : sub_word 32 network ≡ 32 - network = omega (arith, few) in
    let shape : 32 - network ≡ suc (suc (30 - network)) = omega (arith, few) in
    let (t, run, w, there, taken) =
      subst
        (λ n.
          (t : Node) × (init zeros ones n ≡ some t)
          × IsTrie n t
          × (is_null t ≡ false)
          × ((j : ℕ) → is_taken t j n ≡ ((j % 2 ^ n == 0) || (j % 2 ^ n == 2 ^ n - 1))))
        (sym shape) (init_lem zeros ones (30 - network) h i) in
    (
      record { root = t; num_of_bits_for_network = network; sub_net = sub_net },
      rw (bits, run) refl,
      record { hosts = omega (arith, few); trie = w; there = there },
      refl,
      refl,
      taken,
    )

zero_spine_null :
    (memory : ℕ → Bool) (k m : ℕ) → m ≤ k → memory m ≡ false → zero_spine memory k ≡ none
unfolding zero_spine
zero_spine_null memory zero m h e = rw (ap memory (bottom m h) ∙ e) refl
  where
    bottom : (m : ℕ) → m ≤ 0 → 0 ≡ m
    bottom m h = omega (arith, h)
zero_spine_null memory (suc k) m h e = elim (dec_lt m (suc k)) [
  | yes l ↦
      rw (zero_spine_null memory k m (omega (arith, l)) e) (none_either (memory (suc k)) none refl)
  | no g ↦ let top : suc k ≡ m = omega (arith, g, h) in rw (ap memory top ∙ e) refl
]
  where
    none_either : (b : Bool) (x : Option Node) → x ≡ none → (if b then x else none) ≡ none
    none_either true x e = e
    none_either false x e = refl

-- `DhcpCreate` of a network with host bits reads a null pointer when a `malloc` for the zero spine
-- fails: the test for it comes after the reads.
pub dhcp_create_null :
    (zeros ones : ℕ → Bool) (sub_net network m : ℕ)
    → network < 32
    → m + network < 32
    → zeros m ≡ false
    → dhcp_create true true zeros ones sub_net network ≡ none
unfolding dhcp_create init
dhcp_create_null zeros ones sub_net network m h inside e =
    let bits : sub_word 32 network ≡ suc (31 - network) = omega (arith, h) in
    rw (bits, zero_spine_null zeros (31 - network) m (omega (arith, inside)) e) refl
