-- ===== src/Dhcp/Smallest.antt =====
-- dhcp.c, `AllocateSmallestIp`: the address that it finds, and how it puts it together.
use Prim.Native.Nat.{bit_or}
use native.Mathlib.Nat.{div-div-eq-div-mul, div-one, add-mod_right, mod-eq_of_lt}
use native.Mathlib.Decide.{dec_lt}
use mathlib.Core.Path.{subst}
use daher_repo.Prelude.{
  ℕ, zero, suc, ◌+◌, ◌-◌, ◌*◌, ◌/◌, ◌%◌, ◌^◌, ◌≤◌, ◌<◌, ◌≡◌, ◌∙◌, refl, sym, ap, Bool, true, false,
  ◌&&◌, ◌==◌, some, if◌then◌else◌, arith, inl, inr, ◌⊎◌,
}
use daher_repo.Dhcp.{
  Node, null, node, Relatives, zeroth, first, value_of, is_null, is_full_node, relative,
  get_direction, enter, DhcpStatus, success, malloc_failure, allocate_smallest_ip,
}
use daher_repo.Dhcp.Bits.{
  front_direction, front_low, low_direction, high_direction, power_suc, power_split, bit_or_front,
}
use daher_repo.Dhcp.Trie.{
  is_taken, is_taken_at, is_taken_low, IsTrie, Same, Marks-low, full-is_taken,
}
use daher_repo.Dhcp.Granting.{Granted, after, after_lem, after-not_null, enter_lem, IsTrie-relative}
use daher_repo.Dhcp.Allocating.{status}

-- the first address that is not taken
pub record IsSmallest (n : ℕ) (t : Node) (a : ℕ) : Type 0 where
  pub below : a < 2 ^ n
  pub vacant : is_taken t a n ≡ false
  pub least : (j : ℕ) → j < a → is_taken t j n ≡ true

Granted-low :
    (memory : ℕ → Bool) (n : ℕ) (t u : Node) (a b : ℕ) (s : DhcpStatus)
    → a % 2 ^ n ≡ b % 2 ^ n
    → Granted memory n t u a s
    → Granted memory n t u b s
Granted-low memory n t u a b s e (inl (ok, m)) = inl (ok, Marks-low n t u a b true e m)
Granted-low memory n t u a b s e (inr g) = inr g

get_direction_lem :
    (z o : Node)
    → false ≡ (is_full_node z && is_full_node o)
    → ((get_direction z o ≡ zeroth) × (is_full_node z ≡ false))
      ⊎ ((get_direction z o ≡ first) × (is_full_node z ≡ true) × (is_full_node o ≡ false))
unfolding get_direction
get_direction_lem null o e = inl (refl, refl)
get_direction_lem (node z o true) p e = inr (refl, refl, sym e)
get_direction_lem (node z o false) p e = inl (refl, refl)

pub zeroth-IsSmallest :
    (k : ℕ) (z o e : Node) (f : Bool) (a : ℕ)
    → Same k z e
    → IsSmallest k e a
    → IsSmallest (suc k) (node z o f) a
zeroth-IsSmallest k z o e f a same s = record {
  below = omega (arith, power_suc k, s.below);
  vacant = is_taken_at z o f a k zeroth (low_direction a k s.below) ∙ sym (same a) ∙ s.vacant;
  least = λ j h.
      is_taken_at z o f j k zeroth (low_direction j k (omega (arith, h, s.below)))
      ∙ sym (same j)
      ∙ s.least j h;
}

pub first-IsSmallest :
    (k : ℕ) (z o e : Node) (f : Bool) (a : ℕ)
    → IsTrie k z
    → is_full_node z ≡ true
    → Same k o e
    → IsSmallest k e a
    → IsSmallest (suc k) (node z o f) (a + 2 ^ k)
first-IsSmallest k z o e f a w full same s = record {
  below = omega (arith, power_suc k, s.below);
  vacant =
      is_taken_at z o f (a + 2 ^ k) k first (high_direction a k s.below)
      ∙ is_taken_low k o (a + 2 ^ k) a (high_low a s.below)
      ∙ sym (same a)
      ∙ s.vacant;
  least = λ j h. elim (dec_lt j (2 ^ k)) [
    | yes low ↦ is_taken_at z o f j k zeroth (low_direction j k low) ∙ full-is_taken k z j w full
    | no high ↦
        let back : j ≡ (j - 2 ^ k) + 2 ^ k = omega (arith, high) in
        let inside : j - 2 ^ k < a = omega (arith, high, h) in
        let small : j - 2 ^ k < 2 ^ k = omega (arith, inside, s.below) in
        ap (λ x. is_taken (node z o f) x (suc k)) back
        ∙ is_taken_at z o f (j - 2 ^ k + 2 ^ k) k first (high_direction (j - 2 ^ k) k small)
        ∙ is_taken_low k o (j - 2 ^ k + 2 ^ k) (j - 2 ^ k) (high_low (j - 2 ^ k) small)
        ∙ sym (same (j - 2 ^ k))
        ∙ s.least (j - 2 ^ k) inside
  ];
}
  where
    high_low : (x : ℕ) → x < 2 ^ k → (x + 2 ^ k) % 2 ^ k ≡ x % 2 ^ k
    high_low x h = add-mod_right x (2 ^ k)

-- The bit of a node is put in front of the bits that the nodes below it have put together.
gathered :
    (given out a k : ℕ) (d : Relatives)
    → k < 32
    → out < 2 ^ 32
    → out ≡ given / 2 ^ k + a * 2 ^ (32 - k)
    → bit_or (out / 2) (value_of d * 2 ^ 31)
      ≡ given / 2 ^ suc k + (a + 2 ^ k * value_of d) * 2 ^ (32 - suc k)
gathered given out a k d h bound e =
    let step : 32 - k ≡ suc (32 - suc k) = omega (arith, h) in
    let parts : 31 ≡ k + (32 - suc k) = omega (arith, h) in
    let twice : 2 ^ (32 - k) ≡ 2 ^ (32 - suc k) + 2 ^ (32 - suc k) =
      ap (λ x. 2 ^ x) step ∙ power_suc (32 - suc k) in
    let top : 2 ^ 31 ≡ 2 ^ k * 2 ^ (32 - suc k) =
      ap (λ x. 2 ^ x) parts ∙ power_split k (32 - suc k) in
    let halved : given / 2 ^ k / 2 ≡ given / 2 ^ suc k =
      div-div-eq-div-mul given (2 ^ k) 2
      ∙ ap (λ x. given / x) (by_two (2 ^ k) ∙ sym (power_suc k)) in
    bit_or_front 31 (out / 2) d (omega (arith, bound))
    ∙ ap (λ x. out / 2 + value_of d * x) top
    ∙ ap (λ x. x / 2 + value_of d * (2 ^ k * 2 ^ (32 - suc k)))
        (e ∙ ap (λ x. given / 2 ^ k + a * x) twice)
    ∙ ap (λ x. x + value_of d * (2 ^ k * 2 ^ (32 - suc k)))
        (half_sum (given / 2 ^ k) a (2 ^ (32 - suc k)))
    ∙ ap (λ x. x + a * 2 ^ (32 - suc k) + value_of d * (2 ^ k * 2 ^ (32 - suc k))) halved
    ∙ regroup (given / 2 ^ suc k) a (2 ^ (32 - suc k)) (2 ^ k) (value_of d)
  where
    by_two : (w : ℕ) → w * 2 ≡ w + w
    by_two w = omega arith

    half_sum : (x a p : ℕ) → (x + a * (p + p)) / 2 ≡ x / 2 + a * p
    half_sum x a p = omega arith

    regroup : (x a p w v : ℕ) → x + a * p + v * (w * p) ≡ x + (a + w * v) * p
    regroup x a p w v = omega arith

gathered_bound :
    (out : ℕ) (d : Relatives) → out < 2 ^ 32 → bit_or (out / 2) (value_of d * 2 ^ 31) < 2 ^ 32
gathered_bound out zeroth h = omega (arith, h, bit_or_front 31 (out / 2) zeroth (omega (arith, h)))
gathered_bound out first h = omega (arith, h, bit_or_front 31 (out / 2) first (omega (arith, h)))

-- the relative that `GetDirection` chooses
Chosen : Node → Node → Relatives → Type 0
Chosen z o d =
    ((d ≡ zeroth) × (is_full_node z ≡ false))
    ⊎ ((d ≡ first) × (is_full_node z ≡ true) × (is_full_node o ≡ false))

Chosen-not_full :
    (z o : Node) (d : Relatives) → Chosen z o d → is_full_node (relative d z o) ≡ false
unfolding Chosen
Chosen-not_full z o zeroth (inl c) = c.1
Chosen-not_full z o zeroth (inr c) = cc
Chosen-not_full z o first (inl c) = cc
Chosen-not_full z o first (inr c) = c.2

Chosen-IsSmallest :
    (k : ℕ) (z o e : Node) (f : Bool) (a : ℕ) (d : Relatives)
    → IsTrie (suc k) (node z o f)
    → Chosen z o d
    → Same k (relative d z o) e
    → IsSmallest k e a
    → IsSmallest (suc k) (node z o f) (a + 2 ^ k * value_of d)
unfolding Chosen
Chosen-IsSmallest k z o e f a zeroth w (inl c) same s =
    subst (IsSmallest (suc k) (node z o f)) (plus_zero a (2 ^ k))
      (zeroth-IsSmallest k z o e f a same s)
  where
    plus_zero : (a w : ℕ) → a ≡ a + w * 0
    plus_zero a w = omega arith
Chosen-IsSmallest k z o e f a zeroth w (inr c) same s = cc
Chosen-IsSmallest k z o e f a first w (inl c) same s = cc
Chosen-IsSmallest k z o e f a first w (inr c) same s =
    subst (IsSmallest (suc k) (node z o f)) (plus_one a (2 ^ k))
      (first-IsSmallest k z o e f a w.0 c.1 same s)
  where
    plus_one : (a w : ℕ) → a + w ≡ a + w * 1
    plus_one a w = omega arith

-- what `AllocateSmallestIp` comes to
abbrev pub Outcome : (ℕ → Bool) → ℕ → Node → ℕ → Type 0
Outcome memory n t given =
    (u : Node) × (out : ℕ) × (s : DhcpStatus) × (a : ℕ) × (allocate_smallest_ip memory t given n
      ≡ some (u, out, s))
    × IsTrie n u
    × (is_null u ≡ false)
    × IsSmallest n t a
    × Granted memory n t u a s
    × (out < 2 ^ 32)
    × ((s ≡ success) → out ≡ given / 2 ^ n + a * 2 ^ (32 - n))

-- from the relative that is entered to the node
up :
    (memory : ℕ → Bool) (k : ℕ) (z o c : Node) (given out a : ℕ) (s : DhcpStatus)
    → IsTrie (suc k) (node z o false)
    → is_null (enter (memory (suc k)) (relative (get_direction z o) z o)) ≡ false
    → Same k
        (relative (get_direction z o) z o)
        (enter (memory (suc k)) (relative (get_direction z o) z o))
    → allocate_smallest_ip memory
        (enter (memory (suc k)) (relative (get_direction z o) z o))
        given
        k
      ≡ some (c, out, s)
    → IsTrie k c
    → IsSmallest k (enter (memory (suc k)) (relative (get_direction z o) z o)) a
    → Granted memory k (enter (memory (suc k)) (relative (get_direction z o) z o)) c a s
    → out < 2 ^ 32
    → ((s ≡ success) → out ≡ given / 2 ^ k + a * 2 ^ (32 - k))
    → k < 32
    → Outcome memory (suc k) (node z o false) given
unfolding allocate_smallest_ip
up memory k z o c given out a s w entered same run v lowest g bound value short =
    let d = get_direction z o in
    let e = enter (memory (suc k)) (relative (get_direction z o) z o) in
    let front : ℕ = a + 2 ^ k * value_of (get_direction z o) in
    let low : a % 2 ^ k ≡ front % 2 ^ k =
      mod-eq_of_lt lowest.below ∙ sym (front_low (get_direction z o) a k lowest.below) in
    let (kept, granted) =
      after_lem memory k z o e c false front s d w (front_direction d a k lowest.below) same v
        (Granted-low memory k e c a front s low g) in
    let best =
      Chosen-IsSmallest k z o e false a d w (unfold Chosen in get_direction_lem z o w.2) same
        lowest in
    elim (status memory k e c a s g) [
      | inl ok ↦ (
        after d c z o s,
        bit_or (out / 2) (value_of d * 2 ^ 31),
        s,
        front,
        rw (entered, run, ok) refl,
        kept,
        after-not_null d c z o s,
        best,
        granted,
        gathered_bound out d bound,
        (λ _. gathered given out a k d short bound (value ok)),
      )
      | inr failed ↦ (
        after d c z o s,
        out,
        s,
        front,
        rw (entered, run, failed) refl,
        kept,
        after-not_null d c z o s,
        best,
        granted,
        bound,
        (λ ok. let bad : success ≡ malloc_failure = sym ok ∙ failed in cc),
      )
    ]

-- In a trie of at most 32 levels whose flags are right, and that is not full, `AllocateSmallestIp`
-- reads no null pointer and keeps the flags right; it marks the first address that is not taken and
-- puts it into the upper bits of `*allocated_ip`, or fails for want of memory and changes no address.
pub allocate_smallest_ip_lem :
    (memory : ℕ → Bool) (n : ℕ) (t : Node) (given : ℕ)
    → IsTrie n t
    → is_null t ≡ false
    → is_full_node t ≡ false
    → given < 2 ^ 32
    → n ≤ 32
    → Outcome memory n t given
unfolding allocate_smallest_ip
allocate_smallest_ip_lem memory n null given w nn nf small short = cc
allocate_smallest_ip_lem memory n (node z o true) given w nn nf small short = cc
allocate_smallest_ip_lem memory zero (node z o false) given w nn nf small short = (
  node z o true,
  given,
  success,
  0,
  refl,
  w,
  refl,
  record {
    below = omega arith;
    vacant = unfold is_taken in refl;
    least = λ j h. absurd (omega arith);
  },
  inl (refl, (λ j. unfold is_taken in only j)),
  small,
  (λ ok. sym (div-one given) ∙ plain (given / 1)),
)
  where
    only : (j : ℕ) → true ≡ (if j % 2 ^ 0 == 0 % 2 ^ 0 then true else false)
    only j = ground arith

    plain : (x : ℕ) → x ≡ x + 0 * 2 ^ 32
    plain x = omega arith
allocate_smallest_ip_lem memory (suc k) (node z o false) given w nn nf small short =
    let d = get_direction z o in
    let choice : Chosen z o d = unfold Chosen in get_direction_lem z o w.2 in
    let trie_d = IsTrie-relative k z o false d w in
    elim (enter_lem (memory (suc k)) k (relative d z o) trie_d) [
      | inr (entered, trie, same, flag) ↦
          let (c, out, s, a, run, v, there, lowest, g, bound, value) =
            allocate_smallest_ip_lem memory k (enter (memory (suc k)) (relative d z o)) given trie
              entered (flag ∙ Chosen-not_full z o d choice) small (omega (arith, short)) in
          up memory k z o c given out a s w entered same run v lowest g bound value
            (omega (arith, short))
      | inl (empty, lost) ↦ elim (enter_lem true k (relative d z o) trie_d) [
        | inl (_, bad) ↦ cc
        | inr (entered, trie, same, flag) ↦
            let (c, out, s, a, run, v, there, lowest, g, bound, value) =
              allocate_smallest_ip_lem (λ m. true) k (enter true (relative d z o)) given trie
                entered (flag ∙ Chosen-not_full z o d choice) small (omega (arith, short)) in
            (
              node z o false,
              given,
              malloc_failure,
              a + 2 ^ k * value_of d,
              rw empty refl,
              w,
              refl,
              Chosen-IsSmallest k z o (enter true (relative d z o)) false a d w choice same lowest,
              inr (refl, (λ j. refl), refl, (suc k, lost)),
              small,
              (λ ok. let bad : success ≡ malloc_failure = sym ok in cc),
            )
      ]
    ]
