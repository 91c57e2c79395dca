-- ===== src/Dhcp/Assigning.antt =====
-- dhcp.c, `DhcpAllocateIp`: which address a request is given.
use Prim.Native.Nat.{bit_or}
use native.Mathlib.Nat.{div-eq_of_lt, div-div-eq-div-mul, add-mul-div_right}
use daher_repo.Prelude.{
  ℕ, ◌+◌, ◌-◌, ◌*◌, ◌/◌, ◌%◌, ◌^◌, ◌<◌, ◌≡◌, ◌≢◌, ◌∙◌, refl, sym, ap, Bool, true, false, ◌||◌, ◌==◌,
  some, arith, Bool-cases, inl, inr, ◌⊎◌,
}
use daher_repo.Prelude.{bit_or_comm}
use daher_repo.Dhcp.{
  Dhcp, Node, null, node, is_full_node, DhcpStatus, success, malloc_failure, with_root, allocate_ip,
  allocate_smallest_ip, is_occupied,
}
use daher_repo.Dhcp.Bits.{power_pos, low_below}
use daher_repo.Dhcp.Trie.{Same, Marks, full-is_taken}
use daher_repo.Dhcp.Granting.{Granted}
use daher_repo.Dhcp.Allocating.{allocate_specific_ip_lem, status}
use daher_repo.Dhcp.Smallest.{IsSmallest, allocate_smallest_ip_lem}
use daher_repo.Dhcp.Freeing.{leaf_missing, is_occupied-is_taken}
use daher_repo.Dhcp.Network.{IsDhcp, width, has, has_low, num_of_bits_lem, host_part_lem, all_bits}

-- the address behind the bits of the network
shifted_out :
    (d : Dhcp) (given a : ℕ)
    → IsDhcp d
    → given < 2 ^ 32
    → (given / 2 ^ width d + a * 2 ^ (32 - width d)) / 2 ^ d.num_of_bits_for_network ≡ a
shifted_out d given a v small =
    let s = d.num_of_bits_for_network in
    let n = width d in
    ap (λ x. (given / 2 ^ n + a * 2 ^ x) / 2 ^ s) (back s v.hosts)
    ∙ add-mul-div_right (given / 2 ^ n) a (power_pos s)
    ∙ ap (λ x. x + a)
        (div-div-eq-div-mul given (2 ^ n) (2 ^ s)
          ∙ ap (λ x. given / x) (sym (all_bits s v.hosts))
          ∙ div-eq_of_lt small)
    ∙ plain a
  where
    back : (s : ℕ) → s < 32 → 32 - (32 - s) ≡ s
    back s h = omega (arith, h)

    plain : (a : ℕ) → 0 + a ≡ a
    plain a = omega arith

-- What `DhcpAllocateIp` comes to where the address `a` is what it tries to mark.
abbrev pub Assigned : (ℕ → Bool) → Dhcp → ℕ → ℕ → ℕ → Type 0
Assigned memory d given requested a =
    (u : Node) × (out : ℕ) × (s : DhcpStatus) × (allocate_ip memory d given requested
      ≡ some (with_root d u, out, s))
    × IsDhcp (with_root d u)
    × Granted memory (width d) d.root u a s
    × ((s ≡ success) → out ≡ bit_or d.sub_net a)

-- A request of no address, or of one that counts as occupied, while the network is not full.
smallest :
    (memory : ℕ → Bool) (d : Dhcp) (given requested : ℕ)
    → IsDhcp d
    → given < 2 ^ 32
    → is_full_node d.root ≡ false
    → ((requested == 0) || is_occupied d.root (requested % 2 ^ width d) (width d)) ≡ true
    → (a : ℕ) × IsSmallest (width d) d.root a × Assigned memory d given requested a
unfolding allocate_ip
smallest memory d given requested v small not_full test =
    let (u, out, s, a, run, w, there, lowest, g, bound, value) =
      allocate_smallest_ip_lem memory (width d) d.root given v.trie v.there not_full small
        (omega arith) in
    (
      a,
      lowest,
      (
        u,
        bit_or (out / 2 ^ d.num_of_bits_for_network) d.sub_net,
        s,
        rw (host_part_lem d requested v, num_of_bits_lem d v, test, run) refl,
        record { hosts = v.hosts; trie = w; there = there },
        g,
        (λ ok.
            bit_or_comm (out / 2 ^ d.num_of_bits_for_network) d.sub_net
            ∙ ap (λ x. bit_or d.sub_net (x / 2 ^ d.num_of_bits_for_network)) (value ok)
            ∙ ap (bit_or d.sub_net) (shifted_out d given a v small)),
      ),
    )

requested_or : (r : ℕ) (b : Bool) → ((r ≡ 0) ⊎ (b ≡ true)) → ((r == 0) || b) ≡ true
requested_or r b h = ground arith

occupied_low :
    (d : Dhcp) (ip : ℕ)
    → IsDhcp d
    → is_occupied d.root (ip % 2 ^ width d) (width d)
      ≡ (has d ip || leaf_missing d.root (ip % 2 ^ width d) (width d))
occupied_low d ip v =
    is_occupied-is_taken (width d) d.root (ip % 2 ^ width d) v.trie
    ∙ ap (λ x. x || leaf_missing d.root (ip % 2 ^ width d) (width d)) (has_low d ip)

-- In a network whose flags are right, and while it is not full, a request of no address, or of one
-- that is taken, is for the first address that is not taken: `DhcpAllocateIp` marks it alone,
-- keeps the flags right and puts it together with the network's, or else fails for want of memory
-- and changes no address.
pub allocate_ip-IsSmallest :
    (memory : ℕ → Bool) (d : Dhcp) (given requested : ℕ)
    → IsDhcp d
    → given < 2 ^ 32
    → is_full_node d.root ≡ false
    → ((requested ≡ 0) ⊎ (has d requested ≡ true))
    → (a : ℕ) × IsSmallest (width d) d.root a × Assigned memory d given requested a
allocate_ip-IsSmallest memory d given requested v small not_full why =
    smallest memory d given requested v small not_full (elim why [
      | inl nothing ↦ requested_or requested _ (inl nothing)
      | inr taken ↦ requested_or requested _ (
          inr (
            occupied_low d requested v
            ∙ ap (λ x. x || leaf_missing d.root (requested % 2 ^ width d) (width d)) taken))
    ])

-- In a network whose flags are right, a request of an address other than 0 whose host bits are not
-- taken, and not without their leaf alone, is for these host bits, whatever its network bits:
-- DhcpAllocateIp marks them alone, keeps the flags right and puts them together with the bits of
-- the network, or else fails for want of memory and changes no address. A request from another
-- network is thus granted, where dhcp.h promises the smallest address.
pub allocate_ip_requested :
    (memory : ℕ → Bool) (d : Dhcp) (given requested : ℕ)
    → IsDhcp d
    → requested ≢ 0
    → has d requested ≡ false
    → leaf_missing d.root (requested % 2 ^ width d) (width d) ≡ false
    → Assigned memory d given requested (requested % 2 ^ width d)
unfolding allocate_ip
allocate_ip_requested memory d given requested v some_ip vacant whole =
    let n = width d in
    let a = requested % 2 ^ width d in
    let (u, s, run, w, there, g) =
      allocate_specific_ip_lem memory n d.root a v.trie v.there (has_low d requested ∙ vacant) in
    let test : ((requested == 0) || is_occupied d.root a n) ≡ false =
      rw (occupied_low d requested v, vacant, whole) (neither requested some_ip) in
    elim (status memory n d.root u a s g) [
      | inl ok ↦ (
        u,
        bit_or d.sub_net a,
        s,
        rw (host_part_lem d requested v, num_of_bits_lem d v, test, run, ok)
            (ap (λ x. some (with_root d u, bit_or d.sub_net x, success))
              (host_part_lem d requested v)),
        record { hosts = v.hosts; trie = w; there = there },
        g,
        (λ _. refl),
      )
      | inr failed ↦ (
        u,
        given,
        s,
        rw (host_part_lem d requested v, num_of_bits_lem d v, test, run, failed) refl,
        record { hosts = v.hosts; trie = w; there = there },
        g,
        (λ ok. let bad : success ≡ malloc_failure = sym ok ∙ failed in cc),
      )
    ]
  where
    neither : (r : ℕ) → r ≢ 0 → ((r == 0) || false) ≡ false
    neither r h = ground arith

-- In a network whose flags are right, a request of an address of which the leaf alone is missing
-- is treated like a request of none, although the address is not taken.
pub allocate_ip-leaf_missing :
    (memory : ℕ → Bool) (d : Dhcp) (given requested : ℕ)
    → IsDhcp d
    → has d requested ≡ false
    → leaf_missing d.root (requested % 2 ^ width d) (width d) ≡ true
    → allocate_ip memory d given requested ≡ allocate_ip memory d given 0
unfolding allocate_ip
allocate_ip-leaf_missing memory d given requested v vacant missing =
    let test : ((requested == 0) || is_occupied d.root (requested % 2 ^ width d) (width d)) ≡ true =
      requested_or requested _ (inr (occupied_low d requested v ∙ rw (vacant, missing) refl)) in
    rw (host_part_lem d requested v, num_of_bits_lem d v, test) refl

-- In a network that is full, every request fails and nothing changes.
pub allocate_ip_full :
    (memory : ℕ → Bool) (d : Dhcp) (given requested : ℕ)
    → IsDhcp d
    → is_full_node d.root ≡ true
    → (out : ℕ) × (allocate_ip memory d given requested ≡ some (d, out, malloc_failure))
unfolding allocate_ip
allocate_ip_full memory d given requested v full =
    let a = requested % 2 ^ width d in
    let all : has d requested ≡ true = full-is_taken (width d) d.root requested v.trie full in
    let test : ((requested == 0) || is_occupied d.root a (width d)) ≡ true =
      requested_or requested _
        (inr (occupied_low d requested v ∙ ap (λ x. x || leaf_missing d.root a (width d)) all)) in
    (
      bit_or (given / 2 ^ d.num_of_bits_for_network) d.sub_net,
      rw
          (
            host_part_lem d requested v,
            num_of_bits_lem d v,
            test,
            turned_away memory d.root given (width d) full,
          )
          refl,
    )
  where
    turned_away :
        (memory : ℕ → Bool) (t : Node) (given n : ℕ)
        → is_full_node t ≡ true
        → allocate_smallest_ip memory t given n ≡ some (t, given, malloc_failure)
    turned_away memory null given n e = cc
    turned_away memory (node z o true) given n e = unfold allocate_smallest_ip in refl
    turned_away memory (node z o false) given n e = cc

-- the outcome of any request
abbrev pub Served : (ℕ → Bool) → Dhcp → ℕ → ℕ → Type 0
Served memory d given requested =
    (u : Node) × (out : ℕ) × (s : DhcpStatus) × (allocate_ip memory d given requested
      ≡ some (with_root d u, out, s))
    × IsDhcp (with_root d u)
    × (((s ≡ success)
          × ((a : ℕ) × (a < 2 ^ width d)
              × (has d a ≡ false)
              × Marks (width d) d.root u a true
              × (out ≡ bit_or d.sub_net a)))
        ⊎ ((s ≡ malloc_failure) × Same (width d) d.root u))

served :
    (memory : ℕ → Bool) (d : Dhcp) (given requested a : ℕ)
    → a < 2 ^ width d
    → has d a ≡ false
    → Assigned memory d given requested a
    → Served memory d given requested
served memory d given requested a below vacant (u, out, s, run, v, g, value) = (
  u,
  out,
  s,
  run,
  v,
  elim g [
    | inl (ok, m) ↦ inl (ok, (a, below, vacant, m, value ok))
    | inr (failed, same, _, _) ↦ inr (failed, same)
  ],
)

-- In a network whose flags are right, `DhcpAllocateIp` returns on every request, reads no null
-- pointer and keeps the flags right. Where it succeeds, the address that it gives was not taken
-- before, and it alone is marked; where it fails, no address changes.
pub allocate_ip-IsDhcp :
    (memory : ℕ → Bool) (d : Dhcp) (given requested : ℕ)
    → IsDhcp d
    → given < 2 ^ 32
    → Served memory d given requested
allocate_ip-IsDhcp memory d given requested v small = elim (Bool-cases (is_full_node d.root)) [
  | inl full ↦
      let (out, run) = allocate_ip_full memory d given requested v full in
      (d.root, out, malloc_failure, run, v, inr (refl, (λ j. refl)))
  | inr not_full ↦
      let n = width d in
      elim (Bool-cases ((requested == 0) || is_occupied d.root (requested % 2 ^ n) n)) [
        | inl test ↦
            let (a, lowest, assigned) = smallest memory d given requested v small not_full test in
            served memory d given requested a lowest.below lowest.vacant assigned
        | inr test ↦
            let (nonzero, vacant, whole) =
              free_request requested (has d requested) (leaf_missing d.root (requested % 2 ^ n) n)
                (sym (ap (λ x. (requested == 0) || x) (occupied_low d requested v)) ∙ test) in
            served memory d given requested (requested % 2 ^ n) (low_below requested n)
              (has_low d requested ∙ vacant)
              (allocate_ip_requested memory d given requested v nonzero vacant whole)
      ]
]
  where
    free_request :
        (r : ℕ) (b c : Bool) → ((r == 0) || (b || c)) ≡ false → (r ≢ 0) × (b ≡ false) × (c ≡ false)
    free_request r b c e = ground arith
