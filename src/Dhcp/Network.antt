-- ===== src/Dhcp/Network.antt =====
-- dhcp.c, `DhcpAllocateIp`, `DhcpFreeIp` and `DhcpCountFree`: the addresses of a network.
use native.Mathlib.Nat.{mod-mod, pow-le-pow_right, mul-div_cancel, div-eq_of_lt-le}
use daher_repo.Prelude.{
  ℕ, zero, suc, ◌+◌, ◌-◌, ◌*◌, ◌/◌, ◌%◌, ◌^◌, ◌≤◌, ◌<◌, ◌≡◌, ◌≢◌, ◌∙◌, refl, ap, Bool, true, false,
  ◌||◌, ◌==◌, none, some, if◌then◌else◌, arith, Bool-cases, inl, inr, sub_word, not,
}
use daher_repo.Dhcp.{
  Dhcp, Node, is_null, success, double_free, num_of_bits, host_part, with_root, dhcp_free_ip,
  is_occupied, count_free,
}
use daher_repo.Prelude.{scaled_mod}
use daher_repo.Dhcp.Bits.{power_pos, power_split}
use daher_repo.Dhcp.Trie.{is_taken, is_taken_low, IsTrie, Marks, Marks-low}
use daher_repo.Dhcp.Freeing.{leaf_missing, is_occupied-is_taken, free_ip_lem, free_ip_null}
use daher_repo.Dhcp.Counting.{count_below, count_below-not, count_occupied_lem}

-- the number of host bits
abbrev pub width : Dhcp → ℕ
width d = 32 - d.num_of_bits_for_network

-- A network of at least one host bit, with a trie whose flags are right.
pub record IsDhcp (d : Dhcp) : Type 0 where
  pub hosts : d.num_of_bits_for_network < 32
  pub trie : IsTrie (width d) d.root
  pub there : is_null d.root ≡ false

-- This address of the network is taken.
abbrev pub has : Dhcp → ℕ → Bool
has d a = is_taken d.root a (width d)

pub num_of_bits_lem : (d : Dhcp) → IsDhcp d → num_of_bits d ≡ width d
unfolding num_of_bits
num_of_bits_lem d v = below d.num_of_bits_for_network v.hosts
  where
    below : (s : ℕ) → s < 32 → sub_word 32 s ≡ 32 - s
    below s h = omega (arith, h)

pub all_bits : (s : ℕ) → s < 32 → 2 ^ 32 ≡ 2 ^ (32 - s) * 2 ^ s
all_bits s h = ap (λ x. 2 ^ x) (parts s h) ∙ power_split (32 - s) s
  where
    parts : (s : ℕ) → s < 32 → 32 ≡ (32 - s) + s
    parts s h = omega (arith, h)

pub host_part_lem : (d : Dhcp) (ip : ℕ) → IsDhcp d → host_part d ip ≡ ip % 2 ^ width d
unfolding host_part
host_part_lem d ip v =
    let s = d.num_of_bits_for_network in
    ap (λ x. ip * 2 ^ s % x / 2 ^ s) (all_bits s v.hosts)
    ∙ ap (λ x. x / 2 ^ s) (scaled_mod ip (2 ^ (32 - s)) (2 ^ s) (power_pos (32 - s)) (power_pos s))
    ∙ mul-div_cancel (ip % 2 ^ (32 - s)) (power_pos s)

broadcast_lem :
    (d : Dhcp) → IsDhcp d → (2 ^ 32 - 1) / 2 ^ d.num_of_bits_for_network ≡ 2 ^ width d - 1
broadcast_lem d v =
    let s = d.num_of_bits_for_network in
    ap (λ x. (x - 1) / 2 ^ s) (all_bits s v.hosts)
    ∙ all_ones (2 ^ (32 - s)) (2 ^ s) (power_pos (32 - s)) (power_pos s)
  where
    all_ones : (w v : ℕ) → 0 < w → 0 < v → (w * v - 1) / v ≡ w - 1
    all_ones zero v p q = elim p [ ]
    all_ones (suc w) v p q = div-eq_of_lt-le v (lower w v q) (upper w v q) ∙ omega arith
      where
        lower : (w v : ℕ) → 0 < v → w * v ≤ suc w * v - 1
        lower w v q = omega (arith, q)

        upper : (w v : ℕ) → 0 < v → suc w * v - 1 < (w + 1) * v
        upper w v q = omega (arith, q)

-- The address is neither 0 nor the last one of the network.
abbrev pub IsHost : Dhcp → ℕ → Type 0
IsHost d ip = (ip % 2 ^ width d ≢ 0) × (ip % 2 ^ width d ≢ 2 ^ width d - 1)

apart : (x y : ℕ) → x ≢ y → (x == y) ≡ false
apart x y h = ground arith

host_test :
    (d : Dhcp) (ip : ℕ)
    → IsDhcp d
    → IsHost d ip
    → ((host_part d ip == 0) || (host_part d ip == (2 ^ 32 - 1) / 2 ^ d.num_of_bits_for_network))
      ≡ false
host_test d ip v h =
    rw
      (
        host_part_lem d ip v,
        broadcast_lem d v,
        apart (ip % 2 ^ width d) 0 h.0,
        apart (ip % 2 ^ width d) (2 ^ width d - 1) h.1,
      )
      refl

pub low_again : (n ip : ℕ) → ip % 2 ^ n % 2 ^ n ≡ ip % 2 ^ n
low_again n ip = mod-mod ip (2 ^ n)

pub has_low : (d : Dhcp) (ip : ℕ) → is_taken d.root (ip % 2 ^ width d) (width d) ≡ has d ip
has_low d ip = is_taken_low (width d) d.root (ip % 2 ^ width d) ip (low_again (width d) ip)

-- In a network whose flags are right, DhcpFreeIp of an address whose host bits, whatever its
-- network bits, are taken, and are neither the first nor the last of the network, succeeds and
-- keeps the flags right; these host bits alone are no longer taken. For an address from another
-- network dhcp.h promises FREE_FAILURE.
pub dhcp_free_ip_lem :
    (d : Dhcp) (ip : ℕ)
    → IsDhcp d
    → IsHost d ip
    → has d ip ≡ true
    → (u : Node) × (dhcp_free_ip d ip ≡ some (with_root d u, success))
      × IsDhcp (with_root d u)
      × Marks (width d) d.root u ip false
unfolding dhcp_free_ip
dhcp_free_ip_lem d ip v h e =
    let n = width d in
    let a = ip % 2 ^ width d in
    let taken : is_taken d.root a n ≡ true = has_low d ip ∙ e in
    let (u, run, w, there, empty, m) = free_ip_lem n d.root a v.trie taken in
    let hit : is_occupied d.root a n ≡ true =
      is_occupied-is_taken n d.root a v.trie ∙ ap (λ x. x || leaf_missing d.root a n) taken in
    (
      u,
      rw (host_test d ip v h, num_of_bits_lem d v, host_part_lem d ip v, hit, run) refl,
      record { hosts = v.hosts; trie = w; there = there },
      Marks-low n d.root u a ip false (low_again n ip) m,
    )

-- In a network whose flags are right, where an address that is neither the first nor the last is
-- not taken, `DhcpFreeIp` reports a double free and changes nothing, unless the leaf of the
-- address alone is missing: then it reads a null pointer.
pub dhcp_free_ip_vacant :
    (d : Dhcp) (ip : ℕ)
    → IsDhcp d
    → IsHost d ip
    → has d ip ≡ false
    → dhcp_free_ip d ip
      ≡ (if leaf_missing d.root (ip % 2 ^ width d) (width d) then none else some (d, double_free))
unfolding dhcp_free_ip
dhcp_free_ip_vacant d ip v h e =
    let n = width d in
    let a = ip % 2 ^ width d in
    let vacant : is_taken d.root a n ≡ false = has_low d ip ∙ e in
    let answer : is_occupied d.root a n ≡ leaf_missing d.root a n =
      is_occupied-is_taken n d.root a v.trie ∙ ap (λ x. x || leaf_missing d.root a n) vacant in
    rw (host_test d ip v h, num_of_bits_lem d v, host_part_lem d ip v, answer)
      (elim (Bool-cases (leaf_missing d.root a n)) [
        | inl missing ↦ rw (missing, free_ip_null n d.root a missing) refl
        | inr whole ↦ rw whole refl
      ])

-- In a network whose flags are right, `DhcpCountFree` counts the addresses that are not taken.
pub count_free_lem :
    (d : Dhcp) → IsDhcp d → count_free d ≡ count_below (2 ^ width d) (λ j. not (has d j))
unfolding count_free
count_free_lem d v =
    let n = width d in
    let small : 2 ^ n ≤ 2 ^ 32 =
      pow-le-pow_right {n = 2} (omega arith) {i = n} {j = 32} (omega arith) in
    rw (num_of_bits_lem d v, count_occupied_lem n d.root v.trie (omega arith))
      (rest (2 ^ n) (count_below (2 ^ n) (λ j. has d j)) (count_below (2 ^ n) (λ j. not (has d j)))
        small (count_below-not (2 ^ n) (λ j. has d j)))
  where
    rest : (w x y : ℕ) → w ≤ 2 ^ 32 → x + y ≡ w → sub_word w x ≡ y
    rest w x y h e = omega (arith, h, e)
