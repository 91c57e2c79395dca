-- ===== src/Dhcp.antt =====
-- infinity/ds/dhcp/dhcp.c: the trie of the host addresses of a network. A node is a value, since
-- the functions change only nodes that they reach from the root; `none` is a null dereference. The
-- parameter `memory` says whether `malloc` succeeds at a node with so many bits below it. A flag
-- `is_full` holds 0 or 1 and is a Boolean; `IP_LENGTH` is 32, and an address a number below 2 ^ 32.
pub mod Bits
pub mod Trie
pub mod Granting
pub mod Allocating
pub mod Smallest
pub mod Freeing
pub mod Counting
pub mod Network
pub mod Assigning
pub mod Creating
pub mod Text
mod Tests
use Prim.Native.Nat.{bit_or}
use daher_repo.Prelude.{
  ℕ, zero, suc, ◌+◌, ◌-◌, ◌*◌, ◌/◌, ◌%◌, ◌^◌, Bool, true, false, ◌&&◌, ◌||◌, Option, none, some,
  ◌==◌, if◌then◌else◌, ◌>>=◌, sub_word, List, [], ◌∷◌,
}

-- `struct dhcp_node`, and `NULL` as `null`: relatives[ZERO], relatives[ONE] and is_full.
pub data Node : Type 0 where
  null : Node
  node : Node → Node → Bool → Node

-- `relatives`: the indices ZERO and ONE
pub data Relatives : Type 0 where
  zeroth : Relatives
  first : Relatives

pub data DhcpStatus : Type 0 where
  success : DhcpStatus
  double_free : DhcpStatus
  free_failure : DhcpStatus
  malloc_failure : DhcpStatus

pub record Dhcp : Type 0 where
  pub root : Node
  pub num_of_bits_for_network : ℕ
  pub sub_net : ℕ

abbrev pub is_null : Node → Bool
is_null null = true
is_null (node z o f) = false

-- `NULL != node && FULL == node->is_full`
abbrev pub is_full_node : Node → Bool
is_full_node null = false
is_full_node (node z o f) = f

-- `node->relatives[direction]`, and a write of it
abbrev pub relative : Relatives → Node → Node → Node
relative zeroth z o = z
relative first z o = o

abbrev pub relate : Relatives → Node → Node → Node → Bool → Node
relate zeroth child z o f = node child o f
relate first child z o f = node z child f

abbrev pub value_of : Relatives → ℕ
value_of zeroth = 0
value_of first = 1

-- `req_ip >> (num_of_bits - INDEX_ADJUSTMENT) & 1`, where `k` is num_of_bits - 1
unfoldable pub direction_of : ℕ → ℕ → Relatives
direction_of req_ip k = if req_ip / 2 ^ k % 2 == 1 then first else zeroth

unfoldable pub node_create : Bool → Node
node_create memory = if memory then node null null false else null

-- the relative, created where there is none; `null` where `malloc` fails
unfoldable pub enter : Bool → Node → Node
unfolding node_create
enter memory null = node_create memory
enter memory (node z o f) = node z o f

unfoldable pub update_fullness : Node → Node
update_fullness null = null
update_fullness (node z o f) = node z o (if is_full_node z && is_full_node o then true else f)

unfoldable pub get_direction : Node → Node → Relatives
get_direction null o = zeroth
get_direction (node z' o' f') o = if f' then first else zeroth

-- `AllocateSpecificIp`: the node afterwards, and the status
unfoldable pub allocate_specific_ip : (ℕ → Bool) → Node → ℕ → ℕ → Option (Node × DhcpStatus)
unfolding enter update_fullness direction_of
allocate_specific_ip memory null req_ip n = none
allocate_specific_ip memory (node z o f) req_ip zero = some (node z o true, success)
allocate_specific_ip memory (node z o f) req_ip (suc k) =
    let d = direction_of req_ip k in
    let entered = enter (memory (suc k)) (relative d z o) in
    let below = allocate_specific_ip memory entered req_ip k in
    if is_null entered
    then some (node z o f, malloc_failure)
    else (below >>= λ p. elim p.1 [
      | success ↦ some (update_fullness (relate d p.0 z o f), success)
      | _ ↦ some (relate d p.0 z o f, malloc_failure)
    ])

-- `AllocateSmallestIp`: the node afterwards, `*allocated_ip`, and the status
unfoldable pub allocate_smallest_ip : (ℕ → Bool) → Node → ℕ → ℕ → Option (Node × ℕ × DhcpStatus)
unfolding enter update_fullness get_direction
allocate_smallest_ip memory null allocated_ip n = none
allocate_smallest_ip memory (node z o true) allocated_ip n =
    some (node z o true, allocated_ip, malloc_failure)
allocate_smallest_ip memory (node z o false) allocated_ip zero =
    some (node z o true, allocated_ip, success)
allocate_smallest_ip memory (node z o false) allocated_ip (suc k) =
    let d = get_direction z o in
    let entered = enter (memory (suc k)) (relative d z o) in
    let below = allocate_smallest_ip memory entered allocated_ip k in
    if is_null entered
    then some (node z o false, allocated_ip, malloc_failure)
    else (below >>= λ p. elim p.2 [
      | success ↦ some (
        update_fullness (relate d p.0 z o false),
        bit_or (p.1 / 2) (value_of d * 2 ^ 31),
        success,
      )
      | _ ↦ some (relate d p.0 z o false, p.1, malloc_failure)
    ])

-- The loop of `IsOccupied`. At a leaf that is not full num_of_bits wraps around, which ends the loop.
unfoldable pub is_occupied : Node → ℕ → ℕ → Bool
unfolding direction_of
is_occupied null req_ip n = n == 0
is_occupied (node z o f) req_ip zero = f
is_occupied (node z o f) req_ip (suc k) =
    let below = is_occupied (relative (direction_of req_ip k) z o) req_ip k in
    if f then true else below

unfoldable pub free_ip : Node → ℕ → ℕ → Option Node
unfolding direction_of
free_ip null req_ip n = none
free_ip (node z o f) req_ip zero = some (node z o false)
free_ip (node z o f) req_ip (suc k) =
    let d = direction_of req_ip k in
    free_ip (relative d z o) req_ip k >>= λ child. some (relate d child z o false)

-- `CountOccupied`: what it adds to `*count`
unfoldable pub count_occupied : Node → ℕ → ℕ
count_occupied null n = 0
count_occupied (node z o f) n =
    let below = count_occupied z (sub_word n 1) + count_occupied o (sub_word n 1) in
    if (n == 0) && f then 1 else below

-- `num_of_bits`: IP_LENGTH - SUBNET_LENGTH
unfoldable pub num_of_bits : Dhcp → ℕ
num_of_bits dhcp = sub_word 32 dhcp.num_of_bits_for_network

-- `ip << SUBNET_LENGTH`, and then `>>= SUBNET_LENGTH`
unfoldable pub host_part : Dhcp → ℕ → ℕ
host_part dhcp ip =
    ip * 2 ^ dhcp.num_of_bits_for_network % 2 ^ 32 / 2 ^ dhcp.num_of_bits_for_network

abbrev pub with_root : Dhcp → Node → Dhcp
with_root dhcp n = record {
  root = n;
  num_of_bits_for_network = dhcp.num_of_bits_for_network;
  sub_net = dhcp.sub_net;
}

-- `DhcpAllocateIp`: the state, `*allocated_ip` and the status afterwards
unfoldable pub allocate_ip : (ℕ → Bool) → Dhcp → ℕ → ℕ → Option (Dhcp × ℕ × DhcpStatus)
allocate_ip memory dhcp allocated_ip requested_ip =
    let n = num_of_bits dhcp in
    let req_ip = host_part dhcp requested_ip in
    if (requested_ip == 0) || is_occupied dhcp.root req_ip n
    then (allocate_smallest_ip memory dhcp.root allocated_ip n >>= λ p.
        some
          (with_root dhcp p.0, bit_or (p.1 / 2 ^ dhcp.num_of_bits_for_network) dhcp.sub_net, p.2))
    else (allocate_specific_ip memory dhcp.root req_ip n >>= λ p. elim p.1 [
      | success ↦ some (with_root dhcp p.0, bit_or dhcp.sub_net req_ip, success)
      | status ↦ some (with_root dhcp p.0, allocated_ip, status)
    ])

-- `DhcpFreeIp`; the broadcast address is ALL_IP_BITS_ON >> SUBNET_LENGTH
unfoldable pub dhcp_free_ip : Dhcp → ℕ → Option (Dhcp × DhcpStatus)
dhcp_free_ip dhcp ip =
    let n = num_of_bits dhcp in
    let req_ip = host_part dhcp ip in
    let broadcast = (2 ^ 32 - 1) / 2 ^ dhcp.num_of_bits_for_network in
    if (req_ip == 0) || (req_ip == broadcast)
    then some (dhcp, free_failure)
    else if is_occupied dhcp.root req_ip n
    then (free_ip dhcp.root req_ip n >>= λ root. some (with_root dhcp root, success))
    else some (dhcp, double_free)

-- `DhcpCountFree`; `pow` on these numbers is exact
unfoldable pub count_free : Dhcp → ℕ
count_free dhcp = sub_word (2 ^ num_of_bits dhcp) (count_occupied dhcp.root (num_of_bits dhcp))

-- The loop of `DhcpInit` below the root, for the one runner and for the other, with `k` rounds left.
-- A runner is read before it is compared with NULL: a failed `NodeCreate` is a null dereference.
unfoldable pub zero_spine : (ℕ → Bool) → ℕ → Option Node
zero_spine memory zero = if memory 0 then some (node null null true) else none
zero_spine memory (suc k) =
    let below = zero_spine memory k in
    if memory (suc k) then (below >>= λ n. some (node n null false)) else none

unfoldable pub one_spine : (ℕ → Bool) → ℕ → Option Node
one_spine memory zero = if memory 0 then some (node null null true) else none
one_spine memory (suc k) =
    let below = one_spine memory k in
    if memory (suc k) then (below >>= λ n. some (node null n false)) else none

-- `DhcpInit`, the root that it leaves; without a round both runners are the root.
unfoldable pub init : (ℕ → Bool) → (ℕ → Bool) → ℕ → Option Node
init zeros ones zero = some (node null null true)
init zeros ones (suc k) =
    zero_spine zeros k >>= λ z. one_spine ones k >>= λ o. some (node z o false)

-- `DhcpCreate`: the inner `none` is NULL; `made` and `rooted` say whether the first two `malloc`
-- succeed.
unfoldable pub dhcp_create : Bool → Bool → (ℕ → Bool) → (ℕ → Bool) → ℕ → ℕ → Option (Option Dhcp)
dhcp_create made rooted zeros ones sub_net network =
    let filled = init zeros ones (sub_word 32 network) in
    if made && rooted
    then (filled >>= λ root.
        some (some (record { root = root; num_of_bits_for_network = network; sub_net = sub_net })))
    else some none
