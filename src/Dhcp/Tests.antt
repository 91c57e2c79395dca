-- ===== src/Dhcp/Tests.antt =====
-- dhcp.c on a network of three host bits as `DhcpCreate` makes it, and on a full one of one host bit.
use daher_repo.Prelude.{
  ℕ, ◌-◌, ◌%◌, ◌^◌, ◌≡◌, refl, Bool, true, false, not, ◌||◌, ◌==◌, some, inr, arith, if◌then◌else◌,
}
use daher_repo.Dhcp.{
  Node, null, node, Dhcp, success, with_root, direction_of, node_create, allocate_ip,
  allocate_smallest_ip, is_occupied, dhcp_free_ip, count_free, dhcp_create, enter, get_direction,
  update_fullness, num_of_bits, host_part,
}
use daher_repo.Dhcp.Trie.{is_taken, Marks}
use daher_repo.Dhcp.Freeing.{leaf_missing, is_occupied-is_taken}
use daher_repo.Dhcp.Counting.{count_below}
use daher_repo.Dhcp.Network.{IsDhcp, width, has, dhcp_free_ip_lem, count_free_lem}
use daher_repo.Dhcp.Smallest.{IsSmallest}
use daher_repo.Dhcp.Assigning.{
  Assigned, Served, allocate_ip-IsSmallest, allocate_ip_requested, allocate_ip-IsDhcp,
}
use daher_repo.Prelude.{ltb, lt→ltb, ge→ltb, List, [], ◌∷◌, ◌++◌, ◌/◌, ◌<◌}
use daher_repo.Dhcp.Text.{
  IsDecimal, Prints, chars, string_to_ip, ip_to_string, string_to_ip-ip_to_string,
}
use native.Mathlib.Decide.{dec_lt}
use daher_repo.Dhcp.Creating.{dhcp_create_lem}

abbrev leaf : Node
leaf = node null null true

abbrev spine : Node
spine = node (node (node leaf null false) null false) (node null (node null leaf false) false) false

-- 192.168.1.0/29
abbrev eight : Dhcp
eight = record { root = spine; num_of_bits_for_network = 29; sub_net = 3232235776 }

abbrev always : ℕ → Bool
always m = true

eight-IsDhcp : IsDhcp eight
eight-IsDhcp = record {
  hosts = omega arith;
  trie = ((((refl, refl), tt, refl), tt, refl), (tt, (tt, (refl, refl), refl), refl), refl);
  there = refl;
}

has_seven : has eight 7 ≡ true
unfolding is_taken direction_of
has_seven = refl

-- the first address given is 192.168.1.1
first_given :
    allocate_ip always eight 0 0
    ≡ some (
      with_root eight (
          node
            (node (node leaf leaf true) null false)
            (node null (node null leaf false) false)
            false),
      3232235777,
      success,
    )
unfolding allocate_ip allocate_smallest_ip num_of_bits host_part is_occupied enter node_create
    get_direction update_fullness direction_of
first_given = refl

allocate_ip-IsDhcp_example : Served always eight 5 4
allocate_ip-IsDhcp_example = allocate_ip-IsDhcp always eight 5 4 eight-IsDhcp (omega arith)

allocate_ip-IsSmallest_example : (a : ℕ) × IsSmallest 3 spine a × Assigned always eight 5 7 a
allocate_ip-IsSmallest_example =
    allocate_ip-IsSmallest always eight 5 7 eight-IsDhcp (omega arith) refl (inr has_seven)

allocate_ip_requested_example : Assigned always eight 5 4 4
allocate_ip_requested_example =
    allocate_ip_requested always eight 5 4 eight-IsDhcp (λ e. absurd (omega (arith, e)))
      (unfold is_taken direction_of in refl) (unfold leaf_missing direction_of in refl)

abbrev given_one : Dhcp
given_one =
    with_root eight
      (node (node (node leaf leaf true) null false) (node null (node null leaf false) false) false)

given_one-IsDhcp : IsDhcp given_one
given_one-IsDhcp = record {
  hosts = omega arith;
  trie =
      ((((refl, refl), (refl, refl), refl), tt, refl), (tt, (tt, (refl, refl), refl), refl), refl);
  there = refl;
}

dhcp_free_ip_lem_example :
    (u : Node) × (dhcp_free_ip given_one 3232235777 ≡ some (with_root given_one u, success))
    × IsDhcp (with_root given_one u)
    × Marks 3 given_one.root u 3232235777 false
dhcp_free_ip_lem_example =
    dhcp_free_ip_lem given_one 3232235777 given_one-IsDhcp
      ((λ e. absurd (omega (arith, e))), (λ e. absurd (omega (arith, e))))
      (unfold is_taken direction_of in refl)

is_occupied-is_taken_example :
    is_occupied spine 6 3 ≡ (is_taken spine 6 3 || leaf_missing spine 6 3)
is_occupied-is_taken_example = is_occupied-is_taken 3 spine 6 eight-IsDhcp.trie

count_free_lem_example : count_free eight ≡ count_below 8 (λ j. not (has eight j))
count_free_lem_example = count_free_lem eight eight-IsDhcp

dhcp_create_lem_example :
    (d : Dhcp) × (dhcp_create true true always always 3232235776 29 ≡ some (some d))
    × IsDhcp d
    × (width d ≡ 3)
    × (d.sub_net ≡ 3232235776)
    × ((j : ℕ) → has d j ≡ ((j % 2 ^ width d == 0) || (j % 2 ^ width d == 2 ^ width d - 1)))
dhcp_create_lem_example =
    dhcp_create_lem always always 3232235776 29 (λ m. refl) (λ m. refl) (omega arith)

abbrev all_but_one : ℕ → Bool
all_but_one m = not (m == 1)

-- a number below 1000 in decimal digits, and what `sprintf` prints of four
abbrev digits : ℕ → List ℕ
digits b =
    if ltb b 10
    then b ∷ []
    else if ltb b 100
    then b / 10 ∷ b % 10 ∷ []
    else b / 100 ∷ b / 10 % 10 ∷ b % 10 ∷ []

digits-IsDecimal : (b : ℕ) → b < 256 → IsDecimal (digits b) b
digits-IsDecimal b h = elim (dec_lt b 10) [
  | yes one ↦
      rw (lt→ltb b 10 one)
        (record { digits = (one, tt); some_digit = omega arith; value = omega arith })
  | no more ↦ elim (dec_lt b 100) [
    | yes below ↦
        rw (ge→ltb b 10 (omega arith), lt→ltb b 100 below)
          (record {
            digits = (omega (arith, below), (omega arith, tt));
            some_digit = omega arith;
            value = omega arith;
          })
    | no large ↦
        rw (ge→ltb b 10 (omega arith), ge→ltb b 100 (omega arith))
          (record {
            digits = (omega (arith, h), (omega arith, (omega arith, tt)));
            some_digit = omega arith;
            value = omega (arith, h);
          })
  ]
]

abbrev sprintf : ℕ → ℕ → ℕ → ℕ → List ℕ
sprintf a b c d =
    chars (digits a)
    ++ (46
        ∷ (chars (digits b) ++ (46 ∷ (chars (digits c) ++ (46 ∷ (chars (digits d) ++ (0 ∷ [])))))))

sprintf-Prints : Prints sprintf
unfolding Prints
sprintf-Prints a b c d ha hb hc hd = (
  digits a,
  digits b,
  digits c,
  digits d,
  digits-IsDecimal a ha,
  digits-IsDecimal b hb,
  digits-IsDecimal c hc,
  digits-IsDecimal d hd,
  refl,
)

string_to_ip-ip_to_string_example : string_to_ip (ip_to_string sprintf 3232235777) ≡ some 3232235777
string_to_ip-ip_to_string_example =
    string_to_ip-ip_to_string sprintf 3232235777 sprintf-Prints (omega arith)
