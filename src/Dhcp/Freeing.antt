-- ===== src/Dhcp/Freeing.antt =====
-- dhcp.c, `IsOccupied` and `FreeIp`: what the one says of an address, and what the other does to it.
use daher_repo.Prelude.{
  ℕ, zero, suc, ◌%◌, ◌^◌, ◌≡◌, refl, Bool, true, false, ◌||◌, none, some, ◌==◌, if◌then◌else◌,
  arith,
}
use daher_repo.Dhcp.{
  Node, null, node, is_null, is_full_node, relative, relate, direction_of, is_occupied, free_ip,
}
use daher_repo.Dhcp.Trie.{is_taken, IsTrie, Marks, Marks-relate, full-is_taken}
use daher_repo.Dhcp.Granting.{keep-IsTrie, relate-not_full, relate-not_null, IsTrie-relative}

-- The nodes on the way to an address are there, but for the leaf.
unfoldable pub leaf_missing : Node → ℕ → ℕ → Bool
leaf_missing null j n = n == 0
leaf_missing (node z o f) j zero = false
leaf_missing (node z o f) j (suc k) = leaf_missing (relative (direction_of j k) z o) j k

-- Where the flags are right, `IsOccupied` answers that an address is occupied where it is taken, and
-- also where only its leaf is missing.
pub is_occupied-is_taken :
    (n : ℕ) (t : Node) (j : ℕ)
    → IsTrie n t
    → is_occupied t j n ≡ (is_taken t j n || leaf_missing t j n)
unfolding is_occupied is_taken leaf_missing
is_occupied-is_taken n null j w = refl
is_occupied-is_taken zero (node z o true) j w = refl
is_occupied-is_taken zero (node z o false) j w = refl
is_occupied-is_taken (suc k) (node z o true) j w =
    rw (full-is_taken (suc k) (node z o true) j w refl) refl
is_occupied-is_taken (suc k) (node z o false) j w =
    is_occupied-is_taken k (relative (direction_of j k) z o) j
      (IsTrie-relative k z o false (direction_of j k) w)

-- Where the flags are right, `FreeIp` of an address that is taken reads no null pointer, keeps the
-- flags right, and that address alone is no longer taken.
pub free_ip_lem :
    (n : ℕ) (t : Node) (a : ℕ)
    → IsTrie n t
    → is_taken t a n ≡ true
    → (u : Node) × (free_ip t a n ≡ some u)
      × IsTrie n u
      × (is_null u ≡ false)
      × (is_full_node u ≡ false)
      × Marks n t u a false
unfolding free_ip is_taken
free_ip_lem n null a w e = cc
free_ip_lem zero (node z o f) a w e = (node z o false, refl, w, refl, refl, (λ j. only j))
  where
    only : (j : ℕ) → false ≡ (if j % 2 ^ 0 == a % 2 ^ 0 then false else f)
    only j = ground arith
free_ip_lem (suc k) (node z o f) a w e =
    let d = direction_of a k in
    let (c, run, v, there, empty, m) =
      free_ip_lem k (relative d z o) a (IsTrie-relative k z o f d w) e in
    (
      relate d c z o false,
      rw run refl,
      keep-IsTrie k z o c f d w v empty,
      relate-not_null d c z o,
      relate-not_full d c z o,
      Marks-relate k z o c f false a false d refl m,
    )

-- Where only the leaf is missing, `FreeIp` reads a null pointer.
pub free_ip_null : (n : ℕ) (t : Node) (a : ℕ) → leaf_missing t a n ≡ true → free_ip t a n ≡ none
unfolding free_ip leaf_missing
free_ip_null n null a e = refl
free_ip_null zero (node z o f) a e = cc
free_ip_null (suc k) (node z o f) a e =
    rw (free_ip_null k (relative (direction_of a k) z o) a e) refl
