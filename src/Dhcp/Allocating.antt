-- ===== src/Dhcp/Allocating.antt =====
-- dhcp.c, `AllocateSpecificIp` and `AllocateSmallestIp`: which address they mark.
use daher_repo.Prelude.{
  ℕ, zero, suc, ◌%◌, ◌^◌, ◌≡◌, ◌∙◌, refl, Bool, true, false, ◌==◌, some, if◌then◌else◌, arith, inl,
  inr, ◌⊎◌,
}
use daher_repo.Dhcp.{
  Node, null, node, is_null, relative, direction_of, enter, DhcpStatus, success, malloc_failure,
  allocate_specific_ip,
}
use daher_repo.Dhcp.Trie.{is_taken, IsTrie, free-not_full}
use daher_repo.Dhcp.Granting.{Granted, after, after_lem, after-not_null, enter_lem, IsTrie-relative}

pub status :
    (memory : ℕ → Bool) (n : ℕ) (t u : Node) (a : ℕ) (s : DhcpStatus)
    → Granted memory n t u a s
    → (s ≡ success) ⊎ (s ≡ malloc_failure)
status memory n t u a s (inl g) = inl g.0
status memory n t u a s (inr g) = inr g.0

-- In a trie whose flags are right, and at an address that is not taken, `AllocateSpecificIp` reads no
-- null pointer and keeps the flags right; it marks that address alone, or fails for want of memory and
-- changes no address.
pub allocate_specific_ip_lem :
    (memory : ℕ → Bool) (n : ℕ) (t : Node) (a : ℕ)
    → IsTrie n t
    → is_null t ≡ false
    → is_taken t a n ≡ false
    → (u : Node) × (s : DhcpStatus) × (allocate_specific_ip memory t a n ≡ some (u, s))
      × IsTrie n u
      × (is_null u ≡ false)
      × Granted memory n t u a s
unfolding allocate_specific_ip is_taken
allocate_specific_ip_lem memory n null a w nn e = cc
allocate_specific_ip_lem memory zero (node z o f) a w nn e =
    (node z o true, success, refl, w, refl, inl (refl, (λ j. only j)))
  where
    one_remainder : (j : ℕ) → j % 1 ≡ 0
    one_remainder j = omega arith

    only : (j : ℕ) → true ≡ (if j % 2 ^ 0 == a % 2 ^ 0 then true else f)
    only j = rw (one_remainder j, one_remainder a) refl
allocate_specific_ip_lem memory (suc k) (node z o true) a w nn e =
    let bad : true ≡ false = free-not_full (suc k) (node z o true) a w e in cc
allocate_specific_ip_lem memory (suc k) (node z o false) a w nn e =
    let d = direction_of a k in
    elim (enter_lem (memory (suc k)) k (relative d z o) (IsTrie-relative k z o false d w)) [
      | inl (empty, short) ↦ (
        node z o false,
        malloc_failure,
        rw empty refl,
        w,
        refl,
        inr (refl, (λ j. refl), refl, (suc k, short)),
      )
      | inr (entered, trie, same, _) ↦
          let (c, s, run, v, there, g) =
            allocate_specific_ip_lem memory k (enter (memory (suc k)) (relative d z o)) a trie
              entered (same a ∙ e) in
          let (kept, granted) =
            after_lem memory k z o (enter (memory (suc k)) (relative d z o)) c false a s d w refl
              same v g in
          (
            after d c z o s,
            s,
            elim (status memory k (enter (memory (suc k)) (relative d z o)) c a s g) [
              | inl ok ↦ rw (entered, run, ok) refl
              | inr failed ↦ rw (entered, run, failed) refl
            ],
            kept,
            after-not_null d c z o s,
            granted,
          )
    ]
