-- ===== src/Hash.antt =====
-- infinity/ds/hash/hash.c: a hash table whose buckets are lists of dlist.c in one store. `none` is as in
-- Dlist, or an index outside of the array of buckets.
pub mod Rows
pub mod Searching
pub mod Inserting
pub mod Removing
mod Tests
use daher_repo.Prelude.{
  ℕ, zero, suc, ◌+◌, Bool, true, false, not, Option, none, some, List, [], ◌∷◌, ◌==◌, if◌then◌else◌,
  ◌>>=◌, ℤ, pos, is_zero, get_elem?, add_word,
}
use daher_repo.Dlist.{Store, Dlist, is_same_iter}
use daher_repo.Dlist

-- `struct hash_table`
pub record HashTable {ℓ} (A : Type ℓ) : Type ℓ where
  pub hash_func : A → ℕ
  pub match_func : A → A → ℤ
  pub capacity : ℕ
  pub hash_arr : List Dlist

module _ {ℓ} {A : Type ℓ} where
  -- `InitHashArray`, once it has its array: a list for each of the blocks that `DlistCreate` gets, up to
  -- the first that is NULL
  unfoldable pub init_hash_array : Store A → List (ℕ × ℕ) → Store A × Option (List Dlist)
  init_hash_array h [] = (h, some [])
  init_hash_array h (block ∷ blocks) =
      let made = Dlist.create h block.0 block.1 in
      let others = init_hash_array made.0 blocks in
      elim made.1 [
        | none ↦ (made.0, none)
        | some l ↦ (others.0, elim others.1 [ none ↦ none | some ls ↦ some (l ∷ ls) ])
      ]

  -- the loop of `HashSize`, with so many buckets left
  unfoldable pub size_from : ℕ → Store A → HashTable A → ℕ → ℕ → ℕ → Option ℕ
  size_from fuel h table zero i count = some count
  size_from fuel h table (suc left) i count = get_elem? table.hash_arr i >>= λ l.
      (Dlist.size fuel h l >>= λ n. size_from fuel h table left (i + 1) (add_word count n))

  unfoldable pub size : ℕ → Store A → HashTable A → Option ℕ
  size fuel h table = size_from fuel h table table.capacity 0 0

  unfoldable pub is_empty : ℕ → Store A → HashTable A → Option Bool
  is_empty fuel h table = size fuel h table >>= λ n. some (0 == n)

  -- the search in the bucket of the data
  unfoldable pub find_in : ℕ → Store A → HashTable A → Dlist → A → Option ℕ
  find_in fuel h table l x =
      Dlist.begin h l >>= λ b. Dlist.find table.match_func fuel h b l.end_dummy x

  -- `FindData`: the iterator, or 0 for NULL
  unfoldable pub find_data : ℕ → Store A → HashTable A → A → Option ℕ
  find_data fuel h table x = get_elem? table.hash_arr (table.hash_func x) >>= λ l.
      (find_in fuel h table l x >>= λ iter.
      (is_same_iter iter l.end_dummy >>= λ absent. some (if absent then 0 else iter)))

  unfoldable pub find : ℕ → Store A → HashTable A → A → Option (Option A)
  find fuel h table x = find_data fuel h table x >>= λ iter.
      if iter == 0 then some none else (Dlist.get_data h iter >>= λ y. some (some y))

  -- `HashInsert`: 1, or 0 where memory has run out
  unfoldable pub insert : (Store A → ℕ) → ℕ → Store A → HashTable A → A → Option (Store A × ℕ)
  insert malloc fuel h table x = get_elem? table.hash_arr (table.hash_func x) >>= λ l.
      (find_in fuel h table l x >>= λ iter.
      (is_same_iter l.end_dummy iter >>= λ absent.
      (if not absent
        then (Dlist.set_data h iter x >>= λ g. some (g, 1))
        else (Dlist.push_back malloc h l x >>= λ r.
            (is_same_iter l.end_dummy r.1 >>= λ failed. some (r.0, if failed then 0 else 1))))))

  unfoldable pub remove : ℕ → Store A → HashTable A → A → Option (Store A)
  remove fuel h table x = find_data fuel h table x >>= λ iter.
      if iter == 0
      then some h
      else (get_elem? table.hash_arr (table.hash_func x) >>= λ l.
          (Dlist.remove h l iter >>= λ r. some r.0))

  -- the loop of `HashForEach`, with so many buckets left and the last result
  unfoldable pub for_each_from {κ} :
      {S : Type κ} → ℕ → Store A → HashTable A → ℕ → ℕ → (A → S → S × ℤ) → S × ℤ → Option (S × ℤ)
  for_each_from fuel h table zero i action res = some res
  for_each_from fuel h table (suc left) i action res =
      if is_zero res.1
      then (get_elem? table.hash_arr i >>= λ l.
          (Dlist.begin h l >>= λ b.
          (Dlist.for_each fuel h b l.end_dummy action res.0 >>= λ r.
          for_each_from fuel h table left (i + 1) action r)))
      else some res

  unfoldable pub for_each {κ} :
      {S : Type κ} → ℕ → Store A → HashTable A → (A → S → S × ℤ) → S → Option (S × ℤ)
  for_each fuel h table action param =
      for_each_from fuel h table table.capacity 0 action (param, pos 0)
