-- ===== src/Slist/Queue.antt =====
-- queue.c: a queue is the address of its singly linked list.
use daher_repo.Prelude.{ℕ, Bool, Option, some, ◌==◌, ◌>>=◌}
use daher_repo.Slist.{Memory, begin, list_end, insert, remove, get_content, data_of, count, append}

module _ {ℓ} {A : Type ℓ} where
  -- `QEnqueue`: true where the end has not moved
  unfoldable pub enqueue : ℕ → Memory A → ℕ → ℕ → A → Option (Memory A × Bool)
  enqueue fuel h new_node queue x = list_end h queue >>= λ tail_before_insert.
      (insert fuel h new_node tail_before_insert x >>= λ r.
      (list_end r.0 queue >>= λ t. some (r.0, tail_before_insert == t)))

  unfoldable pub dequeue : Memory A → ℕ → Option (Memory A)
  dequeue h queue = begin h queue >>= λ b. (remove h b >>= λ r. some r.0)

  unfoldable pub peek : Memory A → ℕ → Option A
  peek h queue = begin h queue >>= λ b. (get_content h b >>= λ c. data_of c)

  unfoldable pub size : ℕ → Memory A → ℕ → Option ℕ
  size fuel h queue = count fuel h queue

  unfoldable pub is_empty : ℕ → Memory A → ℕ → Option Bool
  is_empty fuel h queue = count fuel h queue >>= λ n. some (0 == n)

  unfoldable pub join : Memory A → ℕ → ℕ → Option (Memory A)
  join h dest src = append h dest src
