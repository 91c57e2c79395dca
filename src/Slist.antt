-- ===== src/Slist.antt =====
-- infinity/ds/slist/slist.c, and its client infinity/ds/queue/queue.c in Slist/Queue.antt: singly linked
-- lists whose last node is a dummy that holds the address of its list. A pointer is an address, and
-- NULL is 0. The outer `none` of a result is a failed assert, a read or write through an address that
-- holds no node or no list, data of the wrong kind, or an end of the fuel.
pub mod Queue
pub mod Line
pub mod Counting
mod Tests
use daher_repo.Prelude.{
  ℕ, zero, suc, ◌+◌, Bool, true, false, not, Option, none, some, ◌==◌, if◌then◌else◌, ◌>>=◌, ◌>>◌,
  guard, ℤ, pos, is_zero,
}

-- what the `data` field of a node holds: data of the user, or a list
pub data Content {ℓ} (A : Type ℓ) : Type ℓ where
  datum : A → Content A
  owner : ℕ → Content A

-- `slist_node`
pub record Node {ℓ} (A : Type ℓ) : Type ℓ where
  pub content : Content A
  pub next_node : ℕ

-- `struct slist`
pub record Slist : Type 0 where
  pub head : ℕ
  pub tail : ℕ

-- the nodes and the lists of the memory
pub record Memory {ℓ} (A : Type ℓ) : Type ℓ where
  pub nodes : ℕ → Option (Node A)
  pub lists : ℕ → Option Slist

module _ {ℓ} {A : Type ℓ} where
  abbrev pub cell : Content A → ℕ → Node A
  cell c n = record { content = c; next_node = n }

  unfoldable pub load : Memory A → ℕ → Option (Node A)
  load h p = if p == 0 then none else h.nodes p

  unfoldable pub put : Memory A → ℕ → Option (Node A) → Memory A
  put h p c = record { nodes = λ a. if a == p then c else h.nodes a; lists = h.lists }

  unfoldable pub put_list : Memory A → ℕ → Slist → Memory A
  put_list h q s = record { nodes = h.nodes; lists = λ a. if a == q then some s else h.lists a }

  -- the list that a dummy holds, as in `((Slist_t *)(iter->data))`
  unfoldable pub owner_of : Content A → Option ℕ
  owner_of (datum x) = none
  owner_of (owner q) = some q

  unfoldable pub data_of : Content A → Option A
  data_of (datum x) = some x
  data_of (owner q) = none

  -- `SlistCreate` on the addresses of the list and of its dummy, NULL where a `malloc` failed
  unfoldable pub create : Memory A → ℕ → ℕ → Memory A × Option ℕ
  create h q e =
      if q == 0
      then (h, none)
      else if e == 0
      then (h, none)
      else (put (put_list h q (record { head = e; tail = e })) e (some (cell (owner q) 0)), some q)

  unfoldable pub begin : Memory A → ℕ → Option ℕ
  begin h q = h.lists q >>= λ s. some s.head

  unfoldable pub list_end : Memory A → ℕ → Option ℕ
  list_end h q = h.lists q >>= λ s. some s.tail

  unfoldable pub next : Memory A → ℕ → Option ℕ
  next h iter = load h iter >>= λ n. some n.next_node

  unfoldable pub is_same_iter : Memory A → ℕ → ℕ → Option Bool
  is_same_iter h one two =
      load h one >>= λ m. (load h two >>= λ n. some (m.next_node == n.next_node))

  unfoldable pub get_content : Memory A → ℕ → Option (Content A)
  get_content h iter = load h iter >>= λ n. some n.content

  unfoldable pub set_content : Memory A → ℕ → Content A → Option (Memory A)
  set_content h iter c = load h iter >>= λ n. some (put h iter (some (cell c n.next_node)))

  -- `GetEndByNext`
  unfoldable pub get_end_by_next : ℕ → Memory A → ℕ → Option ℕ
  get_end_by_next zero h node_runner = none
  get_end_by_next (suc fuel) h node_runner =
      next h node_runner >>= λ n. if n == 0 then some node_runner else get_end_by_next fuel h n

  -- `SlistInsert`; `new_node` is what `malloc` returns
  unfoldable pub insert : ℕ → Memory A → ℕ → ℕ → A → Option (Memory A × ℕ)
  insert fuel h new_node where_at x = load h where_at >>= λ n.
      if new_node == 0
      then (get_end_by_next fuel h where_at >>= λ e. some (h, e))
      else (let linked = put h new_node (some (cell n.content n.next_node)) in
          let g = put linked where_at (some (cell (datum x) new_node)) in
          if n.next_node == 0
          then (owner_of n.content >>= λ q.
              (g.lists q >>= λ s.
              some (put_list g q (record { head = s.head; tail = new_node }), where_at)))
          else some (g, where_at))

  -- `SlistRemove`; the result 0 is NULL
  unfoldable pub remove : Memory A → ℕ → Option (Memory A × ℕ)
  remove h iter = load h iter >>= λ n.
      if n.next_node == 0
      then some (h, 0)
      else (load h n.next_node >>= λ m.
          (let g = put (put h iter (some (cell m.content m.next_node))) n.next_node none in
            if m.next_node == 0
            then (owner_of m.content >>= λ q.
                (g.lists q >>= λ s.
                some (put_list g q (record { head = iter; tail = iter }), iter)))
            else some (g, iter)))

  -- `SlistForEach`: the action gets the data of `from` in each round, and the result is 0
  unfoldable pub for_each {κ} :
      {S : Type κ} → ℕ → Memory A → ℕ → ℕ → ℕ → (Content A → S → S × ℤ) → S → Option (S × ℤ)
  for_each zero h from runner to action param = none
  for_each (suc fuel) h from runner to action param = is_same_iter h runner to >>= λ s.
      if s
      then some (param, pos 0)
      else (get_content h from >>= λ c.
          (if is_zero (action c param).1
            then (next h runner >>= λ n. for_each fuel h from n to action (action c param).0)
            else some ((action c param).0, pos 0)))

  -- `SlistCount` with `CountNode`
  unfoldable pub count : ℕ → Memory A → ℕ → Option ℕ
  count fuel h q = begin h q >>= λ b.
      (list_end h q >>= λ e. (for_each fuel h b b e (λ c n. (n + 1, pos 0)) 0 >>= λ r. some r.0))

  -- `SlistFind`
  unfoldable pub find {κ} : {B : Type κ} → ℕ → Memory A → ℕ → ℕ → B → (A → B → ℤ) → Option ℕ
  find zero h runner to data_to_compare is_match_func = none
  find (suc fuel) h runner to data_to_compare is_match_func = is_same_iter h runner to >>= λ s.
      if s
      then some runner
      else (get_content h runner >>= λ c.
          (data_of c >>= λ x.
          (if is_zero (is_match_func x data_to_compare)
            then (next h runner >>= λ n. find fuel h n to data_to_compare is_match_func)
            else some runner)))

  unfoldable pub append : Memory A → ℕ → ℕ → Option (Memory A)
  append h dest src = begin h src >>= λ b. load h b >>= λ n.
      if n.next_node == 0
      then some h
      else (list_end h src >>= λ src_end. list_end h dest >>= λ dest_end.
          get_content h dest_end >>= λ c. set_content h src_end c >>= λ h1.
          get_content h1 b >>= λ c'. begin h dest >>= λ dest_begin.
          (let h2 = put h1 dest_end (some (cell c' n.next_node)) in
            let h3 = put_list h2 dest (record { head = dest_begin; tail = src_end }) in
            let h4 = put h3 b (some (cell (owner src) 0)) in
            some (put_list h4 src (record { head = b; tail = b }))))
