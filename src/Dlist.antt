-- ===== src/Dlist.antt =====
-- infinity/ds/dlist/dlist.c: doubly linked lists between two dummies, on a store of nodes. A pointer
-- is an address, and NULL is 0. The outer `none` of a result is a failed assert, a read or write
-- through an address that holds no node, or an end of the fuel.
pub mod Segments
pub mod Linking
pub mod View
pub mod Changing
pub mod Walking
pub mod Matching
pub mod Writing
pub mod Tests
use daher_repo.Prelude.{
  ℕ, zero, suc, ◌+◌, Bool, true, false, not, ◌||◌, Option, none, some, ◌==◌, if◌then◌else◌, ◌>>=◌,
  ◌>>◌, guard, ℤ, pos, negsuc, is_zero,
}

abbrev pub is_one : ℤ → Bool
is_one (pos n) = n == 1
is_one (negsuc n) = false

-- `dlist_node_t`; a dummy has no data of its own
pub record Node {ℓ} (A : Type ℓ) : Type ℓ where
  pub datum : Option A
  pub next_node : ℕ
  pub prev_node : ℕ

-- `dlist_t`: the addresses of the two dummies in it
pub record Dlist : Type 0 where
  pub begin_dummy : ℕ
  pub end_dummy : ℕ

abbrev pub Store {ℓ} : Type ℓ → Type ℓ
Store A = ℕ → Option (Node A)

unfoldable pub is_same_iter : ℕ → ℕ → Option Bool
is_same_iter one two = guard (not (one == 0)) >> (guard (not (two == 0)) >> some (one == two))

module _ {ℓ} {A : Type ℓ} where
  abbrev pub cell : Option A → ℕ → ℕ → Node A
  cell x n p = record { datum = x; next_node = n; prev_node = p }

  -- `none` gives the address back
  unfoldable pub put : Store A → ℕ → Option (Node A) → Store A
  put h p c a = if a == p then c else h a

  unfoldable pub load : Store A → ℕ → Option (Node A)
  load h p = if p == 0 then none else h p

  -- `p->next_node = q` and `p->prev_node = q`
  unfoldable pub set_next : Store A → ℕ → ℕ → Option (Store A)
  set_next h p q = load h p >>= λ n. some (put h p (some (cell n.datum q n.prev_node)))

  unfoldable pub set_prev : Store A → ℕ → ℕ → Option (Store A)
  set_prev h p q = load h p >>= λ n. some (put h p (some (cell n.datum n.next_node q)))

  -- `DlistCreate`; `b` and `e` are the addresses of the dummies in what `malloc` returned, and `b` is
  -- NULL where it failed
  unfoldable pub create : Store A → ℕ → ℕ → Store A × Option Dlist
  create h b e = if b == 0 then (h, none) else (
    put (put h b (some (cell none e 0))) e (some (cell none 0 b)),
    some (record { begin_dummy = b; end_dummy = e }),
  )

  unfoldable pub next : Store A → ℕ → Option ℕ
  next h iter = load h iter >>= λ n. some n.next_node

  unfoldable pub prev : Store A → ℕ → Option ℕ
  prev h iter = load h iter >>= λ n. some n.prev_node

  unfoldable pub begin : Store A → Dlist → Option ℕ
  begin h list = next h list.begin_dummy

  unfoldable pub is_empty : Store A → Dlist → Option Bool
  is_empty h list = begin h list >>= λ b. some (b == list.end_dummy)

  -- the loop of `DlistSize`
  unfoldable pub size_from : ℕ → Store A → Dlist → ℕ → ℕ → Option ℕ
  size_from zero h list runner counter = none
  size_from (suc fuel) h list runner counter =
      if list.end_dummy == runner
      then some counter
      else (next h runner >>= λ n. size_from fuel h list n (counter + 1))

  unfoldable pub size : ℕ → Store A → Dlist → Option ℕ
  size fuel h list = begin h list >>= λ b. size_from fuel h list b 0

  -- Neither pointer of the node is NULL: the asserts of `DlistGetData` and `DlistSetData`.
  unfoldable pub assert_inner : Node A → Option (Unit {0})
  assert_inner n = guard (not (n.next_node == 0)) >> guard (not (n.prev_node == 0))

  unfoldable pub get_data : Store A → ℕ → Option A
  get_data h iter = load h iter >>= λ n. (assert_inner n >> n.datum)

  unfoldable pub set_data : Store A → ℕ → A → Option (Store A)
  set_data h iter x = load h iter >>= λ n.
      (assert_inner n >> some (put h iter (some (cell (some x) n.next_node n.prev_node))))

  -- the part of `DlistInsert` that makes the new node; `CreatNewNode` clears it
  unfoldable pub make_node : Store A → ℕ → ℕ → A → Option (Store A)
  make_node h new_node where_at data_in =
      set_next (put h new_node (some (cell none 0 0))) new_node where_at >>= λ h1.
      (prev h1 where_at >>= λ p. (set_prev h1 new_node p >>= λ h2. set_data h2 new_node data_in))

  -- the part of `DlistInsert` that links it in
  unfoldable pub link_node : Store A → ℕ → ℕ → Option (Store A)
  link_node h new_node where_at =
      prev h where_at >>= λ p. (set_next h p new_node >>= λ h1. set_prev h1 where_at new_node)

  -- `malloc` returns an address, or NULL
  unfoldable pub insert : (Store A → ℕ) → Store A → Dlist → ℕ → A → Option (Store A × ℕ)
  insert malloc h list where_at data_in =
      guard (not (where_at == 0))
      >> (if malloc h == 0
          then some (h, list.end_dummy)
          else (make_node h (malloc h) where_at data_in >>= λ h1.
              (link_node h1 (malloc h) where_at >>= λ h2. some (h2, malloc h))))

  unfoldable pub remove : Store A → Dlist → ℕ → Option (Store A × ℕ)
  remove h list iter =
      guard (not (iter == 0))
      >> (guard (not (list.end_dummy == iter))
          >> (load h iter >>= λ n.
              (set_prev h n.next_node n.prev_node >>= λ h1.
              (load h1 iter >>= λ m.
              (set_next h1 m.prev_node m.next_node >>= λ h2.
              some (put h2 iter none, n.next_node))))))

  unfoldable pub push_front : (Store A → ℕ) → Store A → Dlist → A → Option (Store A × ℕ)
  push_front malloc h list data_in = begin h list >>= λ b. insert malloc h list b data_in

  unfoldable pub push_back : (Store A → ℕ) → Store A → Dlist → A → Option (Store A × ℕ)
  push_back malloc h list data_in = insert malloc h list list.end_dummy data_in

  unfoldable pub pop_front : Store A → Dlist → Option (Store A)
  pop_front h list = is_empty h list >>= λ e.
      (guard (not e) >> (begin h list >>= λ b. (remove h list b >>= λ r. some r.0)))

  unfoldable pub pop_back : Store A → Dlist → Option (Store A)
  pop_back h list = is_empty h list >>= λ e.
      (guard (not e) >> (prev h list.end_dummy >>= λ b. (remove h list b >>= λ r. some r.0)))

  -- `DlistForEach`, on the state behind `param`
  unfoldable pub for_each {κ} :
      {S : Type κ} → ℕ → Store A → ℕ → ℕ → (A → S → S × ℤ) → S → Option (S × ℤ)
  for_each zero h runner to action param = none
  for_each (suc fuel) h runner to action param = is_same_iter runner to >>= λ s.
      if s
      then some (param, pos 0)
      else (load h runner >>= λ n.
          (n.datum >>= λ x.
          (if is_zero (action x param).1
            then (next h runner >>= λ m. for_each fuel h m to action (action x param).0)
            else some (action x param))))

  unfoldable pub splice : Store A → ℕ → ℕ → ℕ → Option (Store A × ℕ)
  splice h where_at src_from src_to = prev h src_from >>= λ src_from_prev. prev h src_to >>= λ a.
      set_next h a where_at >>= λ h1. prev h1 where_at >>= λ b. set_next h1 b src_from >>= λ h2.
      prev h2 src_from >>= λ c. set_next h2 c src_to >>= λ h3. prev h3 where_at >>= λ d.
      set_prev h3 src_from d >>= λ h4. prev h4 src_to >>= λ e. set_prev h4 where_at e >>= λ h5.
      set_prev h5 src_to src_from_prev >>= λ h6. prev h6 where_at >>= λ f. some (h6, f)

  -- the loop of a search: on from `runner`, while it is not `to` and its data pass the test
  unfoldable pub scan : (A → Bool) → ℕ → Store A → ℕ → ℕ → Option ℕ
  scan goes_on zero h runner to = none
  scan goes_on (suc fuel) h runner to = is_same_iter runner to >>= λ s.
      if s
      then some runner
      else (get_data h runner >>= λ x.
          (if goes_on x then (next h runner >>= λ n. scan goes_on fuel h n to) else some runner))

  module _ {κ} {B : Type κ} (is_match_func : A → B → ℤ) where
    unfoldable pub find : ℕ → Store A → ℕ → ℕ → B → Option ℕ
    find fuel h from to data_to_compare =
        scan (λ x. is_zero (is_match_func x data_to_compare)) fuel h from to

    -- `DlistMultiFind`: the matches go to the back of `dest`; the result is 1 where memory ran out
    unfoldable pub multi_find :
        (Store A → ℕ) → ℕ → Store A → Dlist → ℕ → ℕ → B → Option (Store A × ℕ)
    multi_find malloc zero h dest runner to data_to_compare = none
    multi_find malloc (suc fuel) h dest runner to data_to_compare =
        let go_on : Store A → Option (Store A × ℕ) =
          (λ g. next g runner >>= λ n. multi_find malloc fuel g dest n to data_to_compare) in
        is_same_iter runner to >>= λ s.
        if s
        then some (h, 0)
        else (get_data h runner >>= λ x.
            (if is_one (is_match_func x data_to_compare)
              then (push_back malloc h dest x >>= λ p.
                  (next p.0 p.1 >>= λ after. if after == 0 then some (p.0, 1) else go_on p.0))
              else go_on h))
