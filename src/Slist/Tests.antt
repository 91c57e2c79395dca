-- ===== src/Slist/Tests.antt =====
-- queue.c, run: a queue of 10 and 20 at the address 1, with the nodes 3 and 4 and the dummy 2.
use daher_repo.Prelude.{
  ℕ, ◌≡◌, refl, false, none, some, List, [], ◌∷◌, ◌==◌, if◌then◌else◌, map, arith,
}
use daher_repo.Slist.{Memory, datum, owner, cell}
use daher_repo.Slist.Queue.{enqueue, dequeue, peek}
use daher_repo.Slist.Line.{IsSlist, enqueue-IsSlist, dequeue-IsSlist}

abbrev memory : Memory ℕ
memory = record {
  nodes = λ a.
      if a == 2
      then some (cell (owner 1) 0)
      else if a == 3
      then some (cell (datum 10) 4)
      else if a == 4
      then some (cell (datum 20) 2)
      else none;
  lists = λ a. if a == 1 then some (record { head = 3; tail = 2 }) else none;
}

abbrev ten_twenty : List (ℕ × ℕ)
ten_twenty = (3, 10) ∷ (4, 20) ∷ []

memory-IsSlist : IsSlist memory 1 ten_twenty 2
memory-IsSlist = record {
  listed = refl;
  line = (refl, (refl, refl));
  distinct = (
    omega arith,
    (omega arith, ((omega arith, tt), (omega arith, (omega arith, (tt, omega arith))))),
  );
}

enqueue-IsSlist_example :
    (g : Memory ℕ) × (enqueue 3 memory 5 1 30 ≡ some (g, false))
    × IsSlist g 1 ((3, 10) ∷ (4, 20) ∷ (2, 30) ∷ []) 5
enqueue-IsSlist_example =
    enqueue-IsSlist 3 memory 1 ten_twenty 2 5 30 memory-IsSlist (omega arith) refl

dequeue-IsSlist_example :
    (g : Memory ℕ) × (ys : List (ℕ × ℕ)) × (end_node : ℕ) × (peek memory 1 ≡ some 10)
    × (dequeue memory 1 ≡ some g)
    × IsSlist g 1 ys end_node
    × (map (λ y. y.1) ys ≡ 20 ∷ [])
dequeue-IsSlist_example = dequeue-IsSlist memory 1 ((4, 20) ∷ []) 3 2 10 memory-IsSlist
