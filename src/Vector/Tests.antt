-- ===== src/Vector/Tests.antt =====
-- vector.c on vectors of two numbers, with a `realloc` that fills up with zeros.
use daher_repo.Prelude.{ℕ, ◌≡◌, refl, some, [], ◌∷◌, arith, pos, negsuc}
use daher_repo.Vector.{Vector, push_back, is_full, make_room, reserve, append_last}
use daher_repo.Vector.Contents.{IsVector}
use daher_repo.Vector.ZeroFill.{grow, grow-IsRealloc}
use daher_repo.Vector.Growth.{Pushed, push_back_lem}

abbrev two : Vector ℕ
two = record { elements = 5 ∷ 6 ∷ []; capacity = 2; pointer = pos 1 }

two-IsVector : IsVector two (5 ∷ 6 ∷ [])
two-IsVector = record {
  array = refl;
  limit = omega arith;
  last = refl;
  room = omega arith;
  prefix = refl;
}

push-two :
    push_back grow two 7
    ≡ some (0, record { elements = 5 ∷ 6 ∷ 7 ∷ 0 ∷ []; capacity = 4; pointer = pos 2 })
unfolding push_back make_room is_full reserve append_last
push-two = refl

push_back_lem_example : Pushed grow two 7 (5 ∷ 6 ∷ [])
push_back_lem_example =
    push_back_lem grow grow-IsRealloc two 7 (5 ∷ 6 ∷ []) two-IsVector (omega arith) (omega arith)

abbrev no_capacity : Vector ℕ
no_capacity = record { elements = []; capacity = 0; pointer = negsuc 0 }

no_capacity-IsVector : IsVector no_capacity []
no_capacity-IsVector = record {
  array = refl;
  limit = omega arith;
  last = refl;
  room = omega arith;
  prefix = refl;
}
