-- ===== src/PQueue/Tests.antt =====
-- pqueue.c, run: a queue of 10 and 20.
use daher_repo.Prelude.{ℕ, ◌≡◌, refl, some, List, ℤ, pos, sub_ℕ, ◌==◌, if◌then◌else◌}
use daher_repo.Dlist.{Store}
use daher_repo.Dlist.View.{data_of}
use daher_repo.Dlist.Tests.{list, pair, pair_store}
use daher_repo.PQueue.{PQueue}
use daher_repo.Dlist.Matching.{first_match}

abbrev queue : PQueue ℕ
queue = record { queue = record { list_of = list; sort_func = λ x d. sub_ℕ d x } }

abbrev store : Store ℕ
store = pair_store 10 20

abbrev ten_twenty : List (ℕ × ℕ)
ten_twenty = pair 10 20

abbrev same : ℕ → ℕ → ℤ
same x key = if x == key then pos 1 else pos 0

twenty_found : first_match same 20 (data_of ten_twenty) ≡ some 20
twenty_found = refl
