-- ===== src/CircularBuffer/Tests.antt =====
-- circular_buffer.c on a buffer of capacity 3 whose bytes go round the end of the array.
use daher_repo.Prelude.{◌-◌, ◌≡◌, refl, [], ◌∷◌, ◌++◌, min, arith, length, take, drop}
use daher_repo.CircularBuffer.{CBuffer, read, write, free_space, size}
use daher_repo.CircularBuffer.Bytes.{IsValid, contents, read_lem}
use daher_repo.CircularBuffer.Writing.{write_lem}

-- 8 and 9 at the places 3 and 0
abbrev round : CBuffer
round = record { capacity = 4; read_index = 3; write_index = 1; buffer_array = 9 ∷ 0 ∷ 0 ∷ 8 ∷ [] }

round-IsValid : IsValid round
round-IsValid = omega arith

contents-round : contents round ≡ 8 ∷ 9 ∷ []
unfolding size
contents-round = refl

write-round :
    write round (5 ∷ 6 ∷ []) 2
    ≡ (1, record round { buffer_array = 9 ∷ 5 ∷ 0 ∷ 8 ∷ []; write_index = 2 })
unfolding write free_space size
write-round = refl

read_lem_example :
    let (n, output, c') = read round 5 in
    (n ≡ min (length (contents round)) 5)
    × (output ≡ take n (contents round))
    × (contents c' ≡ drop n (contents round))
    × IsValid c'
read_lem_example = read_lem 5 round-IsValid

write_lem_example :
    let (n, c') = write round (5 ∷ 6 ∷ []) 2 in
    (n ≡ min (4 - 1 - length (contents round)) 2)
    × (contents c' ≡ contents round ++ take n (5 ∷ 6 ∷ []))
    × IsValid c'
write_lem_example = write_lem (5 ∷ 6 ∷ []) 2 round-IsValid (omega arith)
