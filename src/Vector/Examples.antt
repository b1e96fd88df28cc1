-- ===== src/Vector/Examples.antt =====
-- Runs of the block functions and of the vector, and the theorems about them at concrete inputs.
use chestnut.Base.{ℕ, ◌-◌, ◌^◌, ◌≡◌, refl, arith, [], ◌∷◌, map}
use chestnut.Bytes.{Memory, memcpy, memmove}
use chestnut.Vector.{
  Vector, insert, remove, push_back, move_vector, size_sub, open_gap, ensure_space, extend,
  reset_ptr,
}

-- Each byte is its own address.
abbrev numbered : Memory
numbered a = a

-- Three elements of one byte, in an array with room for three.
abbrev three : Vector
three = record { capacity = 3; len = 3; ptr = 100; memory = numbered; freed = [] }

insert_test :
    map (insert 400 1 200 1 three).memory (400 ∷ 401 ∷ 402 ∷ 403 ∷ [])
    ≡ (100 ∷ 200 ∷ 101 ∷ 102 ∷ [])
unfolding insert open_gap size_sub memcpy ensure_space extend reset_ptr memmove
insert_test = refl

-- `Remove` of the first of four elements leaves the last one three times.
four_removed :
    map (remove 0 1 (record three { len = 4 })).memory (100 ∷ 101 ∷ 102 ∷ [])
    ≡ (103 ∷ 103 ∷ 103 ∷ [])
unfolding remove size_sub memmove
four_removed = refl

-- A vector that was moved keeps its capacity: the next element is written to the address 0.
moved_written : (push_back 400 200 1 (move_vector three).1).memory 0 ≡ 200
unfolding push_back move_vector insert open_gap size_sub memcpy ensure_space extend reset_ptr
    memmove
moved_written = refl

-- The number of elements that `PopBack` moves.
moved_by_pop : (n : ℕ) → size_sub (size_sub n n) 1 ≡ 2 ^ 64 - 1
unfolding size_sub
moved_by_pop n = ground arith
