-- ===== src/Vector.antt =====
-- `BaseVector` and `Vector<T>` (kern/libc/vector.h and vector.cc), over a memory of bytes. `T` has
-- `ele_size` bytes, which its copy constructor copies and its destructor leaves alone. A `size_t` has
-- 64 bits. The length that `memcpy` and `memmove` take is an `int`: of a number of bytes it keeps the lower
-- 32 bits. From 2^31 on it is below 0, and C++ leaves open what the loops over it do; they are taken
-- to wrap around.
pub mod Laws
mod Examples
use chestnut.Base.{
  ℕ, ◌+◌, ◌-◌, ◌*◌, ◌%◌, ◌^◌, Bool, Option, none, some, List, [], ◌∷◌, ltb, leb, ◌==◌,
  if◌then◌else◌,
}
use chestnut.Bytes.{Memory, memcpy, memmove}

-- `freed` records the calls of `kernel::Free`, the newest first.
pub record Vector : Type 0 where
  pub capacity : ℕ
  pub len : ℕ
  pub ptr : ℕ
  pub memory : Memory
  pub freed : List ℕ

-- The default constructor.
unfoldable pub new_vector : Memory → Vector
new_vector m = record { capacity = 0; len = 0; ptr = 0; memory = m; freed = [] }

-- The move constructor: the new vector, and what it leaves of the old one.
unfoldable pub move_vector : Vector → Vector × Vector
move_vector rhs = (record rhs { capacity = rhs.len }, record rhs { ptr = 0; len = 0 })

-- The difference of two `size_t`.
unfoldable pub size_sub : ℕ → ℕ → ℕ
size_sub a b = if leb b a then a - b else 2 ^ 64 - (b - a)

-- `ResetPtr`, where `fresh` is what `kernel::Alloc` gives.
unfoldable pub reset_ptr : ℕ → ℕ → ℕ → Vector → Vector
reset_ptr fresh new_capacity ele_size v =
    if new_capacity == 0
    then record v { ptr = 0; freed = v.ptr ∷ v.freed; capacity = 0 }
    else record v {
      ptr = fresh;
      memory = memcpy fresh v.ptr (v.len * ele_size % 2 ^ 32) v.memory;
      freed = v.ptr ∷ v.freed;
      capacity = new_capacity;
    }

unfoldable pub compact : ℕ → ℕ → Vector → Vector
compact fresh ele_size v = reset_ptr fresh v.len ele_size v

unfoldable pub extend : ℕ → ℕ → Vector → Vector
extend fresh ele_size v =
    if v.capacity == 0
    then reset_ptr fresh 16 ele_size v
    else reset_ptr fresh (v.capacity * 2) ele_size v

unfoldable pub ensure_space : ℕ → ℕ → ℕ → Vector → Vector
ensure_space fresh idx ele_size v = if leb v.capacity idx then extend fresh ele_size v else v

unfoldable pub copy_from : ℕ → Vector → ℕ → Vector → Vector
copy_from fresh src ele_size v = record v {
  len = src.len;
  capacity = src.capacity;
  ptr = fresh;
  memory = memcpy fresh src.ptr (ele_size * src.len % 2 ^ 32) v.memory;
  freed = v.ptr ∷ v.freed;
}

-- The address of an element, with the check of `operator[]`; `none` is the panic.
unfoldable pub index : ℕ → ℕ → Vector → Option ℕ
index idx ele_size v = if leb v.len idx then none else some (v.ptr + idx * ele_size)

-- The body of `Insert` behind `EnsureSpace`, of the `T` at `xref`.
unfoldable pub open_gap : ℕ → ℕ → ℕ → Vector → Vector
open_gap pos xref ele_size v =
    let m =
      memmove (v.ptr + (pos + 1) * ele_size) (v.ptr + pos * ele_size)
        (size_sub v.len pos * ele_size % 2 ^ 32) v.memory in
    record v { memory = memcpy (v.ptr + pos * ele_size) xref ele_size m; len = v.len + 1 }

unfoldable pub insert : ℕ → ℕ → ℕ → ℕ → Vector → Vector
insert fresh pos xref ele_size v = open_gap pos xref ele_size (ensure_space fresh v.len ele_size v)

unfoldable pub remove : ℕ → ℕ → Vector → Vector
remove pos ele_size v = record v {
  memory =
      memmove (v.ptr + pos * ele_size) (v.ptr + (pos + 1) * ele_size)
        (size_sub (size_sub v.len pos) 1 * ele_size % 2 ^ 32) v.memory;
  len = size_sub v.len 1;
}

unfoldable pub push_back : ℕ → ℕ → ℕ → Vector → Vector
push_back fresh xref ele_size v = insert fresh v.len xref ele_size v

unfoldable pub pop_back : ℕ → Vector → Vector
pop_back ele_size v = remove v.len ele_size v

-- The places that `begin` and `end` give.
unfoldable pub begin : Vector → ℕ
begin v = v.ptr

unfoldable pub end : ℕ → Vector → ℕ
end ele_size v = v.ptr + v.len * ele_size
