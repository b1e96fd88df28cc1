-- ===== src/Bytes.antt =====
-- kern/libc/string.c: the functions on blocks of bytes. A memory gives the byte at each address, and
-- a length is one that an `int` holds.
pub mod Laws
use chestnut.Base.{ℕ, zero, suc, ◌+◌, ◌%◌, ◌^◌, store}

abbrev pub Memory : Type 0
Memory = ℕ → ℕ

-- From the first byte up.
unfoldable pub memcpy : ℕ → ℕ → ℕ → Memory → Memory
memcpy dst src zero m = m
memcpy dst src (suc len) m = memcpy (dst + 1) (src + 1) len (store m dst (m src))

-- From the last byte down: with `len` bytes to go after it, the byte at `src + len` is moved.
unfoldable pub memmove : ℕ → ℕ → ℕ → Memory → Memory
memmove dst src zero m = m
memmove dst src (suc len) m = memmove dst src len (store m (dst + len) (m (src + len)))

unfoldable pub memset : ℕ → ℕ → ℕ → Memory → Memory
memset b c zero m = m
memset b c (suc len) m = memset (b + 1) c len (store m b (c % 2 ^ 8))
