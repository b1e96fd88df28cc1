-- ===== src/Slab/Meta.antt =====
-- `MetaSlab`: a page whose first 64 bytes are its own, and whose other 63 blocks of 64 bytes are the
-- slabs of the other caches. The blocks that are free hang on a list.
pub mod Listed
pub mod Laws
use chestnut.Base.{
  ℕ, zero, suc, ◌+◌, ◌-◌, ◌*◌, ◌/◌, ◌%◌, ◌^◌, Bool, ◌&&◌, Option, none, some, ltb, leb, ◌==◌,
  if◌then◌else◌,
}
use chestnut.Links.{Links, delete, insert_after, init_head}

-- The page is the slab's memory as well, so `mem` is `this`. `links` are the nodes in it.
pub record MetaSlab : Type 0 where
  pub mem : ℕ
  pub links : Links
  pub nr_free_slab : ℕ

-- `&free_slab`, behind `node`.
unfoldable pub free_slab : ℕ → ℕ
free_slab mem = mem + 16

-- `mem() + obj_idx * 64`. A `BaseSlab` starts with its node.
unfoldable pub block : ℕ → ℕ → ℕ
block mem obj_idx = mem + obj_idx * 64

unfoldable pub is_empty : MetaSlab → Bool
is_empty s = s.nr_free_slab == 63

unfoldable pub is_full : MetaSlab → Bool
is_full s = s.nr_free_slab == 0

-- The loop of `Init`, with `left` rounds to go.
unfoldable pub link_blocks : ℕ → ℕ → ℕ → Links → Links
link_blocks zero head ptr s = s
link_blocks (suc left) head ptr s = link_blocks left head (ptr + 64) (insert_after ptr head s)

unfoldable pub start : MetaSlab → MetaSlab
start s = record s {
  links = link_blocks 63 (free_slab s.mem) (s.mem + 64) (init_head (free_slab s.mem) s.links);
  nr_free_slab = 63;
}

-- A `kassert` that fails halts the machine.
unfoldable pub init : ℕ → MetaSlab → Option MetaSlab
init total s = if total == 64 then some (start s) else none

-- `((u8 *) node - mem()) / 64` as an `int`, in 32 bits: a division rounds towards 0.
unfoldable pub block_index : ℕ → ℕ → ℕ
block_index mem node =
    if leb mem node
    then (node - mem) / 64 % 2 ^ 32
    else (2 ^ 32 - (mem - node) / 64 % 2 ^ 32) % 2 ^ 32

-- `obj_idx > 0 && obj_idx < 64`, of an `int` in 32 bits.
unfoldable pub in_page : ℕ → Bool
in_page idx = ltb 0 idx && ltb idx 64

unfoldable pub alloc : MetaSlab → Option (ℕ × MetaSlab)
alloc s =
    let node = s.links.next (free_slab s.mem) in
    let links = delete node s.links in
    let idx = block_index s.mem node in
    if ltb 0 s.nr_free_slab && in_page idx
    then some (idx, record s { links = links; nr_free_slab = s.nr_free_slab - 1 })
    else none

unfoldable pub free : ℕ → MetaSlab → Option MetaSlab
free obj_idx s =
    if in_page obj_idx
    then some (record s {
      links = insert_after (block s.mem obj_idx) (free_slab s.mem) s.links;
      nr_free_slab = (s.nr_free_slab + 1) % 2 ^ 8;
    })
    else none
