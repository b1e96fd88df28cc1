-- ===== src/Links.antt =====
-- The intrusive, circular, doubly linked list of kern/libc/list.h. The `prev` and `next` fields of
-- all nodes stand in two memories, indexed by the address of the node.
pub mod Ring
pub mod Insert
pub mod Delete
pub mod Walk
mod Examples
use chestnut.Base.{ℕ, Bool, ◌==◌, store}

-- `struct ListNode`, for every address at once.
pub record Links : Type 0 where
  pub prev : ℕ → ℕ
  pub next : ℕ → ℕ

-- `a->next = b` and `a->prev = b`.
unfoldable pub set_next : Links → ℕ → ℕ → Links
set_next s a b = record s { next = store s.next a b }

unfoldable pub set_prev : Links → ℕ → ℕ → Links
set_prev s a b = record s { prev = store s.prev a b }

-- The methods take the address of the node that they are called on, as `this`.
unfoldable pub delete : ℕ → Links → Links
delete this s =
    let s = set_next s (s.prev this) (s.next this) in set_prev s (s.next this) (s.prev this)

unfoldable pub insert_before : ℕ → ℕ → Links → Links
insert_before this children s =
    let s = set_next s this children in
    let s = set_prev s this (s.prev children) in
    let s = set_prev s children this in set_next s (s.prev this) this

unfoldable pub insert_after : ℕ → ℕ → Links → Links
insert_after this parent s =
    let s = set_next s this (s.next parent) in
    let s = set_prev s this parent in
    let s = set_next s (s.prev this) this in set_prev s (s.next this) this

-- `next = prev = this`.
unfoldable pub init_head : ℕ → Links → Links
init_head this s = let s = set_prev s this this in set_next s this (s.prev this)

unfoldable pub is_empty : ℕ → Links → Bool
is_empty this s = s.next this == this
