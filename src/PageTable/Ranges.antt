-- ===== src/PageTable/Ranges.antt =====
-- The mappings of a range cover it, one behind the other.
use chestnut.Base.{
  ℕ, zero, suc, ◌+◌, ◌*◌, ◌%◌, ◌^◌, ◌≤◌, ◌<◌, ◌≡◌, ◌⊎◌, refl, sym, subst, inl, inr, arith, Bool,
  false, ◌&&◌, Bool-cases, some, List, [], ◌∷◌, ltb, leb, ◌==◌,
}
use chestnut.Pages.{page_size}
use chestnut.PageTable.{huge_page_size, large_page_size, Mapping, next_mapping, map_pages}

-- The mappings lie one behind the other from `addr` on, each at a multiple of its size. The last
-- one reaches the end; only a small page reaches beyond it.
pub Tiles : ℕ → ℕ → List Mapping → Type 0
Tiles addr finish [] = finish ≤ addr
Tiles addr finish (m ∷ ms) =
    (m.addr ≡ addr)
    × (addr < finish)
    × (addr % m.size ≡ 0)
    × (page_size ≤ m.size)
    × ((m.size ≡ page_size) ⊎ (addr + m.size ≤ finish))
    × Tiles (addr + m.size) finish ms

-- What one round maps.
next_mapping-cases :
    (skip write_through : Bool) (finish addr : ℕ)
    → addr % page_size ≡ 0
    → addr < finish
    → finish + huge_page_size ≤ 2 ^ 64
    → ((next_mapping skip write_through finish addr).addr ≡ addr)
      × (addr % (next_mapping skip write_through finish addr).size ≡ 0)
      × (page_size ≤ (next_mapping skip write_through finish addr).size)
      × (((next_mapping skip write_through finish addr).size ≡ page_size)
          ⊎ (addr + (next_mapping skip write_through finish addr).size ≤ finish))
      × ((addr + (next_mapping skip write_through finish addr).size) % page_size ≡ 0)
      × ((addr + (next_mapping skip write_through finish addr).size) % 2 ^ 64
          ≡ addr + (next_mapping skip write_through finish addr).size)
unfolding next_mapping
next_mapping-cases skip write_through finish addr aligned inside small =
    elim (Bool-cases
      (skip && ((addr % huge_page_size == 0) && leb ((addr + huge_page_size) % 2 ^ 64) finish))) [
        | inl huge ↦
            rw huge (refl, ground arith, omega arith, inr (ground arith), omega arith, omega arith)
        | inr no_huge ↦
            elim (Bool-cases (
              skip
              && ((addr % large_page_size == 0)
                  && leb ((addr + large_page_size) % 2 ^ 64) finish))) [
                    | inl large ↦
                        rw (no_huge, large)
                          (
                            refl,
                            ground arith,
                            omega arith,
                            inr (ground arith),
                            omega arith,
                            omega arith,
                          )
                    | inr no_large ↦
                        rw (no_huge, no_large)
                          (refl, aligned, omega arith, inl refl, omega arith, omega arith)
                  ]
      ]

-- From a page's address on, up to an end that is a huge page or more before 2^64, a round for every page is
-- enough for the loop of `MapPagesToPageTable` to end, and its mappings lie one behind the other up to
-- the end of the range: each is at a multiple of its size, and none but the last small page reaches
-- beyond the end.
pub map_pages-Tiles :
    (fuel : ℕ) (skip write_through : Bool) (finish addr : ℕ)
    → addr % page_size ≡ 0
    → finish ≤ addr + fuel * page_size
    → finish + huge_page_size ≤ 2 ^ 64
    → (ms : List Mapping) × (map_pages fuel skip write_through finish addr ≡ some ms)
      × Tiles addr finish ms
unfolding map_pages Tiles
map_pages-Tiles zero skip write_through finish addr aligned enough small =
    let over : ltb addr finish ≡ false = ground arith in ([], rw over refl, omega arith)
map_pages-Tiles (suc fuel) skip write_through finish addr aligned enough small =
    elim (Bool-cases (ltb addr finish)) [
      | inr over ↦ ([], rw (over, map_pages) refl, ground arith)
      | inl more ↦
          let m = next_mapping skip write_through finish addr in
          let (here, multiple, size, within, next, whole) =
            next_mapping-cases skip write_through finish addr aligned (ground arith) small in
          let (ms, e, t) =
            map_pages-Tiles fuel skip write_through finish (addr + m.size) next (omega arith)
              small in
          let e' : map_pages fuel skip write_through finish ((addr + m.size) % 2 ^ 64) ≡ some ms =
            subst (λ a. map_pages fuel skip write_through finish a ≡ some ms) (sym whole) e in
          (m ∷ ms, rw (more, e', map_pages) refl, (here, ground arith, multiple, size, within, t))
    ]
