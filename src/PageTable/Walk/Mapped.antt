-- ===== src/PageTable/Walk/Mapped.antt =====
-- What `MapPage` does to the translation of every address.
use chestnut.Base.Bits.{testbit}
use chestnut.Base.{
  ℕ, ◌+◌, ◌%◌, ◌^◌, ◌≤◌, ◌<◌, ◌≡◌, inl, inr, refl, sym, ap, ◌∙◌, Bool, true, Bool-cases, some, ◌==◌,
  if◌then◌else◌, arith, length,
}
use chestnut.Pages.{page_size}
use chestnut.PageTable.{get_flag, small_entry, physical_address}
use chestnut.PageTable.Flags.{testbit-set_flag, set_flag-lt, get_flag-testbit}
use chestnut.PageTable.Entry.{address_back, testbit-small_entry, small_entry-lt}
use chestnut.PageTable.Walk.{Tables, map_page, page_entry}
use chestnut.PageTable.Walk.Tree.{translate, target, region, Layout, IsTree}
use chestnut.PageTable.Walk.Allocate.{IsSupply}
use chestnut.PageTable.Walk.Step.{NoHuge}
use chestnut.PageTable.Walk.Laws.{put_lem}

testbit-page_entry :
    (paddr i : ℕ) (wt cd : Bool)
    → i < 64
    → testbit (page_entry paddr wt cd) i ≡ (if 4 == i then cd else testbit (small_entry paddr wt) i)
unfolding page_entry
testbit-page_entry paddr i wt cd lt =
    testbit-set_flag cd 4 (small_entry paddr wt) i (omega arith) lt

page_entry-lt : (paddr : ℕ) (wt cd : Bool) → paddr < 2 ^ 64 → page_entry paddr wt cd < 2 ^ 64
unfolding page_entry
page_entry-lt paddr wt cd lt =
    set_flag-lt cd 4 (small_entry paddr wt) (omega arith) (small_entry-lt paddr wt lt)

page_entry_lem :
    (paddr : ℕ) (wt cd : Bool)
    → paddr < 2 ^ 64
    → paddr % page_size ≡ 0
    → (physical_address (page_entry paddr wt cd) ≡ paddr)
      × (get_flag 0 (page_entry paddr wt cd) ≡ true)
page_entry_lem paddr wt cd lt aligned =
    let small = page_entry-lt paddr wt cd lt in
    let bits = λ (i : ℕ) (h : i < 64). testbit-page_entry paddr i wt cd h in
    let low = λ (i : ℕ) (h : i < 64). testbit-small_entry paddr i wt h in
    (
      address_back (page_entry paddr wt cd) paddr small lt aligned
          (λ i ge h. ground (arith, bits i h, low i h)),
      get_flag-testbit 0 (page_entry paddr wt cd) (omega arith) small
          ∙ (bits 0 (omega arith) ∙ low 0 (omega arith)),
    )

region_top : (v : ℕ) → region 4 v ≡ 0
unfolding region
region_top v = omega arith

-- A present table tree, without a page of 1 GB or 2 MB on the way to the address that is mapped, and
-- enough aligned, unused pages: `MapPage` succeeds. The page at `KERN_OFFSET + paddr`
-- (as 64 bits, of which the tables translate 48) is then translated to `paddr`, with the offset in the
-- page, and every address on another page as before.
pub map_page_lem :
    (kern_offset cr3 paddr : ℕ) (wt cd : Bool) (s : Tables) (layout : Layout)
    → IsTree s.words layout
    → layout (physical_address cr3) ≡ some (3, 0)
    → IsSupply layout s.free_pages
    → 3 ≤ length s.free_pages
    → NoHuge 3 (physical_address cr3) ((kern_offset + paddr) % 2 ^ 64) s.words
    → paddr < 2 ^ 64
    → paddr % page_size ≡ 0
    → (s' : Tables) × (map_page kern_offset cr3 paddr wt cd s ≡ some s')
      × ((w : ℕ)
          → translate (physical_address cr3) w s'.words ≡ (
              if region 0 w == region 0 ((kern_offset + paddr) % 2 ^ 64)
              then some (paddr + w % page_size)
              else translate (physical_address cr3) w s.words))
unfolding map_page translate target
map_page_lem kern_offset cr3 paddr wt cd s layout tree here supply enough flat lt aligned =
    let v = (kern_offset + paddr) % 2 ^ 64 in
    let (to, present) = page_entry_lem paddr wt cd lt aligned in
    let here' : layout (physical_address cr3) ≡ some (3, region 4 v) =
      here ∙ ap (λ (x : ℕ). some (3, x)) (sym (region_top v)) in
    let (s', e, m) =
      put_lem 3 (physical_address cr3) v (page_entry paddr wt cd) s.words s.free_pages layout
        (omega arith) tree here' supply enough flat present in
    (
      s',
      e,
      λ w.
          let look = m.mapped w (region_top w ∙ sym (region_top v)) in
          ap (target w) look ∙ (elim (Bool-cases (region 0 w == region 0 v)) [
            | inl same ↦ rw (same, to) refl
            | inr other ↦ rw other refl
          ]),
    )
