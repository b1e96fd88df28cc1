-- ===== src/PageTable/Kernel/Boot.antt =====
-- The page table that the kernel boots with translates the first gigabyte behind `KERN_OFFSET`.
use native.Mathlib.Decide.{dec_lt}
use chestnut.Base.Bits.{testbit}
use chestnut.Base.{
  ℕ, zero, suc, ◌+◌, ◌*◌, ◌/◌, ◌%◌, ◌^◌, ◌≤◌, ◌<◌, ◌≡◌, ◌≢◌, refl, ap, ◌∙◌, true, false, some, ◌==◌,
  if◌then◌else◌, store, store_self, store_ne, arith,
}
use chestnut.Pages.{page_size}
use chestnut.PageTable.{large_page_size, set_flag, get_flag, new_entry, physical_address}
use chestnut.PageTable.Flags.{testbit-set_flag, set_flag-lt, get_flag-testbit}
use chestnut.PageTable.Entry.{address_back}
use chestnut.PageTable.Walk.{index, slot}
use chestnut.PageTable.Walk.Tree.{lookup, target, translate}
use chestnut.PageTable.Walk.Allocate.{apart_pages}
use chestnut.PageTable.Kernel.{
  kern_address, next_table, large_slot, boot_entry, map_boot, init_boot_page_table,
}

testbit-boot_entry :
    (paddr i : ℕ)
    → i < 64
    → testbit (boot_entry paddr) i
      ≡ (if 1 == i then true else if 0 == i then true else if 7 == i then true else testbit paddr i)
unfolding boot_entry new_entry
testbit-boot_entry paddr i lt = ground (
  arith,
  testbit-set_flag true 1
      (set_flag true 0 (set_flag true 7 (set_flag true 1 (set_flag true 0 paddr)))) i (omega arith)
      lt,
  testbit-set_flag true 0 (set_flag true 7 (set_flag true 1 (set_flag true 0 paddr))) i
      (omega arith) lt,
  testbit-set_flag true 7 (set_flag true 1 (set_flag true 0 paddr)) i (omega arith) lt,
  testbit-set_flag true 1 (set_flag true 0 paddr) i (omega arith) lt,
  testbit-set_flag true 0 paddr i (omega arith) lt,
)

boot_entry-lt : (paddr : ℕ) → paddr < 2 ^ 64 → boot_entry paddr < 2 ^ 64
unfolding boot_entry new_entry
boot_entry-lt paddr lt = set_flag-lt true 1 _ (omega arith) (
    set_flag-lt true 0 _ (omega arith) (
      set_flag-lt true 7 _ (omega arith)
        (set_flag-lt true 1 _ (omega arith) (set_flag-lt true 0 paddr (omega arith) lt))))

boot_entry_lem :
    (paddr : ℕ)
    → paddr < 2 ^ 64
    → paddr % page_size ≡ 0
    → (physical_address (boot_entry paddr) ≡ paddr)
      × (get_flag 0 (boot_entry paddr) ≡ true)
      × (get_flag 7 (boot_entry paddr) ≡ true)
boot_entry_lem paddr lt aligned =
    let e = boot_entry paddr in
    let small = boot_entry-lt paddr lt in
    let bits = λ (i : ℕ) (h : i < 64). testbit-boot_entry paddr i h in
    (
      address_back e paddr small lt aligned (λ i ge h. ground (arith, bits i h)),
      get_flag-testbit 0 e (omega arith) small ∙ bits 0 (omega arith),
      get_flag-testbit 7 e (omega arith) small ∙ bits 7 (omega arith),
    )

-- The tables on the way to an address: of level 3, 2 and 1, on three pages.
pub record IsBootTree (kern_offset cr3 pdpt pd : ℕ) (words : ℕ → ℕ) : Type 0 where
  pub to_pdpt : next_table words (physical_address cr3) 3 kern_offset ≡ pdpt
  pub to_pd : next_table words pdpt 2 kern_offset ≡ pd
  pub aligned :
      (physical_address cr3 % page_size ≡ 0) × (pdpt % page_size ≡ 0) × (pd % page_size ≡ 0)
  pub apart : (pd ≢ physical_address cr3) × (pd ≢ pdpt)
  pub linked :
      (get_flag 0 (words (slot (physical_address cr3) 3 kern_offset)) ≡ true)
      × (get_flag 7 (words (slot (physical_address cr3) 3 kern_offset)) ≡ false)
      × (get_flag 0 (words (slot pdpt 2 kern_offset)) ≡ true)
      × (get_flag 7 (words (slot pdpt 2 kern_offset)) ≡ false)

module _ (kern_offset cr3 pdpt pd : ℕ) (block : kern_offset % 2 ^ 30 ≡ 0)
    (below : kern_offset + 2 ^ 30 ≤ 2 ^ 64) where
  -- Where the addresses of the first gigabyte are in the tables.
  kern_index :
      (a : ℕ)
      → a < 2 ^ 30
      → (index 3 (kern_address kern_offset a) ≡ index 3 kern_offset)
        × (index 2 (kern_address kern_offset a) ≡ index 2 kern_offset)
        × (index 1 (kern_address kern_offset a) ≡ a / 2 ^ 21)
  unfolding index kern_address
  kern_index a lt = (omega arith, omega arith, omega arith)

  kern_slots :
      (a t : ℕ)
      → a < 2 ^ 30
      → (slot t 3 (kern_address kern_offset a) ≡ slot t 3 kern_offset)
        × (slot t 2 (kern_address kern_offset a) ≡ slot t 2 kern_offset)
        × (slot t 1 (kern_address kern_offset a) ≡ t + 8 * (a / 2 ^ 21))
  unfolding slot
  kern_slots a t lt =
      let (three, two, one) = kern_index a lt in
      (omega (arith, three), omega (arith, two), omega (arith, one))

  boot_slot :
      (a : ℕ) (words : ℕ → ℕ)
      → a < 2 ^ 30
      → IsBootTree kern_offset cr3 pdpt pd words
      → large_slot words cr3 (kern_address kern_offset a) ≡ pd + 8 * (a / 2 ^ 21)
  unfolding large_slot next_table
  boot_slot a words lt tree =
      rw
        (
          (kern_slots a (physical_address cr3) lt).0,
          tree.to_pdpt,
          (kern_slots a pdpt lt).1,
          tree.to_pd,
        )
        ((kern_slots a pd lt).2)

  index-small : (level v : ℕ) → index level v < 512
  unfolding index
  index-small level v = omega arith

  apart_slot :
      (t level v j : ℕ)
      → t % page_size ≡ 0
      → pd % page_size ≡ 0
      → pd ≢ t
      → j < 512
      → pd + 8 * j ≢ slot t level v
  unfolding slot
  apart_slot t level v j ta pa ne lt =
      apart_pages pd t (8 * j) (8 * index level v) pa ta ne (omega arith)
        (omega (arith, index-small level v))

  store-IsBootTree :
      (j e : ℕ) (words : ℕ → ℕ)
      → j < 512
      → IsBootTree kern_offset cr3 pdpt pd words
      → IsBootTree kern_offset cr3 pdpt pd (store words (pd + 8 * j) e)
  unfolding next_table
  store-IsBootTree j e words lt tree =
      let (ta, pa, da) = tree.aligned in
      let (from_top, from_pdpt) = tree.apart in
      let top =
        store_ne words (pd + 8 * j) e (slot (physical_address cr3) 3 kern_offset)
          (apart_slot (physical_address cr3) 3 kern_offset j ta da from_top lt) in
      let mid =
        store_ne words (pd + 8 * j) e (slot pdpt 2 kern_offset)
          (apart_slot pdpt 2 kern_offset j pa da from_pdpt lt) in
      let (a, b, c, d) = tree.linked in
      record {
        to_pdpt = ap physical_address top ∙ tree.to_pdpt;
        to_pd = ap physical_address mid ∙ tree.to_pd;
        aligned = tree.aligned;
        apart = tree.apart;
        linked = (
          ap (get_flag 0) top ∙ a,
          ap (get_flag 7) top ∙ b,
          ap (get_flag 0) mid ∙ c,
          ap (get_flag 7) mid ∙ d,
        );
      }

  -- The entries `i` to `i + left` of the last table are set, and nothing else.
  abbrev Sets : ℕ → ℕ → (ℕ → ℕ) → (ℕ → ℕ) → Type 0
  Sets left i words words' =
      IsBootTree kern_offset cr3 pdpt pd words'
      × ((j : ℕ) → i ≤ j → j < i + left → words' (pd + 8 * j) ≡ boot_entry (j * large_page_size))
      × ((x : ℕ) → ((j : ℕ) → i ≤ j → j < i + left → pd + 8 * j ≢ x) → words' x ≡ words x)

  map_boot-Sets :
      (left i : ℕ) (words : ℕ → ℕ)
      → i + left ≤ 512
      → IsBootTree kern_offset cr3 pdpt pd words
      → Sets left i words (map_boot left kern_offset cr3 (i * large_page_size) words)
  unfolding map_boot
  map_boot-Sets zero i words le tree = (tree, λ j ge lt. absurd (omega arith), λ x off. refl)
  map_boot-Sets (suc left) i words le tree =
      let base = i * large_page_size in
      let e = boot_entry base in
      let place : large_slot words cr3 (kern_address kern_offset base) ≡ pd + 8 * i =
        boot_slot base words (omega arith) tree ∙ ap (λ (n : ℕ). pd + 8 * n) (omega arith) in
      let next : base + large_page_size ≡ (i + 1) * large_page_size = omega arith in
      let (tree', set, other) =
        map_boot-Sets left (i + 1) (store words (pd + 8 * i) e) (omega arith)
          (store-IsBootTree i e words (omega arith) tree) in
      rw (place, next)
        (
          tree',
          λ j ge lt. elim (dec_lt i j) [
            | yes later ↦ set j (omega arith) (omega arith)
            | no first ↦
                let here : j ≡ i = omega arith in
                rw here (
                  other (pd + 8 * i) (λ k more less. λ same. omega (arith, same))
                  ∙ store_self words (pd + 8 * i) e)
          ],
          λ x off.
              other x (λ j ge lt. off j (omega arith) (omega arith))
              ∙ store_ne words (pd + 8 * i) e x (off i (omega arith) (omega arith)),
        )

  low_bits : (a : ℕ) → kern_address kern_offset a % 2 ^ 21 ≡ a % 2 ^ 21
  unfolding kern_address
  low_bits a = omega arith

  -- Behind `InitBootPageTable` each address of the first gigabyte behind `KERN_OFFSET` is translated
  -- to the address without the offset, and no word but the entries of the last table has changed,
  -- where `KERN_OFFSET` is a multiple of 1 GB and its tables are present.
  pub init_boot_page_table_lem :
      (words : ℕ → ℕ)
      → IsBootTree kern_offset cr3 pdpt pd words
      → ((a : ℕ)
          → a < 2 ^ 30
          → translate
              (physical_address cr3)
              (kern_address kern_offset a)
              (init_boot_page_table kern_offset cr3 words)
            ≡ some a)
        × ((x : ℕ)
            → ((j : ℕ) → j < 512 → pd + 8 * j ≢ x)
            → init_boot_page_table kern_offset cr3 words x ≡ words x)
  unfolding init_boot_page_table translate lookup next_table target
  init_boot_page_table_lem words tree =
      let (tree', set, other) = map_boot-Sets 512 0 words (omega arith) tree in
      (
        λ a lt.
            let v = kern_address kern_offset a in
            let base = a / 2 ^ 21 * large_page_size in
            let (to, present, huge) = boot_entry_lem base (omega arith) (omega arith) in
            let (p3, h3, p2, h2) = tree'.linked in
            let word = set (a / 2 ^ 21) (omega arith) (omega arith) in
            let offset : v % 2 ^ 21 ≡ a % 2 ^ 21 = low_bits a in
            let whole : base + a % 2 ^ 21 ≡ a = omega arith in
            rw
              (
                (kern_slots a (physical_address cr3) lt).0,
                p3,
                h3,
                tree'.to_pdpt,
                (kern_slots a pdpt lt).1,
                p2,
                h2,
                tree'.to_pd,
                (kern_slots a pd lt).2,
                word,
                present,
                huge,
                to,
                offset,
                whole,
              )
              refl,
        λ x off. other x (λ j ge lt. off j (omega arith)),
      )
