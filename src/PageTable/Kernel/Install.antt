-- ===== src/PageTable/Kernel/Install.antt =====
-- The end of `InitKernelPageTable`: the low addresses leave the page table, and the kernel's entry gets
-- in it.
use chestnut.Base.{ℕ, ◌≡◌, ◌≢◌, refl, sym, ap, ◌∙◌, none, store, store_self, store_ne, arith}
use chestnut.PageTable.{physical_address}
use chestnut.PageTable.Walk.{index, slot}
use chestnut.PageTable.Walk.Tree.{lookup, target, translate}
use chestnut.PageTable.Walk.Allocate.{no_flags}
use chestnut.PageTable.Kernel.{install_entry}

slot_eq : (t a b : ℕ) → index 3 a ≡ index 3 b → slot t 3 a ≡ slot t 3 b
unfolding slot
slot_eq t a b e = omega (arith, e)

slot_ne : (t a b : ℕ) → index 3 a ≢ index 3 b → slot t 3 a ≢ slot t 3 b
unfolding slot
slot_ne t a b ne e = ne (omega (arith, e))

index_zero : index 3 0 ≡ 0
unfolding index
index_zero = refl

-- Behind the end of `InitKernelPageTable`, with `KERN_OFFSET` above the first 512 GB: no address of
-- the first 512 GB is translated any more, whatever the tables are; an address that shares its entry
-- with `KERN_OFFSET` has the kernel's entry; and no other word has changed.
pub install_entry_lem :
    (kern_offset cr3 entry : ℕ) (words : ℕ → ℕ)
    → index 3 kern_offset ≢ 0
    → ((w : ℕ)
        → index 3 w ≡ 0
        → translate (physical_address cr3) w (install_entry kern_offset cr3 entry words) ≡ none)
      × ((w : ℕ)
          → index 3 w ≡ index 3 kern_offset
          → install_entry kern_offset cr3 entry words (slot (physical_address cr3) 3 w) ≡ entry)
      × ((x : ℕ)
          → slot (physical_address cr3) 3 0 ≢ x
          → slot (physical_address cr3) 3 kern_offset ≢ x
          → install_entry kern_offset cr3 entry words x ≡ words x)
unfolding install_entry translate lookup target
install_entry_lem kern_offset cr3 entry words high =
    let root = physical_address cr3 in
    let low = slot root 3 0 in
    let top = slot root 3 kern_offset in
    let cleared = store words low 0 in
    (
      λ w zero_w.
          let at_low : slot root 3 w ≡ low = slot_eq root w 0 (zero_w ∙ sym index_zero) in
          let word : store cleared top entry low ≡ 0 =
            store_ne cleared top entry low (slot_ne root kern_offset 0 (λ e. high (e ∙ index_zero)))
            ∙ store_self words low 0 in
          rw (at_low, word, no_flags 0) refl,
      λ w same.
          ap (store cleared top entry) (slot_eq root w kern_offset same)
          ∙ store_self cleared top entry,
      λ x off_low off_top. store_ne cleared top entry x off_top ∙ store_ne words low 0 x off_low,
    )
