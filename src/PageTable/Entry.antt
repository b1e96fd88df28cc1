-- ===== src/PageTable/Entry.antt =====
-- The bits of a page table entry.
use Prim.Native.Nat.{bit_and}
use chestnut.Base.{
  ℕ, ◌-◌, ◌*◌, ◌/◌, ◌%◌, ◌^◌, ◌≤◌, ◌<◌, ◌≡◌, ap, ◌∙◌, arith, Bool, true, false, ◌==◌, if◌then◌else◌,
}
use chestnut.Base.Bits.{testbit, testbit-bit_and, testbit_shift, testbit_ext, bit_and-lt}
use native.Mathlib.Decide.{dec_le}
use chestnut.Pages.{page_size}
use chestnut.PageTable.{set_flag, get_flag, new_entry, large_entry, small_entry, physical_address}
use chestnut.PageTable.Flags.{address_mask, testbit-set_flag, set_flag-lt, get_flag-testbit}

-- An entry for the page at an address: what `physical_address()` and the flags give back.
pub record IsEntry (entry paddr : ℕ) (huge write_through : Bool) : Type 0 where
  pub address : physical_address entry ≡ paddr
  pub present : get_flag 0 entry ≡ true
  pub read_write : get_flag 1 entry ≡ true
  pub is_write_through : get_flag 3 entry ≡ write_through
  pub is_huge : get_flag 7 entry ≡ huge

-- The bits below 12 of a page's address are 0.
page_bit : (paddr i : ℕ) → paddr % page_size ≡ 0 → i < 12 → testbit paddr i ≡ false
page_bit paddr i aligned lt =
    let e : paddr ≡ paddr / 2 ^ 12 * 2 ^ 12 = omega arith in
    ap (λ (x : ℕ). testbit x i) e ∙ ground (arith, testbit_shift 12 (paddr / 2 ^ 12) i)

testbit-large_entry :
    (paddr i : ℕ) (write_through : Bool)
    → i < 64
    → testbit (large_entry paddr write_through) i ≡ (
        if 3 == i
        then write_through
        else if 7 == i
        then true
        else if 1 == i
        then true
        else if 0 == i
        then true
        else testbit paddr i)
unfolding large_entry new_entry
testbit-large_entry paddr i write_through lt = ground (
  arith,
  testbit-set_flag write_through 3 (set_flag true 7 (set_flag true 1 (set_flag true 0 paddr))) i
      (omega arith) lt,
  testbit-set_flag true 7 (set_flag true 1 (set_flag true 0 paddr)) i (omega arith) lt,
  testbit-set_flag true 1 (set_flag true 0 paddr) i (omega arith) lt,
  testbit-set_flag true 0 paddr i (omega arith) lt,
)

pub testbit-small_entry :
    (paddr i : ℕ) (write_through : Bool)
    → i < 64
    → testbit (small_entry paddr write_through) i ≡ (
        if 3 == i
        then write_through
        else if 1 == i
        then true
        else if 0 == i
        then true
        else testbit paddr i)
unfolding small_entry new_entry
testbit-small_entry paddr i write_through lt = ground (
  arith,
  testbit-set_flag write_through 3 (set_flag true 1 (set_flag true 0 paddr)) i (omega arith) lt,
  testbit-set_flag true 1 (set_flag true 0 paddr) i (omega arith) lt,
  testbit-set_flag true 0 paddr i (omega arith) lt,
)

large_entry-lt :
    (paddr : ℕ) (write_through : Bool) → paddr < 2 ^ 64 → large_entry paddr write_through < 2 ^ 64
unfolding large_entry new_entry
large_entry-lt paddr write_through lt = set_flag-lt write_through 3 _ (omega arith) (
    set_flag-lt true 7 _ (omega arith)
      (set_flag-lt true 1 _ (omega arith) (set_flag-lt true 0 paddr (omega arith) lt)))

pub small_entry-lt :
    (paddr : ℕ) (write_through : Bool) → paddr < 2 ^ 64 → small_entry paddr write_through < 2 ^ 64
unfolding small_entry new_entry
small_entry-lt paddr write_through lt =
    set_flag-lt write_through 3 _ (omega arith)
      (set_flag-lt true 1 _ (omega arith) (set_flag-lt true 0 paddr (omega arith) lt))

-- An entry whose bits from 9 on are those of a page's address gives the address back.
pub address_back :
    (entry paddr : ℕ)
    → entry < 2 ^ 64
    → paddr < 2 ^ 64
    → paddr % page_size ≡ 0
    → ((i : ℕ) → 9 ≤ i → i < 64 → testbit entry i ≡ testbit paddr i)
    → physical_address entry ≡ paddr
unfolding physical_address
address_back entry paddr small lt aligned same =
    testbit_ext 64 (bit_and entry (2 ^ 64 - 1 - 511)) paddr
      (bit_and-lt 64 entry (2 ^ 64 - 1 - 511) small (omega arith)) lt
      (λ i h. elim (dec_le 9 i) [
        | yes high ↦
            ground
              (arith, testbit-bit_and entry (2 ^ 64 - 1 - 511) i, address_mask i h, same i high h)
        | no low ↦ ground (
          arith,
          testbit-bit_and entry (2 ^ 64 - 1 - 511) i,
          address_mask i h,
          page_bit paddr i aligned (omega arith),
        )
      ])

-- The entries that map a page: the address comes back from the entry, it is present and writable, is
-- huge just when it is one for 2 MB or 1 GB, and is written through as asked for.
pub entries-IsEntry :
    (paddr : ℕ) (write_through : Bool)
    → paddr < 2 ^ 64
    → paddr % page_size ≡ 0
    → IsEntry (large_entry paddr write_through) paddr true write_through
      × IsEntry (small_entry paddr write_through) paddr false write_through
entries-IsEntry paddr write_through lt aligned =
    let large = large_entry paddr write_through in
    let small = small_entry paddr write_through in
    let ll = large_entry-lt paddr write_through lt in
    let sl = small_entry-lt paddr write_through lt in
    let lb = λ (i : ℕ) (h : i < 64). testbit-large_entry paddr i write_through h in
    let sb = λ (i : ℕ) (h : i < 64). testbit-small_entry paddr i write_through h in
    (
      record {
        address = address_back large paddr ll lt aligned (λ i ge h. ground (arith, lb i h));
        present = get_flag-testbit 0 large (omega arith) ll ∙ lb 0 (omega arith);
        read_write = get_flag-testbit 1 large (omega arith) ll ∙ lb 1 (omega arith);
        is_write_through = get_flag-testbit 3 large (omega arith) ll ∙ lb 3 (omega arith);
        is_huge = get_flag-testbit 7 large (omega arith) ll ∙ lb 7 (omega arith);
      },
      record {
        address = address_back small paddr sl lt aligned (λ i ge h. ground (arith, sb i h));
        present = get_flag-testbit 0 small (omega arith) sl ∙ sb 0 (omega arith);
        read_write = get_flag-testbit 1 small (omega arith) sl ∙ sb 1 (omega arith);
        is_write_through = get_flag-testbit 3 small (omega arith) sl ∙ sb 3 (omega arith);
        is_huge =
            get_flag-testbit 7 small (omega arith) sl
            ∙ (sb 7 (omega arith) ∙ page_bit paddr 7 aligned (omega arith));
      },
    )

testbit-new_entry :
    (paddr i : ℕ)
    → i < 64
    → testbit (new_entry paddr) i
      ≡ (if 1 == i then true else if 0 == i then true else testbit paddr i)
unfolding new_entry
testbit-new_entry paddr i lt = ground (
  arith,
  testbit-set_flag true 1 (set_flag true 0 paddr) i (omega arith) lt,
  testbit-set_flag true 0 paddr i (omega arith) lt,
)

new_entry-lt : (paddr : ℕ) → paddr < 2 ^ 64 → new_entry paddr < 2 ^ 64
unfolding new_entry
new_entry-lt paddr lt =
    set_flag-lt true 1 _ (omega arith) (set_flag-lt true 0 paddr (omega arith) lt)

-- The entry that `Allocate` makes for a table: it is present, not huge, and leads to the table.
pub new_entry_lem :
    (paddr : ℕ)
    → paddr < 2 ^ 64
    → paddr % page_size ≡ 0
    → (physical_address (new_entry paddr) ≡ paddr)
      × (get_flag 0 (new_entry paddr) ≡ true)
      × (get_flag 7 (new_entry paddr) ≡ false)
new_entry_lem paddr lt aligned =
    let small = new_entry-lt paddr lt in
    let bits = λ (i : ℕ) (h : i < 64). testbit-new_entry paddr i h in
    (
      address_back (new_entry paddr) paddr small lt aligned (λ i ge h. ground (arith, bits i h)),
      get_flag-testbit 0 (new_entry paddr) (omega arith) small ∙ bits 0 (omega arith),
      get_flag-testbit 7 (new_entry paddr) (omega arith) small
          ∙ (bits 7 (omega arith) ∙ page_bit paddr 7 aligned (omega arith)),
    )
