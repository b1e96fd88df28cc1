-- ===== src/Apic/Redirect.antt =====
-- The redirection entries that `IoApic::Init` leaves.
use Prim.Native.Nat.{bit_or, bit_and}
use native.Mathlib.Decide.{dec_lt}
use chestnut.Base.{
  ℕ, zero, suc, ◌+◌, ◌*◌, ◌/◌, ◌%◌, ◌^◌, ◌≤◌, ◌<◌, ◌≡◌, refl, ap, ◌∙◌, inl, inr, arith, true, false,
  ◌&&◌, Bool-cases, some, ltb, ◌==◌,
}
use chestnut.Apic.{
  IoApic, read_register, write_register, set_entry, enable_irq, init_entry, init_entries, patch_id,
  init, max_interrupt,
}

-- The low word of an entry as it arrives: the `u8` of `Write` has dropped the rest.
abbrev pub vector_of : ℕ → ℕ → ℕ
vector_of base i = (32 + i + base) % 2 ^ 8

-- Entries `from` to `until` are written, and the registers below them are as they were.
pub record Redirects (s s' : IoApic) (first until : ℕ) : Type 0 where
  pub base : s'.interrupt_base ≡ s.interrupt_base
  pub low :
      (j : ℕ) → first ≤ j → j < until → s'.registers (16 + 2 * j) ≡ vector_of s.interrupt_base j
  pub high : (j : ℕ) → first ≤ j → j < until → s'.registers (16 + 2 * j + 1) ≡ 0
  pub below : (a : ℕ) → a < 16 + 2 * first → s'.registers a ≡ s.registers a

set_entry-Redirects :
    (i entry : ℕ) (s : IoApic)
    → i < 128
    → entry < 2 ^ 32
    → entry % 2 ^ 8 ≡ vector_of s.interrupt_base i
    → Redirects s (set_entry i entry s) i (i + 1)
unfolding set_entry write_register
set_entry-Redirects i entry s small fits e =
    let places : (16 + i % 2 ^ 8 * 2 % 2 ^ 8 ≡ 16 + 2 * i)
        × (16 + (i % 2 ^ 8 * 2 + 1) % 2 ^ 8 ≡ 16 + 2 * i + 1) =
      (omega arith, omega arith) in
    let low_word : entry % 2 ^ 32 % 2 ^ 8 ≡ vector_of s.interrupt_base i = omega (arith, e) in
    let high_word : entry / 2 ^ 32 % 2 ^ 32 % 2 ^ 8 ≡ 0 = omega arith in
    rw (places.0, places.1, low_word, high_word)
      (record {
        base = refl;
        low = λ j ge lt. let same : j ≡ i = omega arith in rw same (ground arith);
        high = λ j ge lt. let same : j ≡ i = omega arith in rw same (ground arith);
        below = λ a lt. ground arith;
      })

init_entry-Redirects :
    (i : ℕ) (s : IoApic)
    → i < 128
    → s.interrupt_base < 2 ^ 31
    → Redirects s (init_entry i s) i (i + 1)
unfolding init_entry enable_irq
init_entry-Redirects i s small base = elim (Bool-cases ((0 == s.interrupt_base) && (0 == i))) [
  | inl timer ↦
      let first : i ≡ 0 = ground arith in
      let whole : bit_or (2 ^ 16) ((32 + i) % 2 ^ 32) ≡ 2 ^ 16 + 32 =
        ap (λ (k : ℕ). bit_or (2 ^ 16) ((32 + k) % 2 ^ 32)) first in
      rw timer (
        set_entry-Redirects i (bit_or (2 ^ 16) ((32 + i) % 2 ^ 32)) s small (omega (arith, whole))
          (ground (arith, whole)))
  | inr other ↦ rw other (
      set_entry-Redirects i ((32 + i + s.interrupt_base) % 2 ^ 32) s small (omega arith)
        (omega arith))
]

init_entries-Redirects :
    (left i : ℕ) (s : IoApic)
    → i + left ≤ 128
    → s.interrupt_base < 2 ^ 31
    → Redirects s (init_entries left i s) i (i + left)
unfolding init_entries
init_entries-Redirects zero i s small base = record {
  base = refl;
  low = λ j ge lt. absurd (omega arith);
  high = λ j ge lt. absurd (omega arith);
  below = λ a lt. refl;
}
init_entries-Redirects (suc left) i s small base =
    let h = init_entry-Redirects i s (omega arith) base in
    let t =
      init_entries-Redirects left (i + 1) (init_entry i s) (omega arith) (omega (arith, h.base)) in
    record {
      base = t.base ∙ h.base;
      low = λ j ge lt. elim (dec_lt i j) [
        | yes later ↦ t.low j (omega arith) (omega arith) ∙ ap (λ (b : ℕ). vector_of b j) h.base
        | no now ↦ t.below (16 + 2 * j) (omega arith) ∙ h.low j ge (omega arith)
      ];
      high = λ j ge lt. elim (dec_lt i j) [
        | yes later ↦ t.high j (omega arith) (omega arith)
        | no now ↦ t.below (16 + 2 * j + 1) (omega arith) ∙ h.high j ge (omega arith)
      ];
      below = λ a lt. t.below a (omega arith) ∙ h.below a lt;
    }

-- The number of entries, less one, as the version register has it.
abbrev pub max_entry : IoApic → ℕ
max_entry s = bit_and (s.registers 1 / 2 ^ 16) 255

patch_id-keeps :
    (s : IoApic)
    → ((patch_id s).interrupt_base ≡ s.interrupt_base) × ((patch_id s).registers 1 ≡ s.registers 1)
unfolding patch_id read_register write_register
patch_id-keeps s = elim (Bool-cases (bit_and (s.registers 0 / 2 ^ 24) 15 == s.id)) [
  | inl same ↦ rw same (refl, refl)
  | inr other ↦ rw other (refl, refl)
]

-- `IoApic::Init` of a controller with 2 to 128 entries succeeds: behind it every entry, that of the timer too,
-- has the vector 32 + its number + the interrupt base, modulo 256, and no other bit, hence no
-- mask.
pub init-Redirects :
    (s : IoApic)
    → s.interrupt_base < 2 ^ 31
    → 0 < max_entry s
    → max_entry s < 128
    → (s' : IoApic) × (init s ≡ some s')
      × ((j : ℕ)
          → j ≤ max_entry s
          → (s'.registers (16 + 2 * j) ≡ vector_of s.interrupt_base j)
            × (s'.registers (16 + 2 * j + 1) ≡ 0))
unfolding init read_register
init-Redirects s base some_entry small =
    let (same_base, same_version) = patch_id-keeps s in
    let count : max_entry (patch_id s) ≡ max_entry s =
      ap (λ (v : ℕ). bit_and (v / 2 ^ 16) 255) same_version in
    let t =
      init_entries-Redirects (max_entry s + 1) 0 (record (patch_id s) { selected = 1 })
        (omega arith) (omega (arith, same_base)) in
    let ne : (max_entry s == 0) ≡ false = ground arith in
    let fits : ltb (max_entry s + 1) max_interrupt ≡ true = ground arith in
    (
      init_entries (max_entry s + 1) 0 (record (patch_id s) { selected = 1 }),
      rw (count, ne, fits) refl,
      λ j le. (
        t.low j (omega arith) (omega arith) ∙ ap (λ (b : ℕ). vector_of b j) same_base,
        t.high j (omega arith) (omega arith),
      ),
    )
