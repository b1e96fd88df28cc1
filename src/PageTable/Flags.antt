-- ===== src/PageTable/Flags.antt =====
-- The flags of a page table entry as its bits.
use Prim.Native.Nat.{bit_and}
use chestnut.Base.{
  ℕ, suc, ◌-◌, ◌^◌, ◌≤◌, ◌<◌, ◌≡◌, refl, ap, inl, inr, arith, Bool, true, false, not, Bool-cases,
  leb, ◌==◌, if◌then◌else◌,
}
use chestnut.Base.Bits.{
  testbit, testbit-bit_or, testbit-bit_and, testbit_pow, testbit_zero, testbit_ext, bit_and-lt,
  bit_or-lt, passes, passes_at,
}
use native.Mathlib.Nat.{pow-le-pow_right, pow-suc}
use chestnut.PageTable.{set_flag, get_flag}

-- The masks, for the flags in use.
clear_masks :
    passes
      (λ bit.
        passes
          (λ i.
            if bit == i
            then not (testbit (2 ^ 64 - 1 - 2 ^ bit) i)
            else testbit (2 ^ 64 - 1 - 2 ^ bit) i)
          64)
      8
    ≡ true
unfolding passes testbit
clear_masks = refl

clear_mask : (bit i : ℕ) → bit < 8 → i < 64 → testbit (2 ^ 64 - 1 - 2 ^ bit) i ≡ not (bit == i)
clear_mask bit i small lt =
    let row =
      passes_at
        (λ bit.
          passes
            (λ i.
              if bit == i
              then not (testbit (2 ^ 64 - 1 - 2 ^ bit) i)
              else testbit (2 ^ 64 - 1 - 2 ^ bit) i)
            64)
        8 bit small clear_masks in
    let cell =
      passes_at
        (λ i.
          if bit == i
          then not (testbit (2 ^ 64 - 1 - 2 ^ bit) i)
          else testbit (2 ^ 64 - 1 - 2 ^ bit) i)
        64 i lt row in
    ground arith

address_mask_table :
    passes
      (λ i. if leb 9 i then testbit (2 ^ 64 - 1 - 511) i else not (testbit (2 ^ 64 - 1 - 511) i))
      64
    ≡ true
unfolding passes testbit
address_mask_table = refl

pub address_mask : (i : ℕ) → i < 64 → testbit (2 ^ 64 - 1 - 511) i ≡ leb 9 i
address_mask i lt =
    let cell =
      passes_at
        (λ i. if leb 9 i then testbit (2 ^ 64 - 1 - 511) i else not (testbit (2 ^ 64 - 1 - 511) i))
        64 i lt address_mask_table in
    ground arith

flag-lt : (bit : ℕ) → bit < 64 → 2 ^ bit < 2 ^ 64
flag-lt bit lt =
    let high : 2 ^ suc bit ≤ 2 ^ 64 =
      pow-le-pow_right {n = 2} (omega arith) {i = suc bit} {j = 64} lt in
    let low : 2 ^ 0 ≤ 2 ^ bit =
      pow-le-pow_right {n = 2} (omega arith) {i = 0} {j = bit} (omega arith) in
    omega (arith, high, low, pow-suc 2 bit)

-- A flag is the bit that is set or cleared, and no other.
pub testbit-set_flag :
    (b : Bool) (bit entry i : ℕ)
    → bit < 8
    → i < 64
    → testbit (set_flag b bit entry) i ≡ (if bit == i then b else testbit entry i)
unfolding set_flag
testbit-set_flag true bit entry i small lt =
    ground (arith, testbit-bit_or entry (2 ^ bit) i, testbit_pow bit i)
testbit-set_flag false bit entry i small lt =
    ground (arith, testbit-bit_and entry (2 ^ 64 - 1 - 2 ^ bit) i, clear_mask bit i small lt)

pub set_flag-lt :
    (b : Bool) (bit entry : ℕ) → bit < 8 → entry < 2 ^ 64 → set_flag b bit entry < 2 ^ 64
unfolding set_flag
set_flag-lt true bit entry small lt = bit_or-lt 64 entry (2 ^ bit) lt (flag-lt bit (omega arith))
set_flag-lt false bit entry small lt = bit_and-lt 64 entry (2 ^ 64 - 1 - 2 ^ bit) lt (omega arith)

pub get_flag-testbit :
    (bit entry : ℕ) → bit < 64 → entry < 2 ^ 64 → get_flag bit entry ≡ testbit entry bit
unfolding get_flag
get_flag-testbit bit entry small lt = elim (Bool-cases (testbit entry bit)) [
  | inl on ↦ elim (Bool-cases (bit_and entry (2 ^ bit) == 0)) [
    | inl zero_and ↦
        let none_set : testbit (bit_and entry (2 ^ bit)) bit ≡ testbit 0 bit =
          ap (λ (x : ℕ). testbit x bit) (ground arith) in
        absurd (
          ground (
            arith,
            on,
            none_set,
            testbit-bit_and entry (2 ^ bit) bit,
            testbit_pow bit bit,
            testbit_zero bit,
          ))
    | inr some_and ↦ rw (some_and, on) refl
  ]
  | inr off ↦
      let none_set : bit_and entry (2 ^ bit) ≡ 0 =
        testbit_ext 64 (bit_and entry (2 ^ bit)) 0
          (bit_and-lt 64 entry (2 ^ bit) lt (flag-lt bit small)) (omega arith)
          (λ i h. elim (Bool-cases (bit == i)) [
            | inl same ↦
                let e : i ≡ bit = ground arith in
                rw e (ground (arith, off, testbit-bit_and entry (2 ^ bit) bit, testbit_zero bit))
            | inr other ↦
                ground (arith, testbit-bit_and entry (2 ^ bit) i, testbit_pow bit i, testbit_zero i)
          ]) in
      rw (none_set, off) refl
]
