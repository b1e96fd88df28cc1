-- ===== src/Processor/ApicBase.antt =====
-- What `InitCpu` leaves in the base register of the local interrupt controller.
use Prim.Native.Nat.{bit_and}
use native.Mathlib.Nat.{div-div-eq-div-mul, pow-suc}
use chestnut.Base.{
  ℕ, zero, suc, ◌+◌, ◌-◌, ◌*◌, ◌/◌, ◌%◌, ◌^◌, ◌<◌, ◌≡◌, refl, sym, ap, ◌∙◌, Bool, true, not, ◌&&◌,
  ◌||◌, leb, ltb, ◌==◌, if◌then◌else◌, store_self, store_ne, ◌≢◌, arith,
}
use chestnut.Base.Bits.{
  testbit, testbit-bit_or, testbit-bit_and, testbit_above, testbit_pow, testbit_shift, bit_and-lt,
  bit_or-lt, passes, passes_at,
}
use chestnut.Processor.{
  MsrValue, set_msr, apic_base_msr, apic_base_mask, apic_base_enable, apic_base_value,
  set_apic_base, get_apic_base, renew_apic_base,
}

-- A shift to the right moves the bits down.
testbit_down : (k x i : ℕ) → testbit (x / 2 ^ k) i ≡ testbit x (k + i)
unfolding testbit
testbit_down zero x i =
    let e : x / 2 ^ 0 ≡ x = omega arith in let f : 0 + i ≡ i = omega arith in rw (e, f) refl
testbit_down (suc k) x i =
    let e : x / 2 ^ suc k ≡ x / 2 ^ k / 2 =
      ap (λ (n : ℕ). x / n) (omega (arith, pow-suc 2 k)) ∙ sym (div-div-eq-div-mul x (2 ^ k) 2) in
    let f : k + suc i ≡ suc k + i = omega arith in
    ap (λ (n : ℕ). testbit n i) e ∙ testbit_down k x (suc i) ∙ ap (testbit x) f

-- The mask has bit 8 and the bits from 12 on.
pub mask_bit : ℕ → Bool
mask_bit i = (8 == i) || leb 12 i

same_bit : Bool → Bool → Bool
same_bit a b = if a then b else not b

mask_table : passes (λ i. same_bit (mask_bit i) (testbit apic_base_mask i)) 32 ≡ true
unfolding passes testbit mask_bit same_bit
mask_table = refl

testbit-mask : (i : ℕ) → i < 32 → testbit apic_base_mask i ≡ mask_bit i
unfolding same_bit
testbit-mask i lt =
    let cell =
      passes_at (λ i. same_bit (mask_bit i) (testbit apic_base_mask i)) 32 i lt mask_table in
    ground (arith, cell)

low_mask_table : passes (λ i. same_bit (ltb i 4) (testbit 15 i)) 32 ≡ true
unfolding passes testbit same_bit
low_mask_table = refl

testbit-low_mask : (i : ℕ) → i < 32 → testbit 15 i ≡ ltb i 4
unfolding same_bit
testbit-low_mask i lt =
    let cell = passes_at (λ i. same_bit (ltb i 4) (testbit 15 i)) 32 i lt low_mask_table in
    ground (arith, cell)

module _ (v : MsrValue) (lo_small : v.lo < 2 ^ 32) (hi_small : v.hi < 2 ^ 32) where
  low_part : bit_and v.lo apic_base_mask < 2 ^ 32
  low_part = bit_and-lt 32 v.lo apic_base_mask lo_small (omega arith)

  high_part : bit_and v.hi 15 < 2 ^ 32
  high_part = bit_and-lt 32 v.hi 15 hi_small (omega arith)

  get-low : (i : ℕ) → i < 32 → testbit (get_apic_base v) i ≡ (testbit v.lo i && mask_bit i)
  unfolding get_apic_base
  get-low i lt = ground (
    arith,
    testbit-bit_or (bit_and v.lo apic_base_mask) (bit_and v.hi 15 * 2 ^ 32) i,
    testbit-bit_and v.lo apic_base_mask i,
    testbit_shift 32 (bit_and v.hi 15) i,
    testbit-mask i lt,
  )

  get-high : (i : ℕ) → i < 32 → testbit (get_apic_base v) (32 + i) ≡ (testbit v.hi i && ltb i 4)
  unfolding get_apic_base
  get-high i lt =
      let back : 32 + i - 32 ≡ i = omega arith in
      ground (
        arith,
        testbit-bit_or (bit_and v.lo apic_base_mask) (bit_and v.hi 15 * 2 ^ 32) (32 + i),
        testbit_above 32 (bit_and v.lo apic_base_mask) (32 + i) low_part (omega arith),
        testbit_shift 32 (bit_and v.hi 15) (32 + i),
        back,
        testbit-bit_and v.hi 15 i,
        testbit-low_mask i lt,
      )

  get-lt : get_apic_base v < 2 ^ 64
  unfolding get_apic_base
  get-lt =
      bit_or-lt 64 (bit_and v.lo apic_base_mask) (bit_and v.hi 15 * 2 ^ 32)
        (omega (arith, low_part)) (omega (arith, high_part))

  value-low :
      (i : ℕ)
      → i < 32
      → testbit (apic_base_value (get_apic_base v)).lo i
        ≡ ((11 == i) || (testbit v.lo i && mask_bit i))
  unfolding apic_base_value mask_bit
  value-low i lt = ground (
    arith,
    testbit-bit_or (bit_and (get_apic_base v) apic_base_mask) apic_base_enable i,
    testbit-bit_and (get_apic_base v) apic_base_mask i,
    testbit_pow 11 i,
    testbit-mask i lt,
    get-low i lt,
  )

  value-high :
      (i : ℕ)
      → i < 32
      → testbit (apic_base_value (get_apic_base v)).hi i ≡ (testbit v.hi i && ltb i 4)
  unfolding apic_base_value
  value-high i lt =
      let whole : get_apic_base v / 2 ^ 32 % 2 ^ 32 ≡ get_apic_base v / 2 ^ 32 =
        omega (arith, get-lt) in
      rw whole (
        ground (
          arith,
          testbit-bit_and (get_apic_base v / 2 ^ 32) 15 i,
          testbit_down 32 (get_apic_base v) i,
          testbit-low_mask i lt,
          get-high i lt,
        ))

-- `InitCpu` writes the base register of the controller back as it was, with the enable bit set: the bits
-- 12 to 35 of the address and the flag of the boot processor (bit 8) stay, and every other bit is
-- cleared. No other register changes.
pub renew_apic_base_lem :
    (msrs : ℕ → MsrValue)
    → (msrs apic_base_msr).lo < 2 ^ 32
    → (msrs apic_base_msr).hi < 2 ^ 32
    → ((i : ℕ)
        → i < 32
        → testbit (renew_apic_base msrs apic_base_msr).lo i
          ≡ ((11 == i) || (testbit (msrs apic_base_msr).lo i && mask_bit i)))
      × ((i : ℕ)
          → i < 32
          → testbit (renew_apic_base msrs apic_base_msr).hi i
            ≡ (testbit (msrs apic_base_msr).hi i && ltb i 4))
      × ((msr : ℕ) → apic_base_msr ≢ msr → renew_apic_base msrs msr ≡ msrs msr)
unfolding renew_apic_base set_apic_base set_msr
renew_apic_base_lem msrs lo_small hi_small =
    let v = msrs apic_base_msr in
    let here = store_self msrs apic_base_msr (apic_base_value (get_apic_base v)) in
    (
      λ i lt. ap (λ (m : MsrValue). testbit m.lo i) here ∙ value-low v lo_small hi_small i lt,
      λ i lt. ap (λ (m : MsrValue). testbit m.hi i) here ∙ value-high v lo_small hi_small i lt,
      λ msr other. store_ne msrs apic_base_msr (apic_base_value (get_apic_base v)) msr other,
    )
