-- ===== src/Apic/Command.antt =====
-- The two words of an interrupt command, field by field.
use chestnut.Base.{
  ℕ, ◌+◌, ◌-◌, ◌*◌, ◌%◌, ◌^◌, ◌<◌, ◌≡◌, refl, arith, Bool, true, false, ◌||◌, ◌&&◌, leb,
}
use chestnut.Base.Bits.{testbit, testbit-bit_or, testbit_shift, testbit_above}
use chestnut.Apic.{InterruptCommand, interrupt_command, of_bool}

of_bool-lt : (b : Bool) → of_bool b < 2
of_bool-lt true = omega arith
of_bool-lt false = omega arith

of_bool_bit : (b : Bool) → testbit (of_bool b) 0 ≡ b
unfolding testbit
of_bool_bit true = refl
of_bool_bit false = refl

-- A bit of the low word is one of the field that has its place, when the fields are no wider than
-- their places.
testbit-lo :
    (vector_num dmode destmode dshort dest i : ℕ) (is_no_deassert trigger_mode : Bool)
    → testbit
        (interrupt_command vector_num dmode destmode is_no_deassert trigger_mode dshort dest).lo
        i
      ≡ (((((testbit vector_num i || (leb 8 i && testbit dmode (i - 8)))
                || (leb 11 i && testbit destmode (i - 11)))
              || (leb 14 i && testbit (of_bool is_no_deassert) (i - 14)))
            || (leb 15 i && testbit (of_bool trigger_mode) (i - 15)))
          || (leb 18 i && testbit dshort (i - 18)))
unfolding interrupt_command
testbit-lo vector_num dmode destmode dshort dest i is_no_deassert trigger_mode =
    rw
      (
        testbit-bit_or, testbit-bit_or, testbit-bit_or, testbit-bit_or, testbit-bit_or,
        testbit_shift, testbit_shift, testbit_shift, testbit_shift, testbit_shift,
      )
      refl

shift_back : (k i : ℕ) → k + i - k ≡ i
shift_back k i = omega arith

testbit-hi :
    (vector_num dmode destmode dshort dest i : ℕ) (is_no_deassert trigger_mode : Bool)
    → dest < 2 ^ 8
    → testbit
        (interrupt_command vector_num dmode destmode is_no_deassert trigger_mode dshort dest).hi
        (24 + i)
      ≡ testbit dest i
unfolding interrupt_command
testbit-hi vector_num dmode destmode dshort dest i is_no_deassert trigger_mode small =
    let whole : dest * 2 ^ 24 % 2 ^ 32 ≡ dest * 2 ^ 24 = omega arith in
    rw (whole, testbit_shift 24 dest (24 + i), shift_back 24 i) (ground arith)

-- Where the fields of an interrupt command are: the bits of the low word that hold them, and those
-- of the high word.
pub record HasFields (command : InterruptCommand) (vector_num dmode destmode dshort dest : ℕ)
    (is_no_deassert trigger_mode : Bool) : Type 0 where
  pub vector_bits : (i : ℕ) → i < 8 → testbit command.lo i ≡ testbit vector_num i
  pub mode_bits : (i : ℕ) → i < 3 → testbit command.lo (8 + i) ≡ testbit dmode i
  pub destination_bit : testbit command.lo 11 ≡ testbit destmode 0
  pub level_bit : testbit command.lo 14 ≡ is_no_deassert
  pub trigger_bit : testbit command.lo 15 ≡ trigger_mode
  pub shorthand_bits : (i : ℕ) → i < 2 → testbit command.lo (18 + i) ≡ testbit dshort i
  pub destination_bits : (i : ℕ) → i < 8 → testbit command.hi (24 + i) ≡ testbit dest i

-- The constructor of an interrupt command puts every field in its place, and no field disturbs
-- another, when each is no wider than its place.
pub interrupt_command-HasFields :
    (vector_num dmode destmode dshort dest : ℕ) (is_no_deassert trigger_mode : Bool)
    → vector_num < 2 ^ 8
    → dmode < 2 ^ 3
    → destmode < 2 ^ 1
    → dshort < 2 ^ 2
    → dest < 2 ^ 8
    → HasFields
        (interrupt_command vector_num dmode destmode is_no_deassert trigger_mode dshort dest)
        vector_num
        dmode
        destmode
        dshort
        dest
        is_no_deassert
        trigger_mode
interrupt_command-HasFields v m d s t n g hv hm hd hs ht =
    let low = λ (i : ℕ). testbit-lo v m d s t i n g in
    let one = of_bool-lt n in
    let two = of_bool-lt g in
    record {
      vector_bits = λ i lt. ground (arith, low i);
      mode_bits = λ i lt. ground (arith, low (8 + i), testbit_above 8 v (8 + i) hv (omega arith));
      destination_bit = ground (
        arith,
        low 11,
        testbit_above 8 v 11 hv (omega arith),
        testbit_above 3 m 3 hm (omega arith),
      );
      level_bit = ground (
        arith,
        low 14,
        of_bool_bit n,
        testbit_above 8 v 14 hv (omega arith),
        testbit_above 3 m 6 hm (omega arith),
        testbit_above 1 d 3 hd (omega arith),
      );
      trigger_bit = ground (
        arith,
        low 15,
        of_bool_bit g,
        testbit_above 8 v 15 hv (omega arith),
        testbit_above 3 m 7 hm (omega arith),
        testbit_above 1 d 4 hd (omega arith),
        testbit_above 1 (of_bool n) 1 one (omega arith),
      );
      shorthand_bits = λ i lt. ground (
        arith,
        low (18 + i),
        testbit_above 8 v (18 + i) hv (omega arith),
        testbit_above 3 m (18 + i - 8) hm (omega arith),
        testbit_above 1 d (18 + i - 11) hd (omega arith),
        testbit_above 1 (of_bool n) (18 + i - 14) one (omega arith),
        testbit_above 1 (of_bool g) (18 + i - 15) two (omega arith),
        shift_back 18 i,
      );
      destination_bits = λ i lt. testbit-hi v m d s t i n g ht;
    }
