-- ===== src/Ports/Bytes.antt =====
-- The words that are read are made of the bytes.
use Prim.Native.Nat.{bit_and, bit_or}
use chestnut.Base.{
  ℕ, ◌+◌, ◌*◌, ◌/◌, ◌%◌, ◌^◌, ◌<◌, ◌≡◌, refl, ap, ◌∙◌, Bool, true, ◌&&◌, some, ltb, ◌==◌, arith,
}
use chestnut.Base.Bits.{bit_and_one, passes, passes_at}
use chestnut.Ports.{pci_address, pci_read_b, pci_read_w, pci_read_dw}

mask_test : ℕ → Bool
mask_test k =
    (bit_and k 252 == k / 4 * 4) && ((bit_and k 3 == k % 4) && (bit_and k 2 == k % 4 / 2 * 2))

mask_table : passes mask_test 256 ≡ true
unfolding passes mask_test
mask_table = refl

masks :
    (k : ℕ)
    → k < 256
    → (bit_and k 252 ≡ k / 4 * 4)
      × (bit_and k 3 ≡ k % 4)
      × (bit_and k 2 ≡ k % 4 / 2 * 2)
      × (bit_and k 1 ≡ k % 2)
unfolding mask_test
masks k lt =
    let row = passes_at mask_test 256 k lt mask_table in
    (ground (arith, row), ground (arith, row), ground (arith, row), bit_and_one k)

-- The address with its assertions passed.
address_of : ℕ → ℕ → ℕ → ℕ → ℕ
address_of bus slot func line =
    bit_or (bit_or (bit_or (bit_or (bus * 2 ^ 16) (slot * 2 ^ 11)) (func * 2 ^ 8)) line) (2 ^ 31)

module _ (config : ℕ → ℕ) (bus slot func offset : ℕ) (slot_fits : slot < 32) (func_fits : func < 8)
    (offset_fits : offset < 256) (aligned : offset % 4 ≡ 0) where
  word : ℕ
  word = config (address_of bus slot func offset)

  address_here :
      (i : ℕ)
      → i < 4
      → pci_address bus slot func (offset + i) ≡ some (address_of bus slot func offset)
  unfolding pci_address address_of
  address_here i lt =
      let (line, _, _, _) = masks (offset + i) (omega (arith, offset_fits, aligned, lt)) in
      let e : bit_and (offset + i) 252 ≡ offset = omega (arith, line, aligned, lt) in
      let fits : (ltb slot 32 && ltb func 8) ≡ true = ground arith in rw (fits, e) refl

  byte_read :
      (i : ℕ)
      → i < 4
      → pci_read_b config bus slot func (offset + i) ≡ some (word / 2 ^ (i * 8) % 2 ^ 8)
  unfolding pci_read_b word
  byte_read i lt =
      let (_, low, _, _) = masks (offset + i) (omega (arith, offset_fits, aligned, lt)) in
      let e : bit_and (offset + i) 3 ≡ i = omega (arith, low, aligned, lt) in
      rw (pci_read_b, address_here i lt, e) refl

  word_read :
      (i : ℕ)
      → i < 4
      → i % 2 ≡ 0
      → pci_read_w config bus slot func (offset + i) ≡ some (word / 2 ^ (i * 8) % 2 ^ 16)
  unfolding pci_read_w word
  word_read i lt even =
      let (_, _, pair, one) = masks (offset + i) (omega (arith, offset_fits, aligned, lt)) in
      let e : bit_and (offset + i) 2 ≡ i = omega (arith, pair, aligned, lt, even) in
      let f : bit_and (offset + i) 1 ≡ 0 = omega (arith, one, aligned, even) in
      rw (pci_read_w, f, address_here i lt, e) refl

  long_read : pci_read_dw config bus slot func (offset + 0) ≡ some word
  unfolding pci_read_dw word
  long_read =
      let (_, low, _, _) = masks (offset + 0) (omega (arith, offset_fits)) in
      let e : bit_and (offset + 0) 3 ≡ 0 = omega (arith, low, aligned) in
      rw (pci_read_dw, e, address_here 0 (omega arith)) refl

-- The four bytes at an aligned offset, as the byte reads give them, and the reads of words and of a double word there.
pub record IsBytewise (config : ℕ → ℕ) (bus slot func offset : ℕ) : Type 0 where
  pub byte : ℕ → ℕ
  pub bytes :
      (i : ℕ)
      → i < 4
      → (pci_read_b config bus slot func (offset + i) ≡ some (byte i)) × (byte i < 2 ^ 8)
  pub low : pci_read_w config bus slot func (offset + 0) ≡ some (byte 0 + byte 1 * 2 ^ 8)
  pub high : pci_read_w config bus slot func (offset + 2) ≡ some (byte 2 + byte 3 * 2 ^ 8)
  pub long :
      pci_read_dw config bus slot func (offset + 0)
      ≡ some (byte 0 + byte 1 * 2 ^ 8 + byte 2 * 2 ^ 16 + byte 3 * 2 ^ 24)

-- At an offset that is a multiple of 4, for a slot below 32 and a function below 8, with a data port of 32 bits: the read of a
-- double word and the reads of words give the bytes that the reads of bytes give, the lowest first.
pub pci_read-IsBytewise :
    (config : ℕ → ℕ) (bus slot func offset : ℕ)
    → slot < 32
    → func < 8
    → offset < 256
    → offset % 4 ≡ 0
    → ((addr : ℕ) → config addr < 2 ^ 32)
    → IsBytewise config bus slot func offset
unfolding word
pci_read-IsBytewise config bus slot func offset slot_fits func_fits offset_fits aligned bound =
    let w = config (address_of bus slot func offset) in
    let small : w < 2 ^ 32 = bound (address_of bus slot func offset) in
    record {
      byte = λ i. w / 2 ^ (i * 8) % 2 ^ 8;
      bytes = λ i lt. (
        byte_read config bus slot func offset slot_fits func_fits offset_fits aligned i lt,
        omega arith,
      );
      low =
          word_read config bus slot func offset slot_fits func_fits offset_fits aligned 0
            (omega arith) refl
          ∙ ap some (omega (arith, small));
      high =
          word_read config bus slot func offset slot_fits func_fits offset_fits aligned 2
            (omega arith) refl
          ∙ ap some (omega (arith, small));
      long =
          long_read config bus slot func offset slot_fits func_fits offset_fits aligned
          ∙ ap some (omega (arith, small));
    }
