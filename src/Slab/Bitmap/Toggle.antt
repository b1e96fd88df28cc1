-- ===== src/Slab/Bitmap/Toggle.antt =====
-- What `^= (1 << idx)` does to a row. The mask of bit 31 reaches to bit 63, so a row keeps its upper
-- 33 bits alike, and its lower 32 bits are the objects that the slab can hand out.
use Prim.Native.Nat.{bit_xor}
use chestnut.Base.{
  ℕ, zero, suc, ◌+◌, ◌-◌, ◌^◌, ◌≤◌, ◌<◌, ◌≡◌, ◌≢◌, refl, sym, ◌∙◌, ◌⊎◌, ==_ne, true, false, some,
  leb, ltb, ◌==◌, if◌then◌else◌, arith, inl, inr, Bool-cases,
}
use chestnut.Base.Bits.{
  testbit, xorb, testbit-bit_xor, testbit_pow, testbit_zero, testbit_ext, bit_xor-lt, passes,
  passes_at,
}
use native.Mathlib.Decide.{dec_lt, dec_le}
use native.Mathlib.Nat.{pow-suc}
use chestnut.Slab.Bitmap.{all_ones, lowest_bit, ctzl, one_shifted}

-- A 64-bit row whose bits from 31 on are alike.
pub record IsRow (w : ℕ) : Type 0 where
  pub small : w < 2 ^ 64
  pub sign : (j : ℕ) → 31 ≤ j → j < 64 → testbit w j ≡ testbit w 31

-- The bits of the mask for bit 31.
top_mask_table :
    passes (λ j. elim (testbit (2 ^ 64 - 2 ^ 31) j) [ true ↦ leb 31 j | false ↦ ltb j 31 ]) 64
    ≡ true
unfolding passes testbit
top_mask_table = refl

top_mask : (j : ℕ) → j < 64 → testbit (2 ^ 64 - 2 ^ 31) j ≡ leb 31 j
top_mask j lt =
    let e =
      passes_at (λ j. elim (testbit (2 ^ 64 - 2 ^ 31) j) [ true ↦ leb 31 j | false ↦ ltb j 31 ]) 64
        j lt top_mask_table in
    ground arith

-- The masks of the 32 objects of a row.
pub mask_of : ℕ → ℕ
mask_of idx = if ltb idx 31 then 2 ^ idx else 2 ^ 64 - 2 ^ 31

pub one_shifted-mask_of : (idx : ℕ) → idx < 32 → one_shifted idx ≡ some (mask_of idx)
unfolding one_shifted mask_of
one_shifted-mask_of idx lt = ground arith

testbit-mask_of :
    (idx j : ℕ)
    → idx < 32
    → j < 64
    → testbit (mask_of idx) j ≡ (if ltb idx 31 then idx == j else leb 31 j)
unfolding mask_of
testbit-mask_of idx j lt in_word = elim (Bool-cases (ltb idx 31)) [
  | inl low ↦ rw low (testbit_pow idx j)
  | inr top ↦ rw top (top_mask j in_word)
]

two_pow_mono : (k i : ℕ) → i ≤ k → 2 ^ i ≤ 2 ^ k
two_pow_mono zero i le = let e : i ≡ 0 = omega arith in rw e (omega arith)
two_pow_mono (suc k) i le = elim (dec_le i k) [
  | yes fewer ↦ omega (arith, two_pow_mono k i fewer, pow-suc 2 k)
  | no all ↦ let e : i ≡ suc k = omega arith in rw e (omega arith)
]

mask_of-lt : (idx : ℕ) → mask_of idx < 2 ^ 64
unfolding mask_of
mask_of-lt idx = elim (Bool-cases (ltb idx 31)) [
  | inl low ↦ rw low (omega (arith, two_pow_mono 31 idx (ground arith)))
  | inr top ↦ rw top (omega arith)
]

pub toggle-IsRow : (w idx : ℕ) → IsRow w → idx < 32 → IsRow (bit_xor w (mask_of idx))
toggle-IsRow w idx r lt = record {
  small = bit_xor-lt 64 w (mask_of idx) r.small (mask_of-lt idx);
  sign = λ j ge in_word.
      rw (testbit-bit_xor w (mask_of idx) j, testbit-bit_xor w (mask_of idx) 31)
        (ground (
          arith,
          r.sign j,
          testbit-mask_of idx j lt in_word,
          testbit-mask_of idx 31 lt (omega arith),
        ));
}

pub testbit-toggle :
    (w idx j : ℕ)
    → idx < 32
    → j < 32
    → testbit (bit_xor w (mask_of idx)) j ≡ xorb (testbit w j) (idx == j)
testbit-toggle w idx j lt h =
    rw (testbit-bit_xor w (mask_of idx) j) (ground (arith, testbit-mask_of idx j lt (omega arith)))

-- The lowest bit at 1, if there is one.
lowest_bit_lem :
    (left i x : ℕ)
    → ((lowest_bit left i x < i + left)
        × (testbit x (lowest_bit left i x) ≡ true)
        × ((j : ℕ) → i ≤ j → j < lowest_bit left i x → testbit x j ≡ false))
      ⊎ ((j : ℕ) → i ≤ j → j < i + left → testbit x j ≡ false)
unfolding lowest_bit
lowest_bit_lem zero i x = inr (λ j ge lt. absurd (omega arith))
lowest_bit_lem (suc left) i x = elim (Bool-cases (testbit x i)) [
  | inl set ↦ rw set (inl (omega arith, set, λ j ge lt. absurd (omega arith)))
  | inr clear ↦ rw clear (elim (lowest_bit_lem left (i + 1) x) [
    | inl (lt, at_one, below) ↦ inl (
      omega arith,
      at_one,
      λ j ge h. elim (dec_lt i j) [
        | yes later ↦ below j (omega arith) h
        | no first ↦ let e : j ≡ i = omega arith in rw e clear
      ],
    )
    | inr none_set ↦ inr (λ j ge h. elim (dec_lt i j) [
      | yes later ↦ none_set j (omega arith) (omega arith)
      | no first ↦ let e : j ≡ i = omega arith in rw e clear
    ])
  ])
]

-- A row that is not 0 has its lowest bit among the 32 objects.
pub ctzl-IsRow : (z w : ℕ) → IsRow w → w ≢ 0 → (ctzl z w < 32) × (testbit w (ctzl z w) ≡ true)
unfolding ctzl
ctzl-IsRow z w r ne = rw (==_ne w 0 ne) (elim (lowest_bit_lem 64 0 w) [
  | inl (lt, at_one, below) ↦ (
    elim (dec_lt (lowest_bit 64 0 w) 32) [
      | yes h ↦ h
      | no h ↦ absurd (ground (arith, r.sign (lowest_bit 64 0 w), below 31))
    ],
    at_one,
  )
  | inr none_set ↦ absurd (
      ne (
        testbit_ext 64 w 0 r.small (omega arith)
          (λ i lt. none_set i (omega arith) lt ∙ sym (testbit_zero i))))
])

-- And a row of which no object is free is 0.
pub zero-IsRow : (w : ℕ) → IsRow w → ((j : ℕ) → j < 32 → testbit w j ≡ false) → w ≡ 0
zero-IsRow w r none_set =
    testbit_ext 64 w 0 r.small (omega arith) (λ i lt. every i lt ∙ sym (testbit_zero i))
  where
    every : (i : ℕ) → i < 64 → testbit w i ≡ false
    every i lt = elim (dec_lt i 32) [
      | yes h ↦ none_set i h
      | no h ↦ r.sign i (omega arith) lt ∙ none_set 31 (omega arith)
    ]

all_ones_table : passes (testbit all_ones) 64 ≡ true
unfolding passes testbit
all_ones_table = refl

pub testbit-all_ones : (j : ℕ) → j < 64 → testbit all_ones j ≡ true
testbit-all_ones j lt = passes_at (testbit all_ones) 64 j lt all_ones_table

pub all_ones-IsRow : IsRow all_ones
all_ones-IsRow = record {
  small = omega arith;
  sign = λ j ge lt. testbit-all_ones j lt ∙ sym (testbit-all_ones 31 (omega arith));
}

-- A row of which every object is free is all ones.
pub ones-IsRow : (w : ℕ) → IsRow w → ((j : ℕ) → j < 32 → testbit w j ≡ true) → w ≡ all_ones
ones-IsRow w r all_set =
    testbit_ext 64 w all_ones r.small (omega arith)
      (λ i lt. every i lt ∙ sym (testbit-all_ones i lt))
  where
    every : (i : ℕ) → i < 64 → testbit w i ≡ true
    every i lt = elim (dec_lt i 32) [
      | yes h ↦ all_set i h
      | no h ↦ r.sign i (omega arith) lt ∙ all_set 31 (omega arith)
    ]
