-- ===== src/Base/Bits.antt =====
-- The bits of a number, and what the native bit operations do to each of them.
use Prim.Native.Nat.{ℕ, zero, suc, ◌+◌, ◌-◌, ◌*◌, ◌/◌, ◌%◌, ◌^◌, ◌≤◌, ◌<◌, min, max}
use Prim.Native.Nat.{bit_and, bit_or, bit_xor, digits, bitwise, differ}
use Prim.Native.Nat.{bit_and-bitwise, bit_or-bitwise, bit_xor-bitwise}
use mathlib.Core.Path.{◌≡◌, refl, ap, ◌∙◌}
use native.Mathlib.Decide.{dec_le, dec_lt}
use mathlib.Core.Bool.{Bool, true, false, not, ◌&&◌, ◌||◌}
use mathlib.Core.Logic.{◌⊎◌, inl, inr}
use native.Mathlib.Omega.{arith}
use native.Mathlib.Nat.{pow-suc}
use chestnut.Base.Tests.{leb, ◌==◌}

-- The operations recur on a count of digits. One digit more than needed changes nothing, so the
-- count can always be the number itself.
module _ (rest : ℕ → ℕ) (op : ℕ → ℕ → ℕ) where
  one_more : (count x y : ℕ) → x ≤ count → digits rest op (suc count) x y ≡ digits rest op count x y
  one_more zero zero y le = refl
  one_more zero (suc x) y le = absurd (omega arith)
  one_more (suc count) zero y le = refl
  one_more (suc count) (suc x) y le =
      ap (λ (high : ℕ). high * 2 + op (suc x % 2) (y % 2))
        (one_more count (suc x / 2) (y / 2) (omega arith))

  settle : (count x y : ℕ) → x ≤ count → digits rest op count x y ≡ bitwise rest op x y
  settle zero zero y le = refl
  settle zero (suc x) y le = absurd (omega arith)
  settle (suc count) x y le = elim (dec_le x count) [
    | yes fewer ↦ one_more count x y fewer ∙ settle count x y fewer
    | no all ↦ let e : x ≡ suc count = omega arith in rw e
  ]

  -- The lowest digit apart, where it comes out right once the first number has run out.
  lowest :
      ((y : ℕ) → rest y ≡ rest (y / 2) * 2 + op 0 (y % 2))
      → (x y : ℕ) → bitwise rest op x y ≡ bitwise rest op (x / 2) (y / 2) * 2 + op (x % 2) (y % 2)
  lowest out zero y = out y
  lowest out (suc x) y =
      ap (λ (high : ℕ). high * 2 + op (suc x % 2) (y % 2))
        (settle x (suc x / 2) (y / 2) (omega arith))

bit_or_step : (a b : ℕ) → bit_or a b ≡ bit_or (a / 2) (b / 2) * 2 + max (a % 2) (b % 2)
bit_or_step a b =
    rw (bit_or-bitwise a b, bit_or-bitwise (a / 2) (b / 2))
      (lowest (λ y. y) max (λ y. omega arith) a b)

bit_and_step : (a b : ℕ) → bit_and a b ≡ bit_and (a / 2) (b / 2) * 2 + min (a % 2) (b % 2)
bit_and_step a b =
    rw (bit_and-bitwise a b, bit_and-bitwise (a / 2) (b / 2))
      (lowest (λ y. 0) min (λ y. omega arith) a b)

-- The mask of the lowest bit.
bit_and_bound : (n a : ℕ) → bit_and a 0 ≤ n → bit_and a 0 ≡ 0
bit_and_bound zero a h = omega (arith, h)
bit_and_bound (suc n) a h =
    let step : bit_and a 0 ≡ bit_and (a / 2) 0 * 2 = omega (arith, bit_and_step a 0) in
    elim (dec_le (bit_and a 0) n) [
      | yes low ↦ bit_and_bound n a low
      | no high ↦ omega (arith, step, bit_and_bound n (a / 2) (omega (arith, step, h)))
    ]

pub bit_and_one : (a : ℕ) → bit_and a 1 ≡ a % 2
bit_and_one a =
    omega (arith, bit_and_step a 1, bit_and_bound (bit_and (a / 2) 0) (a / 2) (omega arith))

bit_xor_step : (a b : ℕ) → bit_xor a b ≡ bit_xor (a / 2) (b / 2) * 2 + differ (a % 2) (b % 2)
bit_xor_step a b =
    rw (bit_xor-bitwise a b, bit_xor-bitwise (a / 2) (b / 2))
      (lowest (λ y. y) differ (λ y. omega arith) a b)

pub bit_or-half : (a b : ℕ) → bit_or a b / 2 ≡ bit_or (a / 2) (b / 2)
bit_or-half a b = omega (arith, bit_or_step a b)

pub bit_and-half : (a b : ℕ) → bit_and a b / 2 ≡ bit_and (a / 2) (b / 2)
bit_and-half a b = omega (arith, bit_and_step a b)

digit-cases : (a : ℕ) → (a % 2 ≡ 0) ⊎ (a % 2 ≡ 1)
digit-cases a = omega arith

differ-digits : (a b : ℕ) → differ (a % 2) (b % 2) ≡ (a + b) % 2
differ-digits a b = elim (digit-cases a) [
  | inl p ↦ rw p (omega arith)
  | inr p ↦ rw p (elim (digit-cases b) [ inl q ↦ rw q (omega arith) | inr q ↦ rw q (omega arith) ])
]

pub bit_xor-half : (a b : ℕ) → bit_xor a b / 2 ≡ bit_xor (a / 2) (b / 2)
bit_xor-half a b = omega (arith, bit_xor_step a b, differ-digits a b)

bit_xor_low : (a b : ℕ) → bit_xor a b % 2 ≡ (a + b) % 2
bit_xor_low a b = omega (arith, bit_xor_step a b, differ-digits a b)

-- Bit `i` of `x`.
unfoldable pub testbit : ℕ → ℕ → Bool
testbit x zero = x % 2 == 1
testbit x (suc i) = testbit (x / 2) i

abbrev pub xorb : Bool → Bool → Bool
xorb true b = not b
xorb false b = b

pub testbit-bit_or : (a b i : ℕ) → testbit (bit_or a b) i ≡ (testbit a i || testbit b i)
unfolding testbit
testbit-bit_or a b zero = ground (arith, bit_or_step a b, digit-cases a, digit-cases b)
testbit-bit_or a b (suc i) = rw (bit_or-half a b) (testbit-bit_or (a / 2) (b / 2) i)

pub testbit-bit_and : (a b i : ℕ) → testbit (bit_and a b) i ≡ (testbit a i && testbit b i)
unfolding testbit
testbit-bit_and a b zero = ground (arith, bit_and_step a b, digit-cases a, digit-cases b)
testbit-bit_and a b (suc i) = rw (bit_and-half a b) (testbit-bit_and (a / 2) (b / 2) i)

pub testbit-bit_xor : (a b i : ℕ) → testbit (bit_xor a b) i ≡ xorb (testbit a i) (testbit b i)
unfolding testbit
testbit-bit_xor a b zero = ground (arith, bit_xor_low a b, digit-cases a, digit-cases b)
testbit-bit_xor a b (suc i) = rw (bit_xor-half a b) (testbit-bit_xor (a / 2) (b / 2) i)

pub testbit_zero : (i : ℕ) → testbit 0 i ≡ false
unfolding testbit
testbit_zero zero = refl
testbit_zero (suc i) = testbit_zero i

-- A number below `2 ^ k` has no bit from `k` on.
pub testbit_above : (k x i : ℕ) → x < 2 ^ k → k ≤ i → testbit x i ≡ false
unfolding testbit
testbit_above zero x i h l = let e : x ≡ 0 = omega arith in rw e (testbit_zero i)
testbit_above (suc k) x zero h l = absurd (omega arith)
testbit_above (suc k) x (suc i) h l =
    testbit_above k (x / 2) i (omega (arith, pow-suc 2 k)) (omega arith)

-- Two numbers below `2 ^ k` with the same `k` bits are equal.
pub testbit_ext :
    (k x y : ℕ) → x < 2 ^ k → y < 2 ^ k → ((i : ℕ) → i < k → testbit x i ≡ testbit y i) → x ≡ y
unfolding testbit
testbit_ext zero x y hx hy same = omega arith
testbit_ext (suc k) x y hx hy same =
    let low : testbit x 0 ≡ testbit y 0 = same 0 (omega arith) in
    let high : x / 2 ≡ y / 2 =
      testbit_ext k (x / 2) (y / 2) (omega (arith, pow-suc 2 k)) (omega (arith, pow-suc 2 k))
        (λ i h. same (suc i) (omega arith)) in
    ground (arith, digit-cases x, digit-cases y)

pub bit_xor-lt : (k a b : ℕ) → a < 2 ^ k → b < 2 ^ k → bit_xor a b < 2 ^ k
bit_xor-lt zero a b ha hb =
    let ea : a ≡ 0 = omega arith in let eb : b ≡ 0 = omega arith in rw (ea, eb) (omega arith)
bit_xor-lt (suc k) a b ha hb = omega (
  arith,
  pow-suc 2 k,
  bit_xor-half a b,
  bit_xor-lt k (a / 2) (b / 2) (omega (arith, pow-suc 2 k)) (omega (arith, pow-suc 2 k)),
)

pub bit_or-lt : (k a b : ℕ) → a < 2 ^ k → b < 2 ^ k → bit_or a b < 2 ^ k
bit_or-lt zero a b ha hb =
    let ea : a ≡ 0 = omega arith in let eb : b ≡ 0 = omega arith in rw (ea, eb) (omega arith)
bit_or-lt (suc k) a b ha hb = omega (
  arith,
  pow-suc 2 k,
  bit_or-half a b,
  bit_or-lt k (a / 2) (b / 2) (omega (arith, pow-suc 2 k)) (omega (arith, pow-suc 2 k)),
)

pub bit_and-lt : (k a b : ℕ) → a < 2 ^ k → b < 2 ^ k → bit_and a b < 2 ^ k
bit_and-lt zero a b ha hb =
    let ea : a ≡ 0 = omega arith in let eb : b ≡ 0 = omega arith in rw (ea, eb) (omega arith)
bit_and-lt (suc k) a b ha hb = omega (
  arith,
  pow-suc 2 k,
  bit_and-half a b,
  bit_and-lt k (a / 2) (b / 2) (omega (arith, pow-suc 2 k)) (omega (arith, pow-suc 2 k)),
)

-- The only bit of `2 ^ k` is bit `k`.
pub testbit_pow : (k i : ℕ) → testbit (2 ^ k) i ≡ (k == i)
unfolding testbit
testbit_pow zero zero = refl
testbit_pow zero (suc i) = rw (testbit_zero i) (ground arith)
testbit_pow (suc k) zero = ground (arith, pow-suc 2 k)
testbit_pow (suc k) (suc i) =
    let e : 2 ^ suc k / 2 ≡ 2 ^ k = omega (arith, pow-suc 2 k) in
    rw (e, testbit_pow k i) (ground arith)

-- A test that is run at each of the first `bound` numbers.
unfoldable pub passes : (ℕ → Bool) → ℕ → Bool
passes test zero = true
passes test (suc bound) = passes test bound && test bound

pub passes_at :
    (test : ℕ → Bool) (bound k : ℕ) → k < bound → passes test bound ≡ true → test k ≡ true
unfolding passes
passes_at test zero k lt all = absurd (omega arith)
passes_at test (suc bound) k lt all = elim (dec_lt k bound) [
  | yes early ↦ passes_at test bound k early (ground arith)
  | no last ↦ let e : k ≡ bound = omega arith in rw e (ground arith)
]

double_shift : (x k : ℕ) → x * 2 ^ suc k ≡ x * 2 ^ k * 2
double_shift x k = grind (arith, pow-suc 2 k)

-- A shift to the left moves the bits up.
pub testbit_shift : (k x i : ℕ) → testbit (x * 2 ^ k) i ≡ (leb k i && testbit x (i - k))
unfolding testbit
testbit_shift zero x i = let e : x * 2 ^ 0 ≡ x = omega arith in rw e (ground arith)
testbit_shift (suc k) x zero = ground (arith, double_shift x k)
testbit_shift (suc k) x (suc i) =
    let e : x * 2 ^ suc k / 2 ≡ x * 2 ^ k = omega (arith, double_shift x k) in
    rw (e, testbit_shift k x i) (ground arith)
