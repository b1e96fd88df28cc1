-- ===== src/Console/Format/Digits.antt =====
-- The numbers that `vprintf` writes: they read back as the number, and they fit in the buffer.
use mathlib.Core.List.{reverse, reverse-cons}
use native.Mathlib.Nat.{pow-suc, pow-zero}
use chestnut.Base.{
  ℕ, zero, suc, ◌+◌, ◌-◌, ◌*◌, ◌/◌, ◌%◌, ◌^◌, ◌≤◌, ◌<◌, ◌≡◌, ◌≢◌, refl, sym, ap, ◌∙◌, inl, inr,
  true, Bool-cases, List, [], ◌∷◌, ◌++◌, map, ltb, ◌==◌, if◌then◌else◌, arith, length,
}
use chestnut.Console.Format.{dec_char, hex_char, digits, dec_buffer, hex_buffer}

-- A reader of numbers, from the first digit on.
unfoldable pub read_number : (ℕ → ℕ) → ℕ → ℕ → List ℕ → ℕ
read_number value base acc [] = acc
read_number value base acc (c ∷ cs) = read_number value base (acc * base + value c) cs

unfoldable pub digit_value : ℕ → ℕ
digit_value c = if ltb c 58 then c - 48 else c - 87

-- The printed form of a number: it reads back, has at most `most` digits, and no more than it needs.
pub record IsPrinted (base most u : ℕ) (s : List ℕ) : Type 0 where
  pub reads : read_number digit_value base 0 s ≡ u
  pub fits : length s ≤ most
  pub shortest : (k : ℕ) → length s ≡ suc (suc k) → base ^ suc k ≤ u

length-snoc : {A : Type 0} (xs : List A) (x : A) → length (xs ++ (x ∷ [])) ≡ suc (length xs)
length-snoc [] x = refl
length-snoc (y ∷ xs) x = ap suc (length-snoc xs x)

length-reverse : {A : Type 0} (xs : List A) → length (reverse xs) ≡ length xs
length-reverse [] = refl
length-reverse (x ∷ xs) =
    ap length (reverse-cons x xs) ∙ (length-snoc (reverse xs) x ∙ ap suc (length-reverse xs))

module _ (value : ℕ → ℕ) (base : ℕ) where
  -- The value of the digits, the last one first.
  worth : List ℕ → ℕ
  worth [] = 0
  worth (c ∷ cs) = worth cs * base + value c

  read_number-snoc :
      (acc : ℕ) (cs : List ℕ) (c : ℕ)
      → read_number value base acc (cs ++ (c ∷ [])) ≡ read_number value base acc cs * base + value c
  unfolding read_number
  read_number-snoc acc [] c = refl
  read_number-snoc acc (d ∷ cs) c = read_number-snoc (acc * base + value d) cs c

  read_number-reverse : (cs : List ℕ) → read_number value base 0 (reverse cs) ≡ worth cs
  unfolding worth read_number
  read_number-reverse [] = refl
  read_number-reverse (c ∷ cs) =
      ap (read_number value base 0) (reverse-cons c cs)
      ∙ (read_number-snoc 0 (reverse cs) c
          ∙ ap (λ (x : ℕ). x * base + value c) (read_number-reverse cs))

module _ (base : ℕ) (char : ℕ → ℕ) (value-char : (d : ℕ) → d < base → digit_value (char d) ≡ d)
    (small : (u : ℕ) → u % base < base) (split : (u : ℕ) → u / base * base + u % base ≡ u)
    (down : (u k : ℕ) → u < base ^ suc k → u / base < base ^ k)
    (up : (u k : ℕ) → base ^ k ≤ u / base → base ^ suc k ≤ u) where
  -- The last round, where no more digits are left.
  last_digit : (u : ℕ) → (u / base == 0) ≡ true → 0 * base + digit_value (char (u % base)) ≡ u
  last_digit u done =
      let e : u / base ≡ 0 = ground arith in
      ap (λ (x : ℕ). 0 * base + x) (value-char (u % base) (small u))
      ∙ (sym (ap (λ (x : ℕ). x * base + u % base) e) ∙ split u)

  one_digit : (u : ℕ) → u < base ^ 1 → (u / base == 0) ≡ true
  one_digit u lt =
      let h = down u 0 lt in
      let one = pow-zero base in let e : u / base ≡ 0 = omega (arith, h, one) in ground arith

  worth-digits :
      (fuel u : ℕ)
      → u < base ^ suc fuel
      → worth digit_value base (map char (digits (suc fuel) base u)) ≡ u
  unfolding worth digits
  worth-digits zero u lt = let done = one_digit u lt in rw done (last_digit u done)
  worth-digits (suc fuel) u lt = elim (Bool-cases (u / base == 0)) [
    | inl done ↦ rw done (last_digit u done)
    | inr more ↦
        let ih = worth-digits fuel (u / base) (down u (suc fuel) lt) in
        rw (more, ih, value-char (u % base) (small u)) (split u)
  ]

  length-digits :
      (fuel k u : ℕ) → u < base ^ suc k → length (map char (digits (suc fuel) base u)) ≤ suc k
  unfolding digits
  length-digits zero k u lt = ground arith
  length-digits (suc fuel) zero u lt = let done = one_digit u lt in rw done (omega arith)
  length-digits (suc fuel) (suc k) u lt = elim (Bool-cases (u / base == 0)) [
    | inl done ↦ rw done (omega arith)
    | inr more ↦
        let ih = length-digits fuel k (u / base) (down u (suc k) lt) in rw more (omega (arith, ih))
  ]

  digits_least :
      (fuel k u : ℕ) → length (map char (digits (suc fuel) base u)) ≡ suc (suc k) → base ^ suc k ≤ u
  unfolding digits
  digits_least zero k u e = absurd (ground (arith, e))
  digits_least (suc fuel) k u e = elim (Bool-cases (u / base == 0)) [
    | inl done ↦ absurd (omega (arith, rw done at e))
    | inr more ↦
        let rest : length (map char (digits (suc fuel) base (u / base))) ≡ suc k =
          omega (arith, rw more at e) in
        let left : u / base ≢ 0 = ground arith in
        up u k (
          elim k
              as (λ (k : ℕ).
                length (map char (digits (suc fuel) base (u / base))) ≡ suc k
                → base ^ k ≤ u / base) [
                  | zero ↦ λ r. omega (arith, pow-zero base, left)
                  | suc k' ↦ λ r. digits_least fuel k' (u / base) r
                ]
            rest)
  ]

  pub printed :
      (u most : ℕ)
      → u < base ^ 64
      → u < base ^ suc most
      → IsPrinted base (suc most) u (reverse (map char (digits 64 base u)))
  printed u most lt fits =
      let cs = map char (digits 64 base u) in
      record {
        reads = read_number-reverse digit_value base cs ∙ worth-digits 63 u lt;
        fits = rw (length-reverse cs) (length-digits 63 most u fits);
        shortest = λ k e. digits_least 63 k u (sym (length-reverse cs) ∙ e);
      }

pub ten-IsPrinted : (u : ℕ) → u < 2 ^ 64 → IsPrinted 10 20 u (reverse (dec_buffer u))
unfolding dec_buffer dec_char digit_value
ten-IsPrinted u lt =
    printed 10 dec_char (λ d h. ground arith) (λ x. omega arith) (λ x. omega arith)
      (λ x k h. omega (arith, pow-suc 10 k)) (λ x k h. omega (arith, pow-suc 10 k)) u 19
      (omega arith) (omega arith)

pub sixteen-IsPrinted : (u : ℕ) → u < 2 ^ 64 → IsPrinted 16 16 u (reverse (hex_buffer u))
unfolding hex_buffer hex_char digit_value
sixteen-IsPrinted u lt =
    printed 16 hex_char (λ d h. ground arith) (λ x. omega arith) (λ x. omega arith)
      (λ x k h. omega (arith, pow-suc 16 k)) (λ x k h. omega (arith, pow-suc 16 k)) u 15
      (omega arith) (omega arith)
