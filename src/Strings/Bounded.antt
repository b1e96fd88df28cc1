-- ===== src/Strings/Bounded.antt =====
-- `memcmp` and `strncmp` against lists of bytes.
use chestnut.Base.{
  ℕ, zero, suc, ◌+◌, ◌<◌, ◌≡◌, ◌↔◌, refl, sym, ap, ◌∙◌, ◌-◌, arith, true, false, Bool-cases, inl,
  inr, ◌&&◌, not, List, [], ◌∷◌, ◌==◌,
}
use native.Mathlib.Decide.{dec_lt}
use chestnut.Bytes.{Memory}
use chestnut.Strings.{memcmp, strncmp}
use chestnut.Strings.Laws.{IsString, first_difference}

-- The first `n` bytes of a list.
abbrev pub take : ℕ → List ℕ → List ℕ
take zero cs = []
take (suc n) [] = []
take (suc n) (c ∷ cs) = c ∷ take n cs

-- On two strings, `strncmp` returns the difference of the first two bytes in which their first `len`
-- bytes differ, as `strcmp` would for strings that end there.
pub strncmp_lem :
    (len : ℕ) (cs ds : List ℕ) (s1 s2 : ℕ) (m : Memory)
    → IsString m s1 cs
    → IsString m s2 ds
    → strncmp len s1 s2 m ≡ first_difference (take len cs) (take len ds)
unfolding strncmp
strncmp_lem zero cs ds s1 s2 m is js = refl
strncmp_lem (suc len) [] [] s1 s2 m is js = rw (is, js) refl
strncmp_lem (suc len) [] (d ∷ ds) s1 s2 m is (e, ne, js) =
    let other : ((m s1 == m s2) && not (m s1 == 0)) ≡ false = ground (arith, is, e, ne) in
    rw (other, is, e) refl
strncmp_lem (suc len) (c ∷ cs) [] s1 s2 m (e, ne, is) js =
    let other : ((m s1 == m s2) && not (m s1 == 0)) ≡ false = ground (arith, js, e, ne) in
    rw (other, js, e) refl
strncmp_lem (suc len) (c ∷ cs) (d ∷ ds) s1 s2 m (e, ne, is) (e', ne', js) =
    elim (Bool-cases (c == d)) [
      | inl same ↦
          let on : ((m s1 == m s2) && not (m s1 == 0)) ≡ true = ground (arith, e, e', ne, same) in
          rw (same, on) (strncmp_lem len cs ds (s1 + 1) (s2 + 1) m is js)
      | inr other ↦
          let off : ((m s1 == m s2) && not (m s1 == 0)) ≡ false =
            ground (arith, e, e', ne, other) in
          rw (other, off, e, e') refl
    ]

-- `memcmp` returns 0 just when the two blocks have the same bytes.
pub memcmp_iff :
    (len b1 b2 : ℕ) (m : Memory)
    → ((memcmp len b1 b2 m).0 ≡ (memcmp len b1 b2 m).1)
      ↔ ((i : ℕ) → i < len → m (b1 + i) ≡ m (b2 + i))
unfolding memcmp
memcmp_iff zero b1 b2 m = (λ e i lt. absurd (omega arith), λ h. refl)
memcmp_iff (suc len) b1 b2 m =
    let first : (b1 + 0 ≡ b1) × (b2 + 0 ≡ b2) = (omega arith, omega arith) in
    let (to, from) = memcmp_iff len (b1 + 1) (b2 + 1) m in
    elim (Bool-cases (m b1 == m b2)) [
      | inl same ↦ rw same (
        λ e i lt. elim (dec_lt 0 i) [
          | yes later ↦
              let a : b1 + 1 + (i - 1) ≡ b1 + i = omega arith in
              let b : b2 + 1 + (i - 1) ≡ b2 + i = omega arith in
              sym (ap m a) ∙ to e (i - 1) (omega arith) ∙ ap m b
          | no here ↦ let z : i ≡ 0 = omega arith in rw (z, first.0, first.1) (ground arith)
        ],
        λ h. from (λ i lt.
            let a : b1 + 1 + i ≡ b1 + (i + 1) = omega arith in
            let b : b2 + 1 + i ≡ b2 + (i + 1) = omega arith in
            ap m a ∙ h (i + 1) (omega arith) ∙ sym (ap m b)),
      )
      | inr other ↦ rw other (
        λ e. absurd (ground (arith, e)),
        λ h.
            let e : m b1 ≡ m b2 = rw (sym first.0, sym first.1) (h 0 (omega arith)) in
            absurd (ground (arith, e)),
      )
    ]
