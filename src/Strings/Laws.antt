-- ===== src/Strings/Laws.antt =====
-- The functions on strings against lists of bytes.
use chestnut.Base.{
  ℕ, zero, suc, ◌+◌, ◌≤◌, ◌<◌, ◌≡◌, ◌≢◌, ◌↔◌, ◌⊎◌, refl, sym, ap, ◌∙◌, inl, inr, arith, true, false,
  Bool-cases, ◌&&◌, not, Option, none, some, List, [], ◌∷◌, ◌==◌, if◌then◌else◌, store, store_ne,
  store_self, length, get_or,
}
use chestnut.Bytes.{Memory}
use chestnut.Strings.{strlen, strcmp, strcpy, strchr}

-- The bytes at an address are those of a list, none of them 0, and then a 0.
abbrev pub IsString : Memory → ℕ → List ℕ → Type 0
IsString m s [] = m s ≡ 0
IsString m s (c ∷ cs) = (m s ≡ c) × (c ≢ 0) × IsString m (s + 1) cs

-- `strlen` of a string is its length, with one round of fuel more than that.
pub strlen-length :
    (cs : List ℕ) (fuel s : ℕ) (m : Memory)
    → IsString m s cs
    → length cs < fuel
    → strlen fuel s m ≡ some (length cs)
unfolding strlen
strlen-length cs zero s m is lt = absurd (omega arith)
strlen-length [] (suc fuel) s m is lt = rw is refl
strlen-length (c ∷ cs) (suc fuel) s m (e, ne, is) lt =
    let other : (m s == 0) ≡ false = ground arith in
    rw (other, strlen-length cs fuel (s + 1) m is (omega arith))
      (ap (λ (n : ℕ). some n) (omega arith))

-- The first two bytes in which two lists differ, with the 0 behind their ends.
abbrev pub first_difference : List ℕ → List ℕ → ℕ × ℕ
first_difference [] [] = (0, 0)
first_difference [] (d ∷ ds) = (0, d)
first_difference (c ∷ cs) [] = (c, 0)
first_difference (c ∷ cs) (d ∷ ds) = if c == d then first_difference cs ds else (c, d)

abbrev rest : List ℕ → List ℕ
rest [] = []
rest (x ∷ xs) = xs

nil_cons : (d : ℕ) (ds : List ℕ) → [] ≢ (d ∷ ds)
nil_cons d ds z = let e : 0 ≡ suc (length ds) = ap (λ (l : List ℕ). length l) z in omega (arith, e)

-- On two strings, `strcmp` returns the difference of the first two bytes in which they differ, with one
-- round of fuel more than the first one is long; and that is 0 just when the strings are equal.
pub strcmp_lem :
    (cs ds : List ℕ) (fuel s1 s2 : ℕ) (m : Memory)
    → IsString m s1 cs
    → IsString m s2 ds
    → length cs < fuel
    → (strcmp fuel s1 s2 m ≡ some (first_difference cs ds))
      × (((first_difference cs ds).0 ≡ (first_difference cs ds).1) ↔ (cs ≡ ds))
unfolding strcmp
strcmp_lem cs ds zero s1 s2 m is js lt = absurd (omega arith)
strcmp_lem [] [] (suc fuel) s1 s2 m is js lt =
    (rw (is, js, strcmp) refl, ((λ e. refl), (λ e. refl)))
strcmp_lem [] (d ∷ ds) (suc fuel) s1 s2 m is (e, ne, js) lt =
    let other : ((m s1 == m s2) && not (m s1 == 0)) ≡ false = ground (arith, is, e, ne) in
    (rw (other, is, e, strcmp) refl, ((λ z. absurd (ne (sym z))), (λ z. absurd (nil_cons d ds z))))
strcmp_lem (c ∷ cs) [] (suc fuel) s1 s2 m (e, ne, is) js lt =
    let other : ((m s1 == m s2) && not (m s1 == 0)) ≡ false = ground (arith, js, e, ne) in
    (rw (other, js, e, strcmp) refl, ((λ z. absurd (ne z)), (λ z. absurd (nil_cons c cs (sym z)))))
strcmp_lem (c ∷ cs) (d ∷ ds) (suc fuel) s1 s2 m (e, ne, is) (e', ne', js) lt =
    elim (Bool-cases (c == d)) [
      | inl same ↦
          let on : ((m s1 == m s2) && not (m s1 == 0)) ≡ true = ground (arith, e, e', ne, same) in
          let (found, differ) = strcmp_lem cs ds fuel (s1 + 1) (s2 + 1) m is js (omega arith) in
          let heads : c ≡ d = ground arith in
          rw same (
            rw (on, strcmp) found,
            ((λ z. (λ t. heads t ∷ differ.0 z t)), (λ z. differ.1 (ap rest z))),
          )
      | inr other ↦
          let off : ((m s1 == m s2) && not (m s1 == 0)) ≡ false =
            ground (arith, e, e', ne, other) in
          rw other (
            rw (off, e, e', strcmp) refl,
            (
              (λ z. absurd (ground (arith, z, other))),
              (λ z. absurd (ground (arith, ap (λ l. get_or l 0 0) z, other))),
            ),
          )
    ]

pub IsString-outside :
    (cs : List ℕ) (s : ℕ) (m m' : Memory)
    → ((a : ℕ) → s ≤ a → a ≤ s + length cs → m' a ≡ m a)
    → IsString m s cs
    → IsString m' s cs
IsString-outside [] s m m' same is = same s (omega arith) (omega arith) ∙ is
IsString-outside (c ∷ cs) s m m' same (e, ne, is) = (
  same s (omega arith) (omega arith) ∙ e,
  ne,
  IsString-outside cs (s + 1) m m' (λ a ge le. same a (omega arith) (omega arith)) is,
)

-- `strcpy` of a string to a place that it does not reach into leaves the string there.
pub strcpy-IsString :
    (cs : List ℕ) (fuel dst src : ℕ) (m : Memory)
    → IsString m src cs
    → length cs < fuel
    → (dst + length cs < src) ⊎ (src + length cs < dst)
    → (m' : Memory) × (strcpy fuel dst src m ≡ some m')
      × IsString m' dst cs
      × ((a : ℕ) → (a < dst) ⊎ (dst + length cs < a) → m' a ≡ m a)
unfolding strcpy
strcpy-IsString cs zero dst src m is lt apart = absurd (omega arith)
strcpy-IsString [] (suc fuel) dst src m is lt apart =
    (store m dst 0, rw is refl, store_self m dst 0, (λ a out. store_ne m dst 0 a (ground arith)))
strcpy-IsString (c ∷ cs) (suc fuel) dst src m (e, ne, is) lt apart =
    let m1 = store m dst (m src) in
    let kept =
      IsString-outside cs (src + 1) m m1 (λ a ge le. store_ne m dst (m src) a (ground arith)) is in
    let (m', found, there, outside) =
      strcpy-IsString cs fuel (dst + 1) (src + 1) m1 kept (omega arith) (ground arith) in
    let other : (m src == 0) ≡ false = ground arith in
    (
      m',
      rw (other, strcpy) found,
      (outside dst (inl (omega arith)) ∙ store_self m dst (m src) ∙ e, ne, there),
      (λ a out. outside a (ground arith) ∙ store_ne m dst (m src) a (ground arith)),
    )

-- Whether a byte is in a string, and where it is first.
abbrev pub first_place : ℕ → ℕ → List ℕ → Option ℕ
first_place ch s [] = none
first_place ch s (c ∷ cs) = if c == ch then some s else first_place ch (s + 1) cs

-- `strchr` on a string gives the first place of a byte, and NULL when it has none, with one round of
-- fuel more than the string is long.
pub strchr-first_place :
    (cs : List ℕ) (fuel s ch : ℕ) (m : Memory)
    → IsString m s cs
    → length cs < fuel
    → strchr fuel s ch m ≡ some (first_place ch s cs)
unfolding strchr
strchr-first_place cs zero s ch m is lt = absurd (omega arith)
strchr-first_place [] (suc fuel) s ch m is lt = rw is refl
strchr-first_place (c ∷ cs) (suc fuel) s ch m (e, ne, is) lt =
    let other : (m s == 0) ≡ false = ground arith in
    rw (other, e)
      (elim (Bool-cases (c == ch)) [
        | inl here ↦ rw here refl
        | inr there ↦ rw there (strchr-first_place cs fuel (s + 1) ch m is (omega arith))
      ])
