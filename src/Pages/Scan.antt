-- ===== src/Pages/Scan.antt =====
-- The search of `AllocPages` for consecutive free pages is a first fit.
use chestnut.Base.{
  ℕ, zero, suc, ◌+◌, ◌-◌, ◌%◌, ◌^◌, ◌≤◌, ◌<◌, ◌≡◌, Bool, true, false, Option, none, some, inl, inr,
  arith, ltb, ◌==◌, Bool-cases, ==_ne,
}
use native.Mathlib.Decide.{dec_lt}
use chestnut.Pages.{page_at, scan}

-- The `n` pages from `page_structs[s]` on are free.
abbrev pub RunFree : (ℕ → Bool) → ℕ → ℕ → Type 0
RunFree is_free s n = (k : ℕ) → k < n → is_free (page_at (s + k)) ≡ true

-- No run of `n` free pages within the array starts below `b`.
abbrev pub NoRunBelow : (ℕ → Bool) → ℕ → ℕ → ℕ → Type 0
NoRunBelow is_free nr n b = (s : ℕ) → s < b → s + n ≤ nr → ¬ RunFree is_free s n

-- The first of all runs of `n` free pages within the array, or none if there is none.
abbrev pub FirstFit : (ℕ → Bool) → ℕ → ℕ → Option ℕ → Type 0
FirstFit is_free nr n none = NoRunBelow is_free nr n nr
FirstFit is_free nr n (some s) = (s + n ≤ nr) × RunFree is_free s n × NoRunBelow is_free nr n s

module _ (is_free : ℕ → Bool) (nr n : ℕ) (two : 2 ≤ n) (fits : n ≤ nr) (word : nr < 2 ^ 63) where
  -- What the loop knows at index `i`.
  abbrev Start : ℕ → Option ℕ → Type 0
  Start i none = NoRunBelow is_free nr n i
  Start i (some s) =
      (s < i)
      × (i < s + n)
      × (s + n ≤ nr)
      × NoRunBelow is_free nr n s
      × ((j : ℕ) → s ≤ j → j < i → is_free (page_at j) ≡ true)

  -- A page in use stops every run that has it inside.
  blocked :
      (i b : ℕ)
      → is_free (page_at i) ≡ false
      → NoRunBelow is_free nr n b
      → i < b + n
      → NoRunBelow is_free nr n (i + 1)
  blocked i b used below near s lt inside run = elim (dec_lt s b) [
    | yes early ↦ below s early inside run
    | no late ↦
        let here : s + (i - s) ≡ i = omega arith in
        let free : is_free (page_at (s + (i - s))) ≡ true = run (i - s) (omega arith) in cc
  ]

  loop-FirstFit :
      (left i : ℕ) (start : Option ℕ)
      → i + left ≡ nr
      → Start i start
      → FirstFit is_free nr n (scan is_free nr n left i start)
  unfolding scan
  loop-FirstFit zero i none e h = λ s lt inside. h s (omega arith) inside
  loop-FirstFit zero i (some s) e h = absurd (omega arith)
  loop-FirstFit (suc left) i none e h = elim (Bool-cases (is_free (page_at i))) [
    | inl free ↦ rw free (elim (Bool-cases (ltb ((nr + 2 ^ 64 - n) % 2 ^ 64) i)) [
      | inl past ↦ rw past (λ s lt inside. h s (ground arith) inside)
      | inr room ↦
          rw (room, ==_ne (i + 1) (i + n) (omega arith))
            (loop-FirstFit left (i + 1) (some i) (omega arith) (
              omega arith,
              omega arith,
              ground arith,
              h,
              λ j ge lt. let here : j ≡ i = omega arith in rw here free,
            ))
    ])
    | inr used ↦
        rw used (loop-FirstFit left (i + 1) none (omega arith) (blocked i i used h (omega arith)))
  ]
  loop-FirstFit (suc left) i (some s) e h = elim (Bool-cases (is_free (page_at i))) [
    | inl free ↦
        let upto : (j : ℕ) → s ≤ j → j < i + 1 → is_free (page_at j) ≡ true = λ j ge lt.
          elim (dec_lt j i) [
            | yes before ↦ h.4 j ge before
            | no after ↦ let here : j ≡ i = omega arith in rw here free
          ] in
        rw free (elim (Bool-cases (i + 1 == s + n)) [
          | inl whole ↦ rw whole (h.2, λ k lt. upto (s + k) (omega arith) (ground arith), h.3)
          | inr part ↦ rw part (
              loop-FirstFit left (i + 1) (some s) (omega arith)
                (omega arith, ground arith, h.2, h.3, upto))
        ])
    | inr used ↦ rw used (loop-FirstFit left (i + 1) none (omega arith) (blocked i s used h.3 h.1))
  ]

  -- With `2 ≤ n ≤ nr_page_structs` the scan gives the first run of `n` free pages, all of it inside
  -- the array, and gives none only if there is no such run.
  pub scan-FirstFit : FirstFit is_free nr n (scan is_free nr n nr 0 none)
  scan-FirstFit = loop-FirstFit nr 0 none (omega arith) (λ s lt. absurd (omega arith))
