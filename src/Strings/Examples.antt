-- ===== src/Strings/Examples.antt =====
-- The string functions on two words in memory.
use chestnut.Base.{◌+◌, ◌<◌, ◌≡◌, ◌⊎◌, inr, some, ℕ, refl, arith, List, [], ◌∷◌, get_or}
use chestnut.Bytes.{Memory}
use chestnut.Strings.{strcat}
use chestnut.Strings.Laws.{IsString}
use chestnut.Strings.Joined.{strcat-IsString}

-- The words "hi" at 0 and "ho" at 3, in memory that is 0 elsewhere.
abbrev hi : List ℕ
hi = 104 ∷ 105 ∷ []

abbrev ho : List ℕ
ho = 104 ∷ 111 ∷ []

abbrev words : Memory
words a = get_or (104 ∷ 105 ∷ 0 ∷ 104 ∷ 111 ∷ 0 ∷ []) a 0

hi_here : IsString words 0 hi
hi_here = (refl, (λ e. omega arith), (refl, (λ e. omega arith), refl))

ho_here : IsString words 3 ho
ho_here = (refl, (λ e. omega arith), (refl, (λ e. omega arith), refl))

-- "ho" gets "hi" behind it.
strcat-IsString_example :
    (m' : Memory) × ((strcat 3 3 0 words ≡ some m')
      × IsString m' 3 (104 ∷ 111 ∷ 104 ∷ 105 ∷ [])
      × ((a : ℕ) → (a < 3 + 2) ⊎ (3 + 2 + 2 < a) → m' a ≡ words a))
strcat-IsString_example =
    strcat-IsString ho hi 3 3 0 words ho_here hi_here (omega arith) (omega arith)
      (inr (omega arith))
