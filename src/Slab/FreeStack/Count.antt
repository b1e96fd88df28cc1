-- ===== src/Slab/FreeStack/Count.antt =====
-- The entries of a stack of indices: which are there, and how many.
use chestnut.Base.{
  ℕ, zero, suc, ◌+◌, ◌≤◌, ◌<◌, ◌≡◌, refl, Bool, true, false, ◌||◌, List, ◌==◌, if◌then◌else◌,
  get_or, set, get_or-set_ne, arith,
}
use native.Mathlib.Decide.{dec_lt}

-- `v` is one of the first `n` entries.
unfoldable pub holds : List ℕ → ℕ → ℕ → Bool
holds xs zero v = false
holds xs (suc n) v = (get_or xs n 0 == v) || holds xs n v

-- The first `n` entries are distinct and below `total`.
abbrev pub Proper : ℕ → List ℕ → ℕ → Type 0
Proper total xs zero = Unit {0}
Proper total xs (suc n) =
    (get_or xs n 0 < total) × (holds xs n (get_or xs n 0) ≡ false) × Proper total xs n

-- A write at or above `n` leaves the first `n` entries.
pub holds-set : (xs : List ℕ) (n i v w : ℕ) → n ≤ i → holds (set xs i v) n w ≡ holds xs n w
unfolding holds
holds-set xs zero i v w le = refl
holds-set xs (suc n) i v w le =
    rw (get_or-set_ne xs i n v 0 (omega arith), holds-set xs n i v w (omega arith))

pub Proper-set :
    (total : ℕ) (xs : List ℕ) (n i v : ℕ) → n ≤ i → Proper total xs n → Proper total (set xs i v) n
Proper-set total xs zero i v le p = tt
Proper-set total xs (suc n) i v le p =
    let same = get_or-set_ne xs i n v 0 (omega arith) in
    (
      rw same p.0,
      rw (same, holds-set xs n i v (get_or xs n 0) (omega arith)) p.1,
      Proper-set total xs n i v (omega arith) p.2,
    )

-- How many numbers below `k` pass a test.
pub count : (ℕ → Bool) → ℕ → ℕ
count p zero = 0
count p (suc k) = (if p k then 1 else 0) + count p k

pub count-le : (p : ℕ → Bool) (k : ℕ) → count p k ≤ k
unfolding count
count-le p zero = omega arith
count-le p (suc k) = ground (arith, count-le p k)

pub count-full : (p : ℕ → Bool) (k i : ℕ) → count p k ≡ k → i < k → p i ≡ true
unfolding count
count-full p zero i e lt = absurd (omega arith)
count-full p (suc k) i e lt = elim (dec_lt i k) [
  | yes early ↦ count-full p k i (ground (arith, count-le p k)) early
  | no last ↦ let here : i ≡ k = omega arith in rw here (ground (arith, count-le p k))
]

pub count_all : (p : ℕ → Bool) (k : ℕ) → ((i : ℕ) → i < k → p i ≡ true) → count p k ≡ k
unfolding count
count_all p zero all = refl
count_all p (suc k) all = ground (arith, all k, count_all p k (λ i lt. all i (omega arith)))

pub count_ext : (p q : ℕ → Bool) (k : ℕ) → ((i : ℕ) → i < k → p i ≡ q i) → count p k ≡ count q k
unfolding count
count_ext p q zero same = refl
count_ext p q (suc k) same = ground (arith, same k, count_ext p q k (λ i lt. same i (omega arith)))

-- One more number passes.
pub count_add :
    (p : ℕ → Bool) (k v : ℕ)
    → v < k
    → p v ≡ false
    → count (λ i. (v == i) || p i) k ≡ suc (count p k)
unfolding count
count_add p zero v lt new = absurd (omega arith)
count_add p (suc k) v lt new = elim (dec_lt v k) [
  | yes early ↦ ground (arith, count_add p k v early new)
  | no last ↦
      let here : v ≡ k = omega arith in
      let rest = count_ext (λ i. (v == i) || p i) p k (λ i h. ground arith) in
      ground (arith, rest, here)
]

pub count_none : (k : ℕ) → count (λ i. false) k ≡ 0
unfolding count
count_none zero = refl
count_none (suc k) = omega (arith, count_none k)

pub count-holds :
    (total : ℕ) (xs : List ℕ) (n : ℕ) → Proper total xs n → count (holds xs n) total ≡ n
unfolding holds
count-holds total xs zero p = count_none total
count-holds total xs (suc n) p =
    omega (arith, count_add (holds xs n) total (get_or xs n 0) p.0 p.1, count-holds total xs n p.2)
