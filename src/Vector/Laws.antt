-- ===== src/Vector/Laws.antt =====
-- `Insert` puts the element in its place, whether the array has to grow or not.
use chestnut.Base.{ℕ, ◌+◌, ◌*◌, ◌≤◌, ◌<◌, ◌≡◌, ◌⊎◌, ◌==◌, if◌then◌else◌}
use chestnut.Vector.{Vector}

-- Byte `k` of element `i`.
unfoldable pub byte : ℕ → Vector → ℕ → ℕ → ℕ
byte ele_size v i k = v.memory (v.ptr + (i * ele_size + k))

-- Two blocks without a common address.
abbrev pub Apart : ℕ → ℕ → ℕ → ℕ → Type 0
Apart a n b k = (a + n ≤ b) ⊎ (b + k ≤ a)

-- `Insert` behind `EnsureSpace`: the elements from `pos` on move up by one, and the new one goes
-- between.
pub record IsInserted (es pos xref : ℕ) (v w : Vector) : Type 0 where
  pub longer : w.len ≡ v.len + 1
  pub before : (i k : ℕ) → i < pos → k < es → byte es w i k ≡ byte es v i k
  pub here : (k : ℕ) → k < es → byte es w pos k ≡ v.memory (xref + k)
  pub behind : (i k : ℕ) → pos ≤ i → i < v.len → k < es → byte es w (i + 1) k ≡ byte es v i k

-- The capacity after `Extend`.
abbrev pub more_room : Vector → ℕ
more_room v = if v.capacity == 0 then 16 else v.capacity * 2
