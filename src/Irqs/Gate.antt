-- ===== src/Irqs/Gate.antt =====
-- A gate as the processor reads it.
use chestnut.Base.{
  ℕ, zero, suc, ◌+◌, ◌*◌, ◌^◌, ◌≤◌, ◌<◌, ◌≡◌, ◌⊎◌, refl, ◌∙◌, inl, arith, List, [], ◌∷◌, length,
  get_or, store, store_ne, store_self,
}
use chestnut.Bytes.{Memory}
use chestnut.Irqs.{gate, write_bytes}

pub write_bytes-outside :
    (bs : List ℕ) (a : ℕ) (m : Memory) (x : ℕ)
    → (x < a) ⊎ (a + length bs ≤ x)
    → write_bytes a bs m x ≡ m x
unfolding write_bytes
write_bytes-outside [] a m x out = refl
write_bytes-outside (b ∷ bs) a m x out =
    write_bytes-outside bs (a + 1) (store m a b) x (ground arith) ∙ store_ne m a b x (ground arith)

pub write_bytes-inside :
    (bs : List ℕ) (a i : ℕ) (m : Memory)
    → i < length bs
    → write_bytes a bs m (a + i) ≡ get_or bs i 0
unfolding write_bytes
write_bytes-inside [] a i m lt = absurd (omega arith)
write_bytes-inside (b ∷ bs) a zero m lt =
    let e : a + 0 ≡ a = omega arith in
    rw e (write_bytes-outside bs (a + 1) (store m a b) a (inl (omega arith)) ∙ store_self m a b)
write_bytes-inside (b ∷ bs) a (suc i) m lt =
    let e : a + suc i ≡ a + 1 + i = omega arith in
    rw e (write_bytes-inside bs (a + 1) i (store m a b) (omega arith))

-- The address in the gate at an address: its low, middle and high part.
unfoldable pub gate_offset : Memory → ℕ → ℕ
gate_offset m a =
    m (a + 0)
    + m (a + 1) * 2 ^ 8
    + m (a + 6) * 2 ^ 16
    + m (a + 7) * 2 ^ 24
    + m (a + 8) * 2 ^ 32
    + m (a + 9) * 2 ^ 40
    + m (a + 10) * 2 ^ 48
    + m (a + 11) * 2 ^ 56

-- The gate of a function at an address leads to it, in the kernel's code segment, whose selector has 16
-- bits, on the current stack, and its reserved part is 0.
pub record IsGate (m : Memory) (a func type : ℕ) : Type 0 where
  pub leads : gate_offset m a ≡ func
  pub segment : m (a + 2) + m (a + 3) * 2 ^ 8 ≡ 8
  pub stack : m (a + 4) ≡ 0
  pub kind : m (a + 5) ≡ type
  pub reserved : (m (a + 12) ≡ 0) × (m (a + 13) ≡ 0) × (m (a + 14) ≡ 0) × (m (a + 15) ≡ 0)

pub gate-IsGate :
    (m : Memory) (a func type : ℕ)
    → func < 2 ^ 64
    → ((k : ℕ) → k < 16 → m (a + k) ≡ get_or (gate func type) k 0)
    → IsGate m a func type
unfolding gate_offset gate
gate-IsGate m a func type lt byte = record {
  leads =
      rw
        (
          byte 0 (omega arith),
          byte 1 (omega arith),
          byte 6 (omega arith),
          byte 7 (omega arith),
          byte 8 (omega arith),
          byte 9 (omega arith),
          byte 10 (omega arith),
          byte 11 (omega arith),
        )
        (omega arith);
  segment = rw (byte 2 (omega arith), byte 3 (omega arith)) refl;
  stack = byte 4 (omega arith);
  kind = byte 5 (omega arith);
  reserved =
      (byte 12 (omega arith), byte 13 (omega arith), byte 14 (omega arith), byte 15 (omega arith));
}
