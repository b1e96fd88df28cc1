-- ===== src/Bytes/Laws.antt =====
-- What the block functions leave in memory.
use native.Mathlib.Decide.{dec_lt}
use chestnut.Base.{
  ℕ, zero, suc, ◌+◌, ◌%◌, ◌^◌, ◌≤◌, ◌<◌, ◌≡◌, ◌⊎◌, refl, ◌∙◌, inl, inr, arith, store, store_ne,
  store_self,
}
use chestnut.Bytes.{Memory, memcpy, memmove, memset}

-- The block at `dst` holds what the one at `src` held, and the rest of the memory is as it was.
pub record IsCopy (dst src len : ℕ) (m m' : Memory) : Type 0 where
  pub inside : (i : ℕ) → i < len → m' (dst + i) ≡ m (src + i)
  pub outside : (a : ℕ) → (a < dst) ⊎ (dst + len ≤ a) → m' a ≡ m a

memcpy-outside :
    (dst src len : ℕ) (m : Memory) (a : ℕ)
    → (a < dst) ⊎ (dst + len ≤ a)
    → memcpy dst src len m a ≡ m a
unfolding memcpy
memcpy-outside dst src zero m a out = refl
memcpy-outside dst src (suc len) m a out =
    memcpy-outside (dst + 1) (src + 1) len (store m dst (m src)) a (ground arith)
    ∙ store_ne m dst (m src) a (ground arith)

-- `memcpy` copies a block, unless the destination begins inside the source, behind its first byte.
pub memcpy-IsCopy :
    (dst src len : ℕ) (m : Memory)
    → (dst ≤ src) ⊎ (src + len ≤ dst)
    → IsCopy dst src len m (memcpy dst src len m)
unfolding memcpy
memcpy-IsCopy dst src len m apart = record {
  inside = copied dst src len m apart;
  outside = λ a out. memcpy-outside dst src len m a out;
}
  where
    copied :
        (dst src len : ℕ) (m : Memory)
        → (dst ≤ src) ⊎ (src + len ≤ dst)
        → (i : ℕ) → i < len
        → memcpy dst src len m (dst + i) ≡ m (src + i)
    copied dst src zero m apart i lt = absurd (omega arith)
    copied dst src (suc len) m apart zero lt =
        let e : dst + 0 ≡ dst = omega arith in
        let e' : src + 0 ≡ src = omega arith in
        rw (e, e')
          (memcpy-outside (dst + 1) (src + 1) len (store m dst (m src)) dst (inl (omega arith))
            ∙ store_self m dst (m src))
    copied dst src (suc len) m apart (suc i) lt =
        let e : dst + suc i ≡ dst + 1 + i = omega arith in
        let e' : src + suc i ≡ src + 1 + i = omega arith in
        rw (e, e')
          (copied (dst + 1) (src + 1) len (store m dst (m src)) (ground arith) i (omega arith)
            ∙ store_ne m dst (m src) (src + 1 + i) (ground arith))

memmove-outside :
    (dst src len : ℕ) (m : Memory) (a : ℕ)
    → (a < dst) ⊎ (dst + len ≤ a)
    → memmove dst src len m a ≡ m a
unfolding memmove
memmove-outside dst src zero m a out = refl
memmove-outside dst src (suc len) m a out =
    memmove-outside dst src len (store m (dst + len) (m (src + len))) a (ground arith)
    ∙ store_ne m (dst + len) (m (src + len)) a (ground arith)

-- `memmove` copies a block, unless the destination begins before the source and reaches into it.
pub memmove-IsCopy :
    (dst src len : ℕ) (m : Memory)
    → (src ≤ dst) ⊎ (dst + len ≤ src)
    → IsCopy dst src len m (memmove dst src len m)
unfolding memmove
memmove-IsCopy dst src len m apart = record {
  inside = copied dst src len m apart;
  outside = λ a out. memmove-outside dst src len m a out;
}
  where
    copied :
        (dst src len : ℕ) (m : Memory)
        → (src ≤ dst) ⊎ (dst + len ≤ src)
        → (i : ℕ) → i < len
        → memmove dst src len m (dst + i) ≡ m (src + i)
    copied dst src zero m apart i lt = absurd (omega arith)
    copied dst src (suc len) m apart i lt = elim (dec_lt i len) [
      | yes early ↦
          copied dst src len (store m (dst + len) (m (src + len))) (ground arith) i early
          ∙ store_ne m (dst + len) (m (src + len)) (src + i) (ground arith)
      | no last ↦
          let e : i ≡ len = omega arith in
          rw e (
            memmove-outside dst src len (store m (dst + len) (m (src + len))) (dst + len)
              (inr (omega arith))
            ∙ store_self m (dst + len) (m (src + len)))
    ]

-- Where the destination is one byte before the source, `memmove` does not copy: it fills the block
-- with the last byte of the source.
pub memmove_down :
    (dst len : ℕ) (m : Memory) (i : ℕ)
    → i < len
    → memmove dst (dst + 1) len m (dst + i) ≡ m (dst + len)
unfolding memmove
memmove_down dst zero m i lt = absurd (omega arith)
memmove_down dst (suc len) m i lt =
    let e : dst + suc len ≡ dst + 1 + len = omega arith in
    rw e (elim (dec_lt i len) [
      | yes early ↦
          memmove_down dst len (store m (dst + len) (m (dst + 1 + len))) i early
          ∙ store_self m (dst + len) (m (dst + 1 + len))
      | no last ↦
          let e' : i ≡ len = omega arith in
          rw e' (
            memmove-outside dst (dst + 1) len (store m (dst + len) (m (dst + 1 + len))) (dst + len)
              (inr (omega arith))
            ∙ store_self m (dst + len) (m (dst + 1 + len)))
    ])

-- `memset` fills a block with the low byte of `c` and leaves the rest of the memory as it was.
pub memset-IsFill :
    (b c len : ℕ) (m : Memory)
    → ((i : ℕ) → i < len → memset b c len m (b + i) ≡ c % 2 ^ 8)
      × ((a : ℕ) → (a < b) ⊎ (b + len ≤ a) → memset b c len m a ≡ m a)
unfolding memset
memset-IsFill b c len m = (filled b len m, untouched b len m)
  where
    untouched :
        (b len : ℕ) (m : Memory) (a : ℕ) → (a < b) ⊎ (b + len ≤ a) → memset b c len m a ≡ m a
    untouched b zero m a out = refl
    untouched b (suc len) m a out =
        untouched (b + 1) len (store m b (c % 2 ^ 8)) a (ground arith)
        ∙ store_ne m b (c % 2 ^ 8) a (ground arith)

    filled : (b len : ℕ) (m : Memory) (i : ℕ) → i < len → memset b c len m (b + i) ≡ c % 2 ^ 8
    filled b zero m i lt = absurd (omega arith)
    filled b (suc len) m zero lt =
        let e : b + 0 ≡ b = omega arith in
        rw e (
          untouched (b + 1) len (store m b (c % 2 ^ 8)) b (inl (omega arith))
          ∙ store_self m b (c % 2 ^ 8))
    filled b (suc len) m (suc i) lt =
        let e : b + suc i ≡ b + 1 + i = omega arith in
        rw e (filled (b + 1) len (store m b (c % 2 ^ 8)) i (omega arith))
