-- ===== src/Acpi/Checksum.antt =====
-- The checksum of `ParseRSDP`.
use chestnut.Base.{
  ℕ, zero, suc, ◌+◌, ◌%◌, ◌^◌, ◌≤◌, ◌<◌, ◌≡◌, ◌≢◌, refl, inl, inr, false, Bool-cases, some, ◌==◌,
  store, store_self, store_ne, arith, ==_ne,
}
use chestnut.Acpi.{Acpi, byte_sum, parse_rsdp}

module _ (mem : ℕ → ℕ) (p i v : ℕ) where
  sum_outside : (n : ℕ) → n ≤ i → byte_sum n (store mem (p + i) v) p ≡ byte_sum n mem p
  unfolding byte_sum
  sum_outside zero le = refl
  sum_outside (suc n) le =
      rw (sum_outside n (omega (arith, le)), store_ne mem (p + i) v (p + n) (omega (arith, le)))
        refl

  sum_changed :
      (n : ℕ)
      → i < n
      → (byte_sum n (store mem (p + i) v) p + mem (p + i)) % 2 ^ 8 ≡ (byte_sum n mem p + v) % 2 ^ 8
  unfolding byte_sum
  sum_changed zero lt = absurd (omega (arith, lt))
  sum_changed (suc n) lt = elim (Bool-cases (i == n)) [
    | inl same ↦
        let e : n ≡ i = ground arith in
        rw e (rw (sum_outside i (omega arith), store_self mem (p + i) v) (omega arith))
    | inr other ↦
        let off : i ≢ n = ground arith in
        rw (store_ne mem (p + i) v (p + n) (λ e. off (omega (arith, e))))
          (omega (arith, sum_changed n (omega (arith, lt, off))))
  ]

-- A structure whose checksum is right and in which one byte is then changed is refused, and nothing of the
-- state has changed.
pub parse_rsdp_changed :
    (fuel kern_offset : ℕ) (mem : ℕ → ℕ) (p i v : ℕ) (s : Acpi)
    → byte_sum 20 mem p ≡ 0
    → i < 20
    → mem (p + i) < 2 ^ 8
    → v < 2 ^ 8
    → v ≢ mem (p + i)
    → parse_rsdp fuel kern_offset (store mem (p + i) v) p s ≡ some (false, s)
unfolding parse_rsdp
parse_rsdp_changed fuel kern_offset mem p i v s right lt old new off =
    let changed = sum_changed mem p i v 20 lt in
    let wrong : byte_sum 20 (store mem (p + i) v) p ≢ 0 =
      λ e. off (omega (arith, changed, right, e, old, new)) in
    rw (==_ne (byte_sum 20 (store mem (p + i) v) p) 0 wrong) refl
