-- ===== src/Irqs/Setup.antt =====
-- `IrqVector::Setup` (kern/irqs.cc): the interrupt controllers of the PC are set up and masked, and every
-- interrupt gets its wrapper.
use chestnut.Base.{
  ℕ, zero, suc, ◌+◌, ◌*◌, ◌^◌, ◌≤◌, ◌<◌, ◌≡◌, ◌⊎◌, refl, sym, ◌∙◌, inl, inr, ap, Bool, Bool-cases,
  true, false, ltb, ◌==◌, set, length-set, get_or-set_self, get_or-set_ne, List, [], ◌∷◌, ◌++◌,
  length, get_or, has, if◌then◌else◌, store, arith,
}
use native.Mathlib.Decide.{dec_lt}
use mathlib.Core.List.{append_assoc, append-nil}
use chestnut.Bytes.{Memory}
use chestnut.Irqs.{gate, install_irq_function}
use chestnut.Irqs.Gate.{IsGate, gate-IsGate, write_bytes-inside, write_bytes-outside}

-- `base_irq_addr`, the bytes of memory, the elements of `gIsInterruptException`, the indices of the writes
-- behind its end, the pointers in `handlers`, and the writes to ports, as the port and the value.
pub record IrqVector : Type 0 where
  pub base_irq_addr : ℕ
  pub bytes : Memory
  pub is_exception : List Bool
  pub overrun : List ℕ
  pub handlers : ℕ → ℕ
  pub outs : List (ℕ × ℕ)

-- `gExceptionIrq`, as it is written, in hexadecimal.
abbrev pub exception_irqs : List ℕ
exception_irqs = 8 ∷ 16 ∷ 17 ∷ 18 ∷ 19 ∷ 20 ∷ 23 ∷ 48 ∷ []

-- The writes to the ports of the two controllers.
abbrev pub pic_writes : List (ℕ × ℕ)
pic_writes =
    (32, 17)
    ∷ (160, 17)
    ∷ (33, 32)
    ∷ (161, 40)
    ∷ (33, 4)
    ∷ (161, 2)
    ∷ (33, 1)
    ∷ (161, 1)
    ∷ (33, 255)
    ∷ (161, 255)
    ∷ []

-- The loop over `gExceptionIrq`, with the elements of the array and the writes behind its end.
unfoldable pub mark_exceptions : List ℕ → List Bool → List ℕ → List Bool × List ℕ
mark_exceptions [] marks overrun = (marks, overrun)
mark_exceptions (irq ∷ irqs) marks overrun =
    let inside = ltb irq (length marks) in
    mark_exceptions irqs (if inside then set marks irq true else marks)
      (if inside then overrun else overrun ++ (irq ∷ []))

-- `HandlerInstaller<N>`, where `wrapper` gives the address of `InterruptWrapper<N>`.
unfoldable pub install_handlers : ℕ → (ℕ → ℕ) → ℕ → Memory → Memory
install_handlers base wrapper zero m = install_irq_function base 0 (wrapper 0) 142 m
install_handlers base wrapper (suc n) m =
    install_irq_function base (suc n) (wrapper (suc n)) 142 (install_handlers base wrapper n m)

-- `Setup`, up to the load of the table's register.
unfoldable pub setup : ℕ → (ℕ → ℕ) → IrqVector → IrqVector
setup base_addr wrapper s = record {
  base_irq_addr = base_addr;
  bytes = install_handlers base_addr wrapper 255 s.bytes;
  is_exception = (mark_exceptions exception_irqs s.is_exception s.overrun).0;
  overrun = (mark_exceptions exception_irqs s.is_exception s.overrun).1;
  handlers = store s.handlers 0 0;
  outs = s.outs ++ pic_writes;
}

-- The numbers that an array of `n` elements has no place for.
unfoldable beyond : ℕ → List ℕ → List ℕ
beyond n [] = []
beyond n (x ∷ xs) = if ltb x n then beyond n xs else x ∷ beyond n xs

-- The loop over `irqs`: the elements with these numbers are set, and the writes with no element listed.
record IsMarked (irqs : List ℕ) (marks : List Bool) (overrun : List ℕ) (r : List Bool × List ℕ)
    : Type 0 where
  long : length r.0 ≡ length marks
  marked :
      (irq : ℕ)
      → irq < length marks
      → get_or r.0 irq false ≡ (if has irq irqs then true else get_or marks irq false)
  out : r.1 ≡ overrun ++ beyond (length marks) irqs

mark_one :
    (x irq : ℕ) (marks : List Bool)
    → x < length marks
    → get_or (set marks x true) irq false ≡ (if irq == x then true else get_or marks irq false)
mark_one x irq marks lt = elim (Bool-cases (irq == x)) [
  | inl here ↦
      let e : irq ≡ x = ground arith in rw (here, e) (get_or-set_self marks x true false lt)
  | inr other ↦ rw other (get_or-set_ne marks x irq true false (ground arith))
]

IsMarked-inside :
    (x : ℕ) (irqs : List ℕ) (marks : List Bool) (overrun : List ℕ) (r : List Bool × List ℕ)
    → ltb x (length marks) ≡ true
    → IsMarked irqs (set marks x true) overrun r
    → IsMarked (x ∷ irqs) marks overrun r
unfolding beyond
IsMarked-inside x irqs marks overrun r inside m =
    let same : length (set marks x true) ≡ length marks = length-set marks x true in
    record {
      long = m.long ∙ same;
      marked = λ irq lt. ground (
        arith,
        m.marked irq (omega (arith, same)),
        mark_one x irq marks (ground (arith, inside)),
      );
      out = rw inside (m.out ∙ ap (λ (n : ℕ). overrun ++ beyond n irqs) same);
    }

IsMarked-outside :
    (x : ℕ) (irqs : List ℕ) (marks : List Bool) (overrun : List ℕ) (r : List Bool × List ℕ)
    → ltb x (length marks) ≡ false
    → IsMarked irqs marks (overrun ++ (x ∷ [])) r
    → IsMarked (x ∷ irqs) marks overrun r
unfolding beyond
IsMarked-outside x irqs marks overrun r outside m = record {
  long = m.long;
  marked = λ irq lt.
      let other : (irq == x) ≡ false = ground (arith, outside) in rw other (m.marked irq lt);
  out = rw outside (m.out ∙ append_assoc overrun (x ∷ []) (beyond (length marks) irqs));
}

mark_exceptions-IsMarked :
    (irqs : List ℕ) (marks : List Bool) (overrun : List ℕ)
    → IsMarked irqs marks overrun (mark_exceptions irqs marks overrun)
unfolding mark_exceptions beyond
mark_exceptions-IsMarked [] marks overrun = record {
  long = refl;
  marked = λ irq lt. refl;
  out = sym (append-nil overrun);
}
mark_exceptions-IsMarked (x ∷ irqs) marks overrun = elim (Bool-cases (ltb x (length marks))) [
  | inl inside ↦
      IsMarked-inside x irqs marks overrun _ inside
        (rw inside (mark_exceptions-IsMarked irqs (set marks x true) overrun))
  | inr outside ↦
      IsMarked-outside x irqs marks overrun _ outside
        (rw outside (mark_exceptions-IsMarked irqs marks (overrun ++ (x ∷ []))))
]

length-gate : (func type : ℕ) → length (gate func type) ≡ 16
unfolding gate
length-gate func type = refl

-- The gates 0 to `n` are those of the wrappers, and no other byte has changed.
install_handlers_lem :
    (base : ℕ) (wrapper : ℕ → ℕ) (n : ℕ) (m : Memory)
    → ((irq k : ℕ)
        → irq ≤ n
        → k < 16
        → install_handlers base wrapper n m (base + irq * 16 + k)
          ≡ get_or (gate (wrapper irq) 142) k 0)
      × ((x : ℕ)
          → (x < base) ⊎ (base + (n + 1) * 16 ≤ x)
          → install_handlers base wrapper n m x ≡ m x)
unfolding install_handlers install_irq_function
install_handlers_lem base wrapper zero m = (
  λ irq k le lt.
      let here : irq ≡ 0 = omega arith in
      rw here (
        write_bytes-inside (gate (wrapper 0) 142) (base + 0 * 16) k m
          (omega (arith, length-gate (wrapper 0) 142))),
  λ x out.
      write_bytes-outside (gate (wrapper 0) 142) (base + 0 * 16) m x
        (omega (arith, length-gate (wrapper 0) 142, out)),
)
install_handlers_lem base wrapper (suc n) m =
    let (gates, others) = install_handlers_lem base wrapper n m in
    let m' = install_handlers base wrapper n m in
    let long = length-gate (wrapper (suc n)) 142 in
    let a = base + suc n * 16 in
    (
      λ irq k le lt. elim (dec_lt irq (suc n)) [
        | yes before ↦
            write_bytes-outside (gate (wrapper (suc n)) 142) a m' (base + irq * 16 + k)
              (inl (omega arith))
            ∙ gates irq k (omega arith) lt
        | no last ↦
            let here : irq ≡ suc n = omega arith in
            rw here (write_bytes-inside (gate (wrapper (suc n)) 142) a k m' (omega (arith, long)))
      ],
      λ x out.
          write_bytes-outside (gate (wrapper (suc n)) 142) a m' x (omega (arith, long, out))
          ∙ others x (omega (arith, out)),
    )

-- Behind `Setup` each of the 256 gates of the table leads to its wrapper, in the kernel's code segment
-- and as an interrupt gate, and no byte outside the table has changed; of the 32 elements of
-- `gIsInterruptException`, those whose number is in `gExceptionIrq` are set and the others stay; one write
-- goes behind the end of this array, at the index 0x30; and the last writes to the ports mask
-- every interrupt of both controllers.
pub setup_lem :
    (base_addr : ℕ) (wrapper : ℕ → ℕ) (s : IrqVector)
    → ((irq : ℕ) → wrapper irq < 2 ^ 64)
    → length s.is_exception ≡ 32
    → ((irq : ℕ)
        → irq < 256
        → IsGate (setup base_addr wrapper s).bytes (base_addr + irq * 16) (wrapper irq) 142)
      × ((x : ℕ)
          → (x < base_addr) ⊎ (base_addr + 4096 ≤ x)
          → (setup base_addr wrapper s).bytes x ≡ s.bytes x)
      × ((irq : ℕ)
          → irq < 32
          → get_or (setup base_addr wrapper s).is_exception irq false
            ≡ (if has irq exception_irqs then true else get_or s.is_exception irq false))
      × (length (setup base_addr wrapper s).is_exception ≡ 32)
      × ((setup base_addr wrapper s).overrun ≡ s.overrun ++ (48 ∷ []))
      × ((before : List (ℕ × ℕ)) × ((setup base_addr wrapper s).outs
            ≡ before ++ ((33, 255) ∷ (161, 255) ∷ [])))
unfolding setup beyond
setup_lem base_addr wrapper s words room =
    let m = mark_exceptions-IsMarked exception_irqs s.is_exception s.overrun in
    let (gates, others) = install_handlers_lem base_addr wrapper 255 s.bytes in
    (
      λ irq lt.
          gate-IsGate _ (base_addr + irq * 16) (wrapper irq) 142 (words irq)
            (λ k h. gates irq k (omega arith) h),
      λ x out. others x (omega (arith, out)),
      λ irq lt. m.marked irq (omega (arith, room)),
      m.long ∙ room,
      m.out ∙ ap (λ (n : ℕ). s.overrun ++ beyond n exception_irqs) room,
      (
        s.outs
            ++ ((32, 17)
                ∷ (160, 17)
                ∷ (33, 32)
                ∷ (161, 40)
                ∷ (33, 4)
                ∷ (161, 2)
                ∷ (33, 1)
                ∷ (161, 1)
                ∷ []),
        sym (append_assoc s.outs _ _),
      ),
    )
