-- ===== src/Irqs/Context/Laws.antt =====
-- The saved registers are the fields of `Context`, and come back.
use chestnut.Base.{
  ℕ, suc, ◌+◌, ◌-◌, ◌*◌, ◌≤◌, ◌≡◌, refl, subst, List, [], ◌∷◌, ◌++◌, map, length, arith,
}
use chestnut.Irqs.Context.{
  Machine, push, pop, exec, run, high_registers, low_registers, save_context, restore_context,
}
use chestnut.Irqs.Context.Stack.{WordsAt, pushed, IsPushed, run-IsPushed, IsPopped, run-IsPopped}

-- The fields of `Context` at an address: `rax` to `rsi`, the two that are left free for `rbp` and `rsp`, and `r8` to `r15`.
abbrev pub fields : (ℕ → ℕ) → ℕ → ℕ → List ℕ
fields regs rbp rsp =
    regs 0
    ∷ regs 1
    ∷ regs 2
    ∷ regs 3
    ∷ regs 4
    ∷ regs 5
    ∷ rbp
    ∷ rsp
    ∷ regs 8
    ∷ regs 9
    ∷ regs 10
    ∷ regs 11
    ∷ regs 12
    ∷ regs 13
    ∷ regs 14
    ∷ regs 15
    ∷ []

-- The registers of a list are the same.
abbrev pub SameRegs : List ℕ → (ℕ → ℕ) → (ℕ → ℕ) → Type 0
SameRegs [] regs regs' = Unit {0}
SameRegs (r ∷ rs) regs regs' = (regs r ≡ regs' r) × SameRegs rs regs regs'

abbrev pub saved_registers : List ℕ
saved_registers = 0 ∷ 1 ∷ 2 ∷ 3 ∷ 4 ∷ 5 ∷ 8 ∷ 9 ∷ 10 ∷ 11 ∷ 12 ∷ 13 ∷ 14 ∷ 15 ∷ []

-- The state behind the first block.
pub record IsSaved (m s : Machine) : Type 0 where
  pub free_rbp : ℕ
  pub free_rsp : ℕ
  pub context : WordsAt s.memory s.rsp (fields m.regs free_rbp free_rsp)
  pub depth : s.rsp + 648 ≡ m.rsp

gap_words :
    (m : Machine) (vs : List ℕ)
    → 16 ≤ m.rsp
    → WordsAt m.memory m.rsp vs
    → WordsAt m.memory (m.rsp - 16) (m.memory (m.rsp - 16) ∷ m.memory (m.rsp - 16 + 8) ∷ vs)
gap_words m vs room w =
    let step : m.rsp - 16 + 8 + 8 ≡ m.rsp = omega (arith, room) in (refl, (refl, rw step w))

module _ (m : Machine) (room : 648 ≤ m.rsp) where
  start : Machine
  start = record m { rsp = m.rsp - 512 - 8 }

  top : Machine
  top = run (map push high_registers) start

  gap : Machine
  gap = record top { rsp = top.rsp - 16 }

  high : IsPushed start top high_registers []
  unfolding start top
  high = run-IsPushed high_registers [] start (omega (arith, room)) tt

  top_place : top.rsp + 64 + 520 ≡ m.rsp
  unfolding start
  top_place = omega (arith, high.depth, room)

  gap_list : List ℕ
  gap_list =
      top.memory (top.rsp - 16) ∷ top.memory (top.rsp - 16 + 8) ∷ pushed m.regs high_registers []

  low : IsPushed gap (run (map push low_registers) gap) low_registers gap_list
  unfolding gap gap_list start
  low =
      run-IsPushed low_registers gap_list gap (omega (arith, top_place, room)) (
        gap_words top (pushed m.regs high_registers []) (omega (arith, top_place, room)) high.words)

  pub save_context-IsSaved : IsSaved m (save_context m)
  unfolding save_context exec start top gap gap_list
  save_context-IsSaved = record {
    free_rbp = top.memory (top.rsp - 16);
    free_rsp = top.memory (top.rsp - 16 + 8);
    context =
        subst
          (λ (f : ℕ → ℕ).
            WordsAt (save_context m).memory (save_context m).rsp (pushed f low_registers gap_list))
          high.regs low.words;
    depth = omega (arith, low.depth, top_place, room);
  }

-- The words of the context, in two parts.
WordsAt-split :
    (mem : ℕ → ℕ) (p : ℕ) (xs ys : List ℕ)
    → WordsAt mem p (xs ++ ys)
    → WordsAt mem p xs × WordsAt mem (p + 8 * length xs) ys
WordsAt-split mem p [] ys w = let e : p + 8 * 0 ≡ p = omega arith in (tt, rw e w)
WordsAt-split mem p (x ∷ xs) ys (here, w) =
    let (a, b) = WordsAt-split mem (p + 8) xs ys w in
    let e : p + 8 * suc (length xs) ≡ p + 8 + 8 * length xs = omega arith in ((here, a), rw e b)

module _ (sp rbp rsp : ℕ) (regs : ℕ → ℕ) (n : Machine)
    (here : WordsAt n.memory sp (fields regs rbp rsp)) where
  low_values : List ℕ
  low_values = pushed regs low_registers []

  high_values : List ℕ
  high_values = pushed regs high_registers []

  loaded : Machine
  loaded = record n { rsp = sp }

  low_loaded : Machine
  low_loaded = run (map pop (0 ∷ 1 ∷ 2 ∷ 3 ∷ 4 ∷ 5 ∷ [])) loaded

  first : IsPopped loaded low_loaded (0 ∷ 1 ∷ 2 ∷ 3 ∷ 4 ∷ 5 ∷ []) low_values
  unfolding low_loaded low_values loaded
  first =
      run-IsPopped (0 ∷ 1 ∷ 2 ∷ 3 ∷ 4 ∷ 5 ∷ []) low_values loaded refl
        (WordsAt-split n.memory sp low_values (rbp ∷ rsp ∷ pushed regs high_registers []) here).0

  high_words : WordsAt n.memory (sp + 64) high_values
  unfolding high_values low_values
  high_words =
      let (_, (_, w)) =
        (WordsAt-split n.memory sp low_values (rbp ∷ rsp ∷ pushed regs high_registers []) here).1 in
      let e : sp + 8 * 6 + 8 + 8 ≡ sp + 64 = omega arith in rw e at w

  before_high : Machine
  before_high = record low_loaded { rsp = low_loaded.rsp + 16 }

  second :
      IsPopped before_high
        (run (map pop (8 ∷ 9 ∷ 10 ∷ 11 ∷ 12 ∷ 13 ∷ 14 ∷ 15 ∷ [])) before_high)
        (8 ∷ 9 ∷ 10 ∷ 11 ∷ 12 ∷ 13 ∷ 14 ∷ 15 ∷ [])
        high_values
  unfolding before_high high_values loaded
  second =
      let place : low_loaded.rsp + 16 ≡ sp + 64 = omega (arith, first.depth) in
      run-IsPopped (8 ∷ 9 ∷ 10 ∷ 11 ∷ 12 ∷ 13 ∷ 14 ∷ 15 ∷ []) high_values before_high refl
        (rw (place, first.memory) high_words)

  pub restore_context_regs :
      SameRegs saved_registers (restore_context sp n).regs regs
      × ((restore_context sp n).rsp ≡ sp + 648)
  unfolding restore_context exec before_high low_loaded loaded high_values low_values
  restore_context_regs = (
    rw (second.regs, first.regs)
        (
          refl,
          (
            refl,
            (
              refl,
              (
                refl,
                (refl, (refl, (refl, (refl, (refl, (refl, (refl, (refl, (refl, (refl, tt)))))))))),
              ),
            ),
          ),
        ),
    omega (arith, second.depth, first.depth),
  )
