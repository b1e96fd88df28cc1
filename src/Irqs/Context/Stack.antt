-- ===== src/Irqs/Context/Stack.antt =====
-- The words that pushes leave on the stack, and that pops take.
use chestnut.Base.{
  ℕ, ◌+◌, ◌-◌, ◌*◌, ◌≤◌, ◌≡◌, refl, ap, ◌∙◌, List, [], ◌∷◌, map, length, store, store_self,
  store_ne, arith,
}
use chestnut.Irqs.Context.{Machine, push, pop, exec, run}

-- Words in memory from an address on.
abbrev pub WordsAt : (ℕ → ℕ) → ℕ → List ℕ → Type 0
WordsAt mem p [] = Unit {0}
WordsAt mem p (v ∷ vs) = (mem p ≡ v) × WordsAt mem (p + 8) vs

pub WordsAt-agree :
    (mem mem' : ℕ → ℕ) (p : ℕ) (vs : List ℕ)
    → ((a : ℕ) → p ≤ a → mem' a ≡ mem a)
    → WordsAt mem p vs
    → WordsAt mem' p vs
WordsAt-agree mem mem' p [] same w = tt
WordsAt-agree mem mem' p (v ∷ vs) same (e, w) = (
  same p (omega arith) ∙ e,
  WordsAt-agree mem mem' (p + 8) vs (λ a h. same a (omega (arith, h))) w,
)

-- What the pushes put in front of the words.
abbrev pub pushed : (ℕ → ℕ) → List ℕ → List ℕ → List ℕ
pushed regs [] vs = vs
pushed regs (r ∷ rs) vs = pushed regs rs (regs r ∷ vs)

WordsAt-push :
    (m : Machine) (r : ℕ) (vs : List ℕ)
    → 8 ≤ m.rsp
    → WordsAt m.memory m.rsp vs
    → WordsAt (exec (push r) m).memory (exec (push r) m).rsp (m.regs r ∷ vs)
unfolding exec
WordsAt-push m r vs room w =
    let back : m.rsp - 8 + 8 ≡ m.rsp = omega (arith, room) in
    (
      store_self m.memory (m.rsp - 8) (m.regs r),
      rw back (
          WordsAt-agree m.memory (store m.memory (m.rsp - 8) (m.regs r)) m.rsp vs
            (λ a h. store_ne m.memory (m.rsp - 8) (m.regs r) a (λ e. omega (arith, e, h, room))) w),
    )

pub record IsPushed (m m' : Machine) (rs vs : List ℕ) : Type 0 where
  pub words : WordsAt m'.memory m'.rsp (pushed m.regs rs vs)
  pub depth : m'.rsp + 8 * length rs ≡ m.rsp
  pub regs : m'.regs ≡ m.regs

pub run-IsPushed :
    (rs vs : List ℕ) (m : Machine)
    → 8 * length rs ≤ m.rsp
    → WordsAt m.memory m.rsp vs
    → IsPushed m (run (map push rs) m) rs vs
unfolding run exec
run-IsPushed [] vs m room w = record { words = w; depth = omega arith; regs = refl }
run-IsPushed (r ∷ rs) vs m room w =
    let ih =
      run-IsPushed rs (m.regs r ∷ vs) (exec (push r) m) (omega (arith, room))
        (WordsAt-push m r vs (omega (arith, room)) w) in
    record { words = ih.words; depth = omega (arith, ih.depth, room); regs = ih.regs }

-- What the pops make of the registers.
abbrev popped : (ℕ → ℕ) → List ℕ → List ℕ → (ℕ → ℕ)
popped regs [] vs = regs
popped regs (r ∷ rs) [] = regs
popped regs (r ∷ rs) (v ∷ vs) = popped (store regs r v) rs vs

pub record IsPopped (m m' : Machine) (rs vs : List ℕ) : Type 0 where
  pub regs : m'.regs ≡ popped m.regs rs vs
  pub depth : m'.rsp ≡ m.rsp + 8 * length rs
  pub memory : m'.memory ≡ m.memory

pub run-IsPopped :
    (rs vs : List ℕ) (m : Machine)
    → length rs ≡ length vs
    → WordsAt m.memory m.rsp vs
    → IsPopped m (run (map pop rs) m) rs vs
unfolding run exec
run-IsPopped [] vs m e w = record { regs = refl; depth = omega arith; memory = refl }
run-IsPopped (r ∷ rs) [] m e w = absurd (omega (arith, e))
run-IsPopped (r ∷ rs) (v ∷ vs) m e (here, w) =
    let ih = run-IsPopped rs vs (exec (pop r) m) (omega (arith, e)) w in
    record {
      regs = ih.regs ∙ ap (λ (x : ℕ). popped (store m.regs r x) rs vs) here;
      depth = omega (arith, ih.depth);
      memory = ih.memory;
    }
