-- ===== src/Irqs/Context/Wrapper.antt =====
-- `InterruptWrapper` as a whole: what it writes to the saved context before the handlers run, and the
-- registers behind them.
use chestnut.Base.{
  ℕ, ◌+◌, ◌*◌, ◌≤◌, ◌<◌, ◌≡◌, ◌≢◌, ◌++◌, length, ap, ◌∙◌, Bool, if◌then◌else◌, List, [], ◌∷◌, store,
  arith,
}
use chestnut.Irqs.Context.{Machine, save_context, restore_context}
use chestnut.Irqs.Context.Stack.{WordsAt, WordsAt-agree}
use chestnut.Irqs.Context.Laws.{
  fields, SameRegs, saved_registers, save_context-IsSaved, restore_context_regs,
}

-- `f`: the `InterruptFrame` at the start of an `ExceptionFrame` is at the same address.
unfoldable pub interrupt_frame : Bool → ℕ → ℕ
interrupt_frame is_exception frame_ptr = if is_exception then frame_ptr + 8 else frame_ptr + 8

-- `ctx->rbp = *(u64 *) frame_ptr`, `ctx->rsp = f->rsp` and `ctx->rip = f->rip`.
unfoldable pub fill_context : Bool → ℕ → ℕ → (ℕ → ℕ) → ℕ → ℕ
fill_context is_exception frame_ptr ctx memory =
    let f = interrupt_frame is_exception frame_ptr in
    let with_rbp = store memory (ctx + 48) (memory frame_ptr) in
    let with_rsp = store with_rbp (ctx + 56) (with_rbp (f + 24)) in
    store with_rsp (ctx + 128) (with_rsp f)

module _ (is_exception : Bool) (frame_ptr ctx : ℕ) (memory : ℕ → ℕ)
    (above : ctx + 136 ≤ frame_ptr) where
  -- The three words that are written.
  filled :
      (fill_context is_exception frame_ptr ctx memory (ctx + 48) ≡ memory frame_ptr)
      × (fill_context is_exception frame_ptr ctx memory (ctx + 56) ≡ memory (frame_ptr + 32))
      × (fill_context is_exception frame_ptr ctx memory (ctx + 128) ≡ memory (frame_ptr + 8))
  unfolding fill_context interrupt_frame
  filled = (ground arith, ground arith, ground arith)

  spared :
      (a : ℕ)
      → a ≢ ctx + 48
      → a ≢ ctx + 56
      → a ≢ ctx + 128
      → fill_context is_exception frame_ptr ctx memory a ≡ memory a
  unfolding fill_context
  spared a no_rbp no_rsp no_rip = ground arith

WordsAt-within :
    (mem mem' : ℕ → ℕ) (p : ℕ) (vs : List ℕ)
    → ((a : ℕ) → p ≤ a → a < p + 8 * length vs → mem' a ≡ mem a)
    → WordsAt mem p vs
    → WordsAt mem' p vs
WordsAt-within mem mem' p [] same w = tt
WordsAt-within mem mem' p (v ∷ vs) same (e, w) = (
  same p (omega arith) (omega arith) ∙ e,
  WordsAt-within mem mem' (p + 8) vs (λ a h lt. same a (omega (arith, h)) (omega (arith, lt))) w,
)

WordsAt-append :
    (mem : ℕ → ℕ) (p q : ℕ) (xs ys : List ℕ)
    → q ≡ p + 8 * length xs
    → WordsAt mem p xs
    → WordsAt mem q ys
    → WordsAt mem p (xs ++ ys)
WordsAt-append mem p q [] ys e w z = let here : p ≡ q = omega (arith, e) in rw here z
WordsAt-append mem p q (x ∷ xs) ys e w z =
    (w.0, WordsAt-append mem (p + 8) q xs ys (omega (arith, e)) w.1 z)

WordsAt-split :
    (mem : ℕ → ℕ) (p q : ℕ) (xs ys : List ℕ)
    → q ≡ p + 8 * length xs
    → WordsAt mem p (xs ++ ys)
    → WordsAt mem p xs × WordsAt mem q ys
WordsAt-split mem p q [] ys e w = let here : q ≡ p = omega (arith, e) in (tt, rw here w)
WordsAt-split mem p q (x ∷ xs) ys e w =
    let r = WordsAt-split mem (p + 8) q xs ys (omega (arith, e)) w.1 in ((w.0, r.0), r.1)

-- The registers in the fields before and behind those of `rbp` and `rsp`.
abbrev first_fields : (ℕ → ℕ) → List ℕ
first_fields regs = regs 0 ∷ regs 1 ∷ regs 2 ∷ regs 3 ∷ regs 4 ∷ regs 5 ∷ []

abbrev last_fields : (ℕ → ℕ) → List ℕ
last_fields regs = regs 8 ∷ regs 9 ∷ regs 10 ∷ regs 11 ∷ regs 12 ∷ regs 13 ∷ regs 14 ∷ regs 15 ∷ []

-- The context is complete: the fields of `rbp`, `rsp` and `rip` have those of the interrupted code.
filled_fields :
    (is_exception : Bool) (frame_ptr ctx x y : ℕ) (regs memory : ℕ → ℕ)
    → ctx + 136 ≤ frame_ptr
    → WordsAt memory ctx (fields regs x y)
    → WordsAt
        (fill_context is_exception frame_ptr ctx memory)
        ctx
        (fields regs (memory frame_ptr) (memory (frame_ptr + 32)))
filled_fields is_exception frame_ptr ctx x y regs memory above w =
    let mem' = fill_context is_exception frame_ptr ctx memory in
    let (rbp, rsp, rip) = filled is_exception frame_ptr ctx memory above in
    let same = spared is_exception frame_ptr ctx memory above in
    let (first, others) =
      WordsAt-split memory ctx (ctx + 48) (first_fields regs) (x ∷ y ∷ last_fields regs)
        (omega arith) w in
    let (_, last) =
      WordsAt-split memory (ctx + 48) (ctx + 64) (x ∷ y ∷ []) (last_fields regs) (omega arith)
        others in
    let first' : WordsAt mem' ctx (first_fields regs) =
      WordsAt-within memory mem' ctx (first_fields regs)
        (λ a h lt.
          same a (λ e. omega (arith, e, lt)) (λ e. omega (arith, e, lt))
            (λ e. omega (arith, e, lt)))
        first in
    let last' : WordsAt mem' (ctx + 64) (last_fields regs) =
      WordsAt-within memory mem' (ctx + 64) (last_fields regs)
        (λ a h lt.
          same a (λ e. omega (arith, e, h)) (λ e. omega (arith, e, h)) (λ e. omega (arith, e, lt)))
        last in
    let middle : WordsAt mem' (ctx + 48) (memory frame_ptr ∷ memory (frame_ptr + 32) ∷ []) =
      (rbp, (ap mem' (omega arith) ∙ rsp, tt)) in
    WordsAt-append mem' ctx (ctx + 48) (first_fields regs)
      (memory frame_ptr ∷ memory (frame_ptr + 32) ∷ last_fields regs) (omega arith) first'
      (WordsAt-append mem' (ctx + 48) (ctx + 64) (memory frame_ptr ∷ memory (frame_ptr + 32) ∷ [])
        (last_fields regs) (omega arith) middle last')

-- The memory of the handlers: the saved context is filled in.
unfoldable pub handler_memory : Bool → ℕ → Machine → ℕ → ℕ
handler_memory is_exception frame_ptr m =
    let s = save_context m in fill_context is_exception frame_ptr s.rsp s.memory

-- The wrapper of an interrupt, from the registers of the interrupted code on: the handlers see a whole
-- `Context`, with the registers, the `rbp` that the frame keeps, and for `rsp` and `rip` the words at 32
-- and at 8 bytes above that `rbp`, for both kinds of interrupt. These are the `rsp` and `rip` that the
-- processor has pushed where it has pushed no error code; with one, they are the flags and the error code. When
-- the handlers change nothing of the stack from the context on, whatever they do to the registers,
-- every saved register and `rsp` have their values back at the end.
pub wrapper-SameRegs :
    (is_exception : Bool) (frame_ptr : ℕ) (m n : Machine)
    → 648 ≤ m.rsp
    → m.rsp ≤ frame_ptr
    → ((a : ℕ) → (save_context m).rsp ≤ a → n.memory a ≡ handler_memory is_exception frame_ptr m a)
    → WordsAt n.memory (save_context m).rsp (
        fields m.regs
          ((save_context m).memory frame_ptr)
          ((save_context m).memory (frame_ptr + 32)))
      × (n.memory ((save_context m).rsp + 128) ≡ (save_context m).memory (frame_ptr + 8))
      × SameRegs saved_registers (restore_context (save_context m).rsp n).regs m.regs
      × ((restore_context (save_context m).rsp n).rsp ≡ m.rsp)
unfolding handler_memory
wrapper-SameRegs is_exception frame_ptr m n room frame same =
    let s = save_context m in
    let saved = save_context-IsSaved m room in
    let above : s.rsp + 136 ≤ frame_ptr = omega (arith, saved.depth, frame) in
    let full =
      filled_fields is_exception frame_ptr s.rsp saved.free_rbp saved.free_rsp m.regs s.memory above
        saved.context in
    let here =
      WordsAt-agree (fill_context is_exception frame_ptr s.rsp s.memory) n.memory s.rsp
        (fields m.regs (s.memory frame_ptr) (s.memory (frame_ptr + 32))) same full in
    let (regs, place) =
      restore_context_regs s.rsp (s.memory frame_ptr) (s.memory (frame_ptr + 32)) m.regs n here in
    (
      here,
      same (s.rsp + 128) (omega arith) ∙ (filled is_exception frame_ptr s.rsp s.memory above).2,
      regs,
      place ∙ saved.depth,
    )
