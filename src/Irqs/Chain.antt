-- ===== src/Irqs/Chain.antt =====
-- The chains of handlers: `InstallChainHandler` (kern/irqs.h) and `InvokeChainHandlers` (kern/irqs.cc).
use chestnut.Base.{
  ℕ, zero, suc, ◌<◌, ◌≡◌, ◌≢◌, refl, sym, ap, ◌∙◌, inl, inr, false, Bool-cases, Option, none, some,
  List, [], ◌∷◌, length, has, ◌==◌, if◌then◌else◌, store, store_self, store_ne, arith, ==_ne,
}

-- `handlers`, and `next` of every handler, by its address; 0 is the null pointer.
pub record Handlers : Type 0 where
  pub heads : ℕ → ℕ
  pub next : ℕ → ℕ

unfoldable pub install_chain_handler : ℕ → ℕ → Handlers → Handlers
install_chain_handler irq_number p s = record {
  next = store s.next p (s.heads irq_number);
  heads = store s.heads irq_number p;
}

-- The loop of `InvokeChainHandlers` as the handlers whose `Run` it calls, for at most `fuel` of them;
-- `none` when they are not enough. A handler changes no chain.
unfoldable pub run_chain : ℕ → ℕ → Handlers → Option (List ℕ)
run_chain zero p s = if p == 0 then some [] else none
run_chain (suc fuel) p s =
    let rest = run_chain fuel (s.next p) s in
    if p == 0 then some [] else elim rest [ none ↦ none | some ps ↦ some (p ∷ ps) ]

unfoldable pub invoke_chain_handlers : ℕ → ℕ → Handlers → Option (List ℕ)
invoke_chain_handlers fuel irq_number s = run_chain fuel (s.heads irq_number) s

-- The handlers from a pointer on.
abbrev pub ChainAt : Handlers → ℕ → List ℕ → Type 0
ChainAt s p [] = p ≡ 0
ChainAt s p (x ∷ xs) = (p ≡ x) × (x ≢ 0) × ChainAt s (s.next x) xs

-- The chains of all interrupts.
pub record IsChained (s : Handlers) (chains : ℕ → List ℕ) : Type 0 where
  pub chain : (irq : ℕ) → ChainAt s (s.heads irq) (chains irq)

unfoldable pub installed : ℕ → ℕ → (ℕ → List ℕ) → (ℕ → List ℕ)
installed irq_number p chains = store chains irq_number (p ∷ chains irq_number)

ChainAt-install :
    (s : Handlers) (irq_number p q : ℕ) (xs : List ℕ)
    → has p xs ≡ false
    → ChainAt s q xs
    → ChainAt (install_chain_handler irq_number p s) q xs
unfolding install_chain_handler
ChainAt-install s irq_number p q [] new c = c
ChainAt-install s irq_number p q (x ∷ xs) new (e, some_x, rest) =
    let off : p ≢ x = ground arith in
    (
      e,
      some_x,
      rw (store_ne s.next p (s.heads irq_number) x off)
          (ChainAt-install s irq_number p (s.next x) xs (ground arith) rest),
    )

-- A handler that is in no chain is installed: it is the first of its chain, and the other chains are as before.
pub install_chain_handler-IsChained :
    (s : Handlers) (chains : ℕ → List ℕ) (irq_number p : ℕ)
    → IsChained s chains
    → p ≢ 0
    → ((irq : ℕ) → has p (chains irq) ≡ false)
    → IsChained (install_chain_handler irq_number p s) (installed irq_number p chains)
unfolding install_chain_handler installed
install_chain_handler-IsChained s chains irq_number p ok some_p new = record {
  chain = λ irq. elim (Bool-cases (irq_number == irq)) [
    | inl same ↦ rw same (
      refl,
      some_p,
      rw (store_self s.next p (s.heads irq_number)) (
          ChainAt-install s irq_number p (s.heads irq_number) (chains irq_number) (new irq_number)
            (ok.chain irq_number)),
    )
    | inr other ↦
        rw other
          (ChainAt-install s irq_number p (s.heads irq) (chains irq) (new irq) (ok.chain irq))
  ];
}

run_chain_lem :
    (s : Handlers) (fuel q : ℕ) (xs : List ℕ)
    → ChainAt s q xs
    → length xs < suc fuel
    → run_chain fuel q s ≡ some xs
unfolding run_chain
run_chain_lem s zero q [] c lt = rw c refl
run_chain_lem s (suc fuel) q [] c lt = rw c refl
run_chain_lem s zero q (x ∷ xs) c lt = absurd (omega (arith, lt))
run_chain_lem s (suc fuel) q (x ∷ xs) (e, some_x, rest) lt =
    let ih = run_chain_lem s fuel (s.next x) xs rest (omega (arith, lt)) in
    let some_q : q ≢ 0 = λ z. some_x (sym e ∙ z) in
    let rest_of_q = ap (λ (y : ℕ). run_chain fuel (s.next y) s) e ∙ ih in
    rw (==_ne q 0 some_q, rest_of_q) (ap (λ (y : ℕ). some (y ∷ xs)) e)

-- The handler is installed, and an interrupt comes: it ends, its handlers have run once each, the new one
-- first when the interrupt is its own.
pub invoke-install :
    (s : Handlers) (chains : ℕ → List ℕ) (irq_number p irq fuel : ℕ)
    → IsChained s chains
    → p ≢ 0
    → ((irq : ℕ) → has p (chains irq) ≡ false)
    → length (chains irq) < fuel
    → length (chains irq_number) < fuel
    → invoke_chain_handlers fuel irq (install_chain_handler irq_number p s)
      ≡ some (if irq_number == irq then p ∷ chains irq_number else chains irq)
unfolding invoke_chain_handlers installed
invoke-install s chains irq_number p irq fuel ok some_p new enough enough_own =
    let chained = install_chain_handler-IsChained s chains irq_number p ok some_p new in
    let t = install_chain_handler irq_number p s in
    run_chain_lem t fuel (t.heads irq) (installed irq_number p chains irq) (chained.chain irq)
      (elim (Bool-cases (irq_number == irq)) [
        | inl same ↦ rw same (omega (arith, enough_own))
        | inr other ↦ rw other (omega (arith, enough))
      ])
