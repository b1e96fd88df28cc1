-- ===== src/Apic/Group.antt =====
-- `Acpi::InitIoApics`: all the I/O APICs of the machine.
use chestnut.Base.{
  ℕ, zero, suc, ◌+◌, ◌*◌, ◌^◌, ◌≤◌, ◌<◌, ◌≡◌, refl, subst, some, List, [], ◌∷◌, get_elem?,
}
use chestnut.Apic.{IoApic, init_io_apics}
use chestnut.Apic.Redirect.{vector_of, max_entry, init-Redirects}

-- A controller with 2 to 128 entries.
record IsUsual (s : IoApic) : Type 0 where
  base : s.interrupt_base < 2 ^ 31
  some_entry : 0 < max_entry s
  small : max_entry s < 128

-- Every entry has its vector and no other bit.
record IsDirected (s s' : IoApic) : Type 0 where
  entries :
      (j : ℕ)
      → j ≤ max_entry s
      → (s'.registers (16 + 2 * j) ≡ vector_of s.interrupt_base j)
        × (s'.registers (16 + 2 * j + 1) ≡ 0)

-- Each controller of the one list has one at the same place of the other.
abbrev EachDirected : List IoApic → List IoApic → Type 0
EachDirected before after =
    (i : ℕ) (s : IoApic)
    → get_elem? before i ≡ some s
    → (s' : IoApic) × ((get_elem? after i ≡ some s') × IsDirected s s')

EachDirected-cons :
    (s s' : IoApic) (before after : List IoApic)
    → IsDirected s s'
    → EachDirected before after
    → EachDirected (s ∷ before) (s' ∷ after)
EachDirected-cons s s' before after one others zero t e =
    let same : s ≡ t = cc e in (s', (refl, subst (λ u. IsDirected u s') same one))
EachDirected-cons s s' before after one others (suc i) t e = others i t e

-- `InitIoApics` succeeds where each controller has 2 to 128 entries, and directs the entries of all.
init_io_apics_lem :
    (before : List IoApic)
    → ((i : ℕ) (s : IoApic) → get_elem? before i ≡ some s → IsUsual s)
    → (after : List IoApic) × ((init_io_apics before ≡ some after) × EachDirected before after)
unfolding init_io_apics
init_io_apics_lem [] usual = ([], (refl, λ i s e. cc e))
init_io_apics_lem (s ∷ before) usual =
    let u = usual 0 s refl in
    let (s', e, directed) = init-Redirects s u.base u.some_entry u.small in
    let (after, (e', each)) = init_io_apics_lem before (λ i t h. usual (suc i) t h) in
    (
      s' ∷ after,
      (
        rw (e, e', init_io_apics) refl,
        EachDirected-cons s s' before after (record { entries = directed }) each,
      ),
    )
