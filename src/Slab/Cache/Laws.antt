-- ===== src/Slab/Cache/Laws.antt =====
-- `Allocate` gives an object that nobody has, and `Free` takes back just that one.
use native.Mathlib.Nat.{mul-div_cancel}
use chestnut.Base.{
  ℕ, ◌+◌, ◌-◌, ◌*◌, ◌/◌, ◌%◌, ◌^◌, ◌≤◌, ◌<◌, ◌≡◌, refl, ap, ◌∙◌, true, false, not, ◌&&◌, ◌||◌, some,
  ◌==◌, store, arith,
}
use chestnut.Pages.{page_size, page_num, page_base}
use chestnut.Slab.{SlabClass, IsSlab}
use chestnut.Slab.Cache.{MemCache, unlink, adjust_slab, pick_slab, give_object, allocate, free}
use chestnut.Slab.Cache.Detached.{queued, IsValid, unlink-IsDetached}
use chestnut.Slab.Cache.Rejoin.{used}
use chestnut.Slab.Cache.Take.{
  IsFresh, used-unlink, pick-IsPicked, settle-IsValid, take-IsValid, adjust-data_page,
  pick-data_page,
}

-- Where the object of a slab is in memory.
pub object_place :
    (d i o : ℕ)
    → d % page_size ≡ 0
    → 0 < o
    → i * o + o ≤ page_size
    → (page_num (d + i * o) ≡ page_num d) × ((d + i * o - page_base (d + i * o)) / o ≡ i)
object_place d i o aligned pos fits =
    let inside : i * o < page_size = omega arith in
    let same : page_num (d + i * o) ≡ page_num d = omega arith in
    let offset : d + i * o - page_base (d + i * o) ≡ i * o = omega arith in
    (same, ap (λ (x : ℕ). x / o) offset ∙ mul-div_cancel i pos)

module _ (c : SlabClass) (IsSlot : ℕ → Type 0) (Raw : c.State → Type 0)
    (kept : IsSlab c IsSlot Raw) where
  pub queued_of_used :
      (m : MemCache c.State) (a i : ℕ) → used c IsSlot Raw kept m a i ≡ true → queued m a ≡ true
  unfolding used
  queued_of_used m a i held = ground arith

  held_slot :
      (m : MemCache c.State) (a i : ℕ)
      → used c IsSlot Raw kept m a i ≡ true
      → kept.slot_free (m.slab a) i ≡ false
  unfolding used
  held_slot m a i held = ground arith

  free_eq :
      (obj_size addr a i : ℕ) (m : MemCache c.State) (s : c.State)
      → m.slab_ptr (page_num addr) ≡ a
      → (addr - page_base addr) / obj_size ≡ i
      → c.free i (m.slab a) ≡ some s
      → free c obj_size addr m
        ≡ some (
            adjust_slab c a (record (unlink a m) {
              slab = store (unlink a m).slab a s;
              allocated = (m.allocated + (2 ^ 64 - 1)) % 2 ^ 64;
            }))
  unfolding free give_object unlink
  free_eq obj_size addr a i m s found slot e =
      (λ t. give_object c (slot t) (found t) m) ∙ rw (e, give_object) refl

  -- `Allocate` succeeds, given memory for a new slab: it returns the address of an object that was
  -- not handed out before and is from now on. No other object is handed out or taken back, and the
  -- queues stay in order.
  pub allocate-Takes :
      (first obj_size a pg : ℕ) (m : MemCache c.State)
      → IsSlot first
      → IsValid c IsSlot Raw kept m
      → IsFresh c IsSlot Raw kept m a pg
      → (x : ℕ) × (i : ℕ) × (m' : MemCache c.State) × ((allocate c obj_size a pg m
            ≡ some (m'.data_page x + i * obj_size, m'))
          × IsValid c IsSlot Raw kept m'
          × (IsSlot i)
          × (used c IsSlot Raw kept m x i ≡ false)
          × ((b j : ℕ)
              → IsSlot j
              → used c IsSlot Raw kept m' b j
                ≡ (used c IsSlot Raw kept m b j || ((x == b) && (i == j))))
          × ((b : ℕ) → queued m b ≡ true → m'.data_page b ≡ m.data_page b))
  unfolding allocate
  allocate-Takes first obj_size a pg m pos v f =
      let x = (pick_slab c a pg m.half m.empty m).0 in
      let m0 = (pick_slab c a pg m.half m.empty m).1 in
      let p = pick-IsPicked c IsSlot Raw kept first m a pg m.half m.empty pos v f refl refl in
      let (i, s, (e, ok, lt, unused, taken)) =
        kept.alloc_lem (m0.slab x) p.detached.here.valid p.some_left in
      let (m', e', v', was, now, pages) =
        take-IsValid c IsSlot Raw kept m m0 obj_size x i s p e ok lt unused taken in
      (
        x,
        i,
        m',
        (
          e',
          v',
          lt,
          was,
          now,
          λ b h.
              ap (λ (p : ℕ → ℕ). p b) pages
              ∙ pick-data_page c IsSlot Raw kept m a pg b m.half m.empty f.apart h,
        ),
      )

  -- `Free` of an object that is handed out succeeds, where the objects of a slab fit in its page: it
  -- takes back that object and no other, and the queues stay in order.
  pub free-Gives :
      (obj_size a i : ℕ) (m : MemCache c.State)
      → 0 < obj_size
      → ((j : ℕ) → IsSlot j → j * obj_size + obj_size ≤ page_size)
      → IsValid c IsSlot Raw kept m
      → IsSlot i
      → used c IsSlot Raw kept m a i ≡ true
      → (m' : MemCache c.State) × (free c obj_size (m.data_page a + i * obj_size) m ≡ some m')
        × IsValid c IsSlot Raw kept m'
        × ((b j : ℕ)
            → IsSlot j
            → used c IsSlot Raw kept m' b j
              ≡ (used c IsSlot Raw kept m b j && not ((a == b) && (i == j))))
        × (m'.data_page ≡ m.data_page)
  unfolding free unlink
  free-Gives obj_size a i m pos fits v lt held =
      let q : queued m a ≡ true = queued_of_used m a i held in
      let v_a = v.placed a q in
      let place = object_place (m.data_page a) i obj_size v_a.aligned pos (fits i lt) in
      let found : m.slab_ptr (page_num (m.data_page a + i * obj_size)) ≡ a =
        ap m.slab_ptr place.0 ∙ v_a.found in
      let (s, e, ok, given) = kept.free_lem i (m.slab a) v_a.valid lt (held_slot m a i held) in
      let k = (m.allocated + (2 ^ 64 - 1)) % 2 ^ 64 in
      let r =
        settle-IsValid c IsSlot Raw kept (unlink a m) a k s
          (unlink-IsDetached c IsSlot Raw kept a m v q) ok in
      (
        adjust_slab c a (record (unlink a m) { slab = store (unlink a m).slab a s; allocated = k }),
        free_eq obj_size (m.data_page a + i * obj_size) a i m s found place.1 e,
        r.0,
        λ b j h. ground (arith, r.1 b j h, used-unlink c IsSlot Raw kept m a b j q, given j h),
        adjust-data_page c a
            (record (unlink a m) { slab = store (unlink a m).slab a s; allocated = k }),
      )
