-- ===== src/Boot.antt =====
-- What the boot loader hands over: `ParseMultibootInfo` (kern/main.cc) over the tags of kern/multiboot2.h.
mod Examples
use chestnut.Base.{
  ℕ, zero, suc, ◌+◌, ◌-◌, ◌*◌, ◌/◌, ◌%◌, ◌^◌, ◌≤◌, ◌<◌, ◌≡◌, refl, sym, ap, ◌∙◌, inl, inr, Bool,
  true, false, Bool-cases, Option, none, some, List, [], ◌∷◌, length, ltb, ◌==◌, if◌then◌else◌,
  arith,
}
use chestnut.Acpi.{load32}

-- `MULTIBOOT_TAG_TYPE_MMAP`, `MULTIBOOT_TAG_TYPE_VBE` and `MULTIBOOT_TAG_TYPE_FRAMEBUFFER`.
abbrev pub mmap_type : ℕ
mmap_type = 6

abbrev pub vbe_type : ℕ
vbe_type = 7

abbrev pub framebuffer_type : ℕ
framebuffer_type = 8

-- `MultibootInfo`, whose null pointers are `none`.
pub record MultibootInfo : Type 0 where
  pub boot_mem_map : Option ℕ
  pub boot_vbe : Option ℕ
  pub boot_framebuf : Option ℕ

-- The tests of the loop for the tag at an address.
unfoldable pub take_tag : ℕ → ℕ → MultibootInfo → MultibootInfo
take_tag kind tag info =
    if kind == mmap_type
    then record info { boot_mem_map = some tag }
    else if kind == vbe_type
    then record info { boot_vbe = some tag }
    else if kind == framebuffer_type
    then record info { boot_framebuf = some tag }
    else info

-- `(tag->size + 0x07) & (~0x07)`, in 32 bits.
unfoldable pub padded : ℕ → ℕ
padded size = (size + 7) % 2 ^ 32 / 8 * 8

-- The loop, for at most `fuel` rounds; `none` when they are not enough.
unfoldable pub parse_tags : ℕ → (ℕ → ℕ) → ℕ → ℕ → MultibootInfo → Option MultibootInfo
parse_tags zero mem finish tag info = if ltb tag finish then none else some info
parse_tags (suc fuel) mem finish tag info =
    let rest =
      parse_tags fuel mem finish (tag + padded (load32 mem (tag + 4)))
        (take_tag (load32 mem tag) tag info) in
    if ltb tag finish then rest else some info

abbrev pub no_info : MultibootInfo
no_info = record { boot_mem_map = none; boot_vbe = none; boot_framebuf = none }

-- `ParseMultibootInfo`. `info_size` is an `int`.
unfoldable pub parse_multiboot_info : ℕ → (ℕ → ℕ) → ℕ → Option MultibootInfo
parse_multiboot_info fuel mem mbi =
    let size = load32 mem mbi in
    parse_tags fuel mem (if ltb size (2 ^ 31) then mbi + size else mbi - (2 ^ 32 - size)) (mbi + 8)
      no_info

-- Tags, as their types and sizes, from an address on up to another one, each at a multiple of 8 bytes behind the one
-- before it.
abbrev pub TagsAt : (ℕ → ℕ) → ℕ → List (ℕ × ℕ) → ℕ → Type 0
TagsAt mem p [] finish = p ≡ finish
TagsAt mem p ((kind, size) ∷ tags) finish =
    (load32 mem p ≡ kind)
    × (load32 mem (p + 4) ≡ size)
    × (1 ≤ size)
    × (size + 7 < 2 ^ 32)
    × TagsAt mem (p + padded size) tags finish

-- The address of the last tag of a type, if there is one.
abbrev pub last_tag : ℕ → ℕ → List (ℕ × ℕ) → Option ℕ → Option ℕ
last_tag wanted p [] found = found
last_tag wanted p ((kind, size) ∷ tags) found =
    last_tag wanted (p + padded size) tags (if kind == wanted then some p else found)

tags_le :
    (mem : ℕ → ℕ) (p : ℕ) (tags : List (ℕ × ℕ)) (finish : ℕ) → TagsAt mem p tags finish → p ≤ finish
tags_le mem p [] finish e = omega (arith, e)
tags_le mem p ((kind, size) ∷ tags) finish (_, _, _, _, rest) =
    omega (arith, tags_le mem (p + padded size) tags finish rest)

pub last_tags : ℕ → List (ℕ × ℕ) → MultibootInfo → MultibootInfo
last_tags p tags info = record {
  boot_mem_map = last_tag mmap_type p tags info.boot_mem_map;
  boot_vbe = last_tag vbe_type p tags info.boot_vbe;
  boot_framebuf = last_tag framebuffer_type p tags info.boot_framebuf;
}

take_tag-last :
    (kind size p : ℕ) (tags : List (ℕ × ℕ)) (info : MultibootInfo)
    → last_tags (p + padded size) tags (take_tag kind p info)
      ≡ last_tags p ((kind, size) ∷ tags) info
unfolding take_tag last_tags
take_tag-last kind size p tags info = elim (Bool-cases (kind == mmap_type)) [
  | inl a ↦ let e : kind ≡ 6 = ground arith in rw e refl
  | inr a ↦ elim (Bool-cases (kind == vbe_type)) [
    | inl b ↦ let e : kind ≡ 7 = ground arith in rw e refl
    | inr b ↦ elim (Bool-cases (kind == framebuffer_type)) [
      | inl c ↦ let e : kind ≡ 8 = ground arith in rw e refl
      | inr c ↦ rw (a, b, c) refl
    ]
  ]
]

go_on :
    (p size finish : ℕ)
    → 1 ≤ size
    → size + 7 < 2 ^ 32
    → p + padded size ≤ finish
    → ltb p finish ≡ true
unfolding padded
go_on p size finish some_size small behind =
    let lt : p < finish = omega (arith, some_size, small, behind) in ground arith

parse_tags-last :
    (fuel : ℕ) (mem : ℕ → ℕ) (finish p : ℕ) (tags : List (ℕ × ℕ)) (info : MultibootInfo)
    → TagsAt mem p tags finish
    → length tags ≤ fuel
    → parse_tags fuel mem finish p info ≡ some (last_tags p tags info)
unfolding parse_tags last_tags
parse_tags-last zero mem finish p [] info e enough =
    let over : ltb p finish ≡ false = ground (arith, e) in rw over refl
parse_tags-last (suc fuel) mem finish p [] info e enough =
    let over : ltb p finish ≡ false = ground (arith, e) in rw over refl
parse_tags-last zero mem finish p (tag ∷ tags) info here enough = absurd (omega (arith, enough))
parse_tags-last (suc fuel) mem finish p ((kind, size) ∷ tags) info (k, z, some_size, small, rest)
      enough =
    let behind = tags_le mem (p + padded size) tags finish rest in
    let going : ltb p finish ≡ true = go_on p size finish some_size small behind in
    rw (going, k, z)
      (parse_tags-last fuel mem finish (p + padded size) tags (take_tag kind p info) rest
          (omega (arith, enough))
        ∙ ap some (take_tag-last kind size p tags info))

-- The tags of a boot loader, whose sizes fill the size at the start: `ParseMultibootInfo` ends after as many rounds as
-- there are tags, and each pointer of its result is to the last tag of its type, and null if there
-- is none.
pub parse_multiboot_info-last :
    (fuel : ℕ) (mem : ℕ → ℕ) (mbi : ℕ) (tags : List (ℕ × ℕ))
    → load32 mem mbi < 2 ^ 31
    → TagsAt mem (mbi + 8) tags (mbi + load32 mem mbi)
    → length tags ≤ fuel
    → parse_multiboot_info fuel mem mbi
      ≡ some (record {
        boot_mem_map = last_tag mmap_type (mbi + 8) tags none;
        boot_vbe = last_tag vbe_type (mbi + 8) tags none;
        boot_framebuf = last_tag framebuffer_type (mbi + 8) tags none;
      })
unfolding parse_multiboot_info last_tags
parse_multiboot_info-last fuel mem mbi tags small here enough =
    let positive : ltb (load32 mem mbi) (2 ^ 31) ≡ true = ground arith in
    rw positive (parse_tags-last fuel mem (mbi + load32 mem mbi) (mbi + 8) tags no_info here enough)
