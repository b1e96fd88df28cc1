-- ===== src/Boot/Examples.antt =====
-- A memory map and the end of the tags.
use chestnut.Base.{ℕ, ◌+◌, ◌^◌, ◌<◌, ◌≡◌, refl, none, some, List, [], ◌∷◌, ◌++◌, get_or, arith}
use chestnut.Acpi.{load32}
use chestnut.Acpi.Madt.{word}
use chestnut.Boot.{
  mmap_type, vbe_type, framebuffer_type, padded, parse_multiboot_info, TagsAt, last_tag,
  parse_multiboot_info-last,
}

abbrev tags : List (ℕ × ℕ)
tags = (6, 12) ∷ (0, 8) ∷ []

abbrev memory : ℕ → ℕ
memory a =
    get_or
      (word 32 ++ (word 0 ++ (word 6 ++ (word 12 ++ (word 24 ++ (word 0 ++ (word 0 ++ word 8)))))))
      a 0

memory-TagsAt : TagsAt memory (0 + 8) tags (0 + load32 memory 0)
unfolding load32 padded
memory-TagsAt = (refl, refl, omega arith, omega arith, (refl, refl, omega arith, omega arith, refl))

small : load32 memory 0 < 2 ^ 31
unfolding load32
small = omega arith

parse_multiboot_info-last_example :
    parse_multiboot_info 2 memory 0
    ≡ some (record {
      boot_mem_map = last_tag mmap_type (0 + 8) tags none;
      boot_vbe = last_tag vbe_type (0 + 8) tags none;
      boot_framebuf = last_tag framebuffer_type (0 + 8) tags none;
    })
parse_multiboot_info-last_example =
    parse_multiboot_info-last 2 memory 0 tags small memory-TagsAt (omega arith)
