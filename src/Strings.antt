-- ===== src/Strings.antt =====
-- kern/libc/string.c, kern/libc/ctype.h: the functions on strings that end with a zero byte. The loops have fuel, and
-- `none` says that it is used up.
pub mod Laws
pub mod Bounded
pub mod Joined
mod Examples
use chestnut.Base.{
  ℕ, zero, suc, ◌+◌, Bool, true, false, ◌&&◌, ◌||◌, not, Option, none, some, leb, ltb, ◌==◌,
  if◌then◌else◌, store,
}
use chestnut.Bytes.{Memory}

unfoldable pub strlen : ℕ → ℕ → Memory → Option ℕ
strlen zero s m = none
strlen (suc fuel) s m =
    let rest = strlen fuel (s + 1) m in
    if m s == 0 then some 0 else elim rest [ none ↦ none | some len ↦ some (len + 1) ]

-- The bytes whose difference `strcmp` returns.
unfoldable pub strcmp : ℕ → ℕ → ℕ → Memory → Option (ℕ × ℕ)
strcmp zero s1 s2 m = none
strcmp (suc fuel) s1 s2 m =
    let rest = strcmp fuel (s1 + 1) (s2 + 1) m in
    if (m s1 == m s2) && not (m s1 == 0) then rest else some (m s1, m s2)

unfoldable pub strcpy : ℕ → ℕ → ℕ → Memory → Option Memory
strcpy zero dst src m = none
strcpy (suc fuel) dst src m =
    let rest = strcpy fuel (dst + 1) (src + 1) (store m dst (m src)) in
    if m src == 0 then some (store m dst 0) else rest

-- The pointer that `strchr` returns, where the inner `none` is NULL.
unfoldable pub strchr : ℕ → ℕ → ℕ → Memory → Option (Option ℕ)
strchr zero s ch m = none
strchr (suc fuel) s ch m =
    let rest = strchr fuel (s + 1) ch m in
    if m s == 0 then some none else if m s == ch then some (some s) else rest

-- The bytes whose difference `memcmp` returns, or twice 0.
unfoldable pub memcmp : ℕ → ℕ → ℕ → Memory → ℕ × ℕ
memcmp zero b1 b2 m = (0, 0)
memcmp (suc len) b1 b2 m =
    let rest = memcmp len (b1 + 1) (b2 + 1) m in if m b1 == m b2 then rest else (m b1, m b2)

unfoldable pub strncmp : ℕ → ℕ → ℕ → Memory → ℕ × ℕ
strncmp zero s1 s2 m = (0, 0)
strncmp (suc len) s1 s2 m =
    let rest = strncmp len (s1 + 1) (s2 + 1) m in
    if (m s1 == m s2) && not (m s1 == 0) then rest else (m s1, m s2)

-- The first loop of `strcat`: the end of the string.
unfoldable pub seek_end : ℕ → ℕ → Memory → Option ℕ
seek_end zero dst m = none
seek_end (suc fuel) dst m =
    let rest = seek_end fuel (dst + 1) m in if m dst == 0 then some dst else rest

unfoldable pub strcat : ℕ → ℕ → ℕ → Memory → Option Memory
strcat fuel dst src m = elim (seek_end fuel dst m) [
  | none ↦ none
  | some end ↦ strcpy fuel end src m
]

-- kern/libc/ctype.h, of a `char` from 0 to 127; `\12` is the newline once more.
unfoldable pub isupper : ℕ → Bool
isupper c = leb 65 c && leb c 90

unfoldable pub isalpha : ℕ → Bool
isalpha c = (leb 65 c && leb c 90) || (leb 97 c && leb c 122)

unfoldable pub isspace : ℕ → Bool
isspace c = (c == 32) || ((c == 9) || ((c == 10) || (c == 10)))

unfoldable pub isdigit : ℕ → Bool
isdigit c = leb 48 c && leb c 57

unfoldable pub isascii : ℕ → Bool
isascii c = leb 0 c && ltb c 128
