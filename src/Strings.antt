-- ===== src/Strings.antt =====
-- kernel/lib/string.c and the parser of numbers of libc.c, over memory as bytes by address. A loop that
-- stops at the end of a string takes fuel for its rounds, and `none` is one that is still running.
pub mod Laws
pub mod Tests
use zenedge.Common.{
  ℕ, zero, suc, ◌+◌, ◌-◌, ◌*◌, Bool, true, false, not, ◌&&◌, ◌||◌, Option, none, some, ◌==◌, ltb,
  leb, if◌then◌else◌, u32, sub32, Memory, read8, write8,
}

-- `while (n--) *d++ = *s++`
unfoldable pub copy_up : ℕ → ℕ → ℕ → Memory → Memory
copy_up zero d s m = m
copy_up (suc n) d s m = copy_up n (d + 1) (s + 1) (write8 d (read8 m s) m)

-- `while (n--) *--d = *--s`, from `n` bytes above `d` and `s` on.
unfoldable pub copy_down : ℕ → ℕ → ℕ → Memory → Memory
copy_down zero d s m = m
copy_down (suc n) d s m = copy_down n d s (write8 (d + n) (read8 m (s + n)) m)

abbrev pub memcpy : ℕ → ℕ → ℕ → Memory → Memory
memcpy dest src n m = copy_up n dest src m

unfoldable pub memset : ℕ → ℕ → ℕ → Memory → Memory
memset s c zero m = m
memset s c (suc n) m = memset (s + 1) c n (write8 s c m)

abbrev pub memmove : ℕ → ℕ → ℕ → Memory → Memory
memmove dest src n m = if ltb dest src then copy_up n dest src m else copy_down n dest src m

unfoldable pub strlen : ℕ → ℕ → Memory → Option ℕ
strlen zero s m = none
strlen (suc fuel) s m = elim (read8 m s == 0) [
  | true ↦ some 0
  | false ↦ elim (strlen fuel (s + 1) m) [ none ↦ none | some len ↦ some (suc len) ]
]

-- The difference of two bytes is an int of 32 bits.
unfoldable pub memcmp : ℕ → ℕ → ℕ → Memory → ℕ
memcmp s1 s2 zero m = 0
memcmp s1 s2 (suc n) m =
    let rest = memcmp (s1 + 1) (s2 + 1) n m in
    if not (read8 m s1 == read8 m s2) then sub32 (read8 m s1) (read8 m s2) else rest

unfoldable pub strcmp : ℕ → ℕ → ℕ → Memory → Option ℕ
strcmp zero s1 s2 m = none
strcmp (suc fuel) s1 s2 m =
    let rest = strcmp fuel (s1 + 1) (s2 + 1) m in
    if not (read8 m s1 == 0) && read8 m s1 == read8 m s2
    then rest
    else some (sub32 (read8 m s1) (read8 m s2))

unfoldable pub strcpy : ℕ → ℕ → ℕ → Memory → Option Memory
strcpy zero d s m = none
strcpy (suc fuel) d s m =
    let m1 = write8 d (read8 m s) m in
    let rest = strcpy fuel (d + 1) (s + 1) m1 in if read8 m s == 0 then some m1 else rest

-- The digit that a character is: 0 to 9, and letters from 10 on.
abbrev digit_of : ℕ → Option ℕ
digit_of c =
    if leb 48 c && leb c 57
    then some (c - 48)
    else if leb 97 c && leb c 122
    then some (c - 97 + 10)
    else if leb 65 c && leb c 90
    then some (c - 65 + 10)
    else none

-- The value and the address where the digits end.
unfoldable pub strtoul : ℕ → ℕ → ℕ → ℕ → Memory → Option (ℕ × ℕ)
strtoul zero p base result m = none
strtoul (suc fuel) p base result m = elim (digit_of (read8 m p)) [
  | none ↦ some (result, p)
  | some digit ↦ elim (leb base digit) [
    | true ↦ some (result, p)
    | false ↦ strtoul fuel (p + 1) base (u32 (u32 (result * base) + digit)) m
  ]
]
