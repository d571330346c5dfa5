-- ===== src/Strings/Tests.antt =====
-- The routines of string.c and strtoul of libc.c on small memories.
use zenedge.Common.{ℕ, ◌-◌, ◌^◌, ◌≡◌, refl, Option, none, some, Memory, read8, write8}
use zenedge.Strings.{copy_up, memcpy, memset, memmove, memcmp, strcmp, strlen, strcpy, strtoul}
use zenedge.Strings.Laws.{memmove-read8}

abbrev counting : Memory
counting = λ a. a

-- A move by one up, over its own source: the byte at 4 is the one that stood at 3.
memmove-read8_example : read8 (memmove 2 1 5 counting) 4 ≡ 3
memmove-read8_example = memmove-read8 2 1 5 counting 4

-- memcpy on the same ranges would have spread the first byte.
memcpy_overlap : read8 (memcpy 2 1 5 counting) 4 ≡ 1
unfolding copy_up
memcpy_overlap = refl

abbrev number : Memory
number = write8 10 49 (write8 11 102 (write8 12 71 (λ a. 0)))

memset_run : read8 (memset 5 300 2 counting) 6 ≡ 44
unfolding memset
memset_run = refl

-- "1fG" in base 16 is 31, and stops at the G.
strtoul_run : strtoul 5 10 16 0 number ≡ some (31, 12)
unfolding strtoul
strtoul_run = refl

strlen_run : strlen 5 10 number ≡ some 3
unfolding strlen
strlen_run = refl

strcmp_run : strcmp 5 10 11 number ≡ some (2 ^ 32 - 53)
unfolding strcmp
strcmp_run = refl

memcmp_run : memcmp 10 10 4 number ≡ 0
unfolding memcmp
memcmp_run = refl

abbrev copied : Option Memory → ℕ
copied none = 256
copied (some m) = read8 m 22

strcpy_run : copied (strcpy 5 20 10 number) ≡ 71
unfolding strcpy
strcpy_run = refl
