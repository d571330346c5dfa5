-- ===== src/Division.antt =====
-- kernel/lib/divdi3.c: division of 64-bit numbers on a machine of 32 bits, which the compiler calls.
-- An int64_t is its two's complement, a number below 2 ^ 64.
pub mod Long
pub mod Unsigned
pub mod Signed
pub mod Tests
use Prim.Native.Nat.{bit_and, bit_or}
use zenedge.Common.{
  ℕ, zero, suc, ◌+◌, ◌-◌, ◌*◌, ◌/◌, ◌%◌, ◌^◌, Bool, true, false, not, ◌&&◌, ◌==◌, ltb, leb,
  if◌then◌else◌, u32, u64, sub32, sub64,
}

-- `while ((d32 >> shift) != 1) shift++`, with the rounds that are left: a number of 32 bits above 0
-- takes 32 at most.
unfoldable pub find_shift : ℕ → ℕ → ℕ → ℕ
find_shift zero d32 shift = shift
find_shift (suc n) d32 shift =
    let rest = find_shift n d32 (shift + 1) in if d32 / 2 ^ shift == 1 then shift else rest

-- `d <= 0xFFFFFFFF` and `(d32 & (d32 - 1)) == 0`
abbrev pub is_fast : ℕ → Bool
is_fast d = leb d 0xFFFFFFFF && bit_and (u32 d) (sub32 (u32 d) 1) == 0

-- `(r << 1) | ((n >> i) & 1)`
abbrev pub next_bit : ℕ → ℕ → ℕ → ℕ
next_bit n i r = bit_or (u64 (r * 2)) (n / 2 ^ i % 2)

-- The loop from bit `i - 1` down to bit 0, with the quotient `q` and the remainder `r` so far.
unfoldable pub long_division : ℕ → ℕ → ℕ → ℕ → ℕ → ℕ × ℕ
long_division zero n d q r = (q, r)
long_division (suc i) n d q r = elim (leb d (next_bit n i r)) [
  | true ↦ long_division i n d (bit_or q (2 ^ i)) (next_bit n i r - d)
  | false ↦ long_division i n d q (next_bit n i r)
]

unfoldable pub udivdi3 : ℕ → ℕ → ℕ
udivdi3 n d =
    if d == 0
    then 0
    else if is_fast d
    then n / 2 ^ find_shift 32 (u32 d) 0
    else (long_division 64 n d 0 0).0

unfoldable pub umoddi3 : ℕ → ℕ → ℕ
umoddi3 n d =
    if d == 0 then 0 else if is_fast d then bit_and n (sub64 d 1) else (long_division 64 n d 0 0).1

-- The quotient, and the remainder that is stored if the caller asks for it.
unfoldable pub udivmoddi4 : ℕ → ℕ → ℕ × ℕ
udivmoddi4 n d = let q = udivdi3 n d in (q, sub64 n (u64 (q * d)))

abbrev pub is_negative : ℕ → Bool
is_negative n = leb (2 ^ 63) n

abbrev pub negate : ℕ → ℕ
negate n = sub64 0 n

abbrev pub magnitude : ℕ → ℕ
magnitude n = if is_negative n then negate n else n

abbrev pub differ : Bool → Bool → Bool
differ true b = not b
differ false b = b

unfoldable pub divdi3 : ℕ → ℕ → ℕ
divdi3 n d =
    let q = udivdi3 (magnitude n) (magnitude d) in
    if differ (is_negative n) (is_negative d) then negate q else q

unfoldable pub moddi3 : ℕ → ℕ → ℕ
moddi3 n d = let r = umoddi3 (magnitude n) (magnitude d) in if is_negative n then negate r else r
