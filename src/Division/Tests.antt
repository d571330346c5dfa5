-- ===== src/Division/Tests.antt =====
-- Divisions of divdi3.c, on the fast path, by the loop, and with signs.
use zenedge.Common.{◌+◌, ◌-◌, ◌^◌, ◌≡◌, refl, true, false, arith}
use zenedge.Division.{udivdi3, umoddi3, divdi3, moddi3, long_division}
use zenedge.Division.Unsigned.{udivdi3-umoddi3}
use zenedge.Division.Signed.{divdi3-moddi3}

udivdi3-umoddi3_example : (udivdi3 (10 ^ 18) 1000 ≡ 10 ^ 15) × (umoddi3 (10 ^ 18) 1000 ≡ 0)
udivdi3-umoddi3_example = udivdi3-umoddi3 (10 ^ 18) 1000 (omega arith) (omega arith)

divdi3-moddi3_example : (divdi3 (2 ^ 64 - 7) 2 ≡ 2 ^ 64 - 3) × (moddi3 (2 ^ 64 - 7) 2 ≡ 2 ^ 64 - 1)
divdi3-moddi3_example = divdi3-moddi3 true false 7 2 (omega arith) (omega arith) (omega arith)

by_loop : udivdi3 (2 ^ 64 - 1) (2 ^ 63 + 1) ≡ 1
unfolding udivdi3 long_division
by_loop = refl
