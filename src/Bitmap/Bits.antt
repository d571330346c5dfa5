-- ===== src/Bitmap/Bits.antt =====
-- The bits of a byte, and of a list of bytes.
use Prim.Native.Nat.{bit_and, bit_or}
use zenedge.Common.{
  ℕ, zero, suc, ◌-◌, ◌/◌, ◌%◌, ◌^◌, ◌<◌, ◌≡◌, refl, Bool, true, false, List, arith, ◌&&◌, ltb, ◌==◌,
  if◌then◌else◌, get_or, set, u8,
}

-- `(b >> k) & 1`
abbrev pub bit : ℕ → ℕ → Bool
bit b k = b / 2 ^ k % 2 == 1

-- `b |= (1 << k)` and `b &= ~(1 << k)` on a byte: the operand is an int, and the result is cut to
-- eight bits.
abbrev pub or_bit : ℕ → ℕ → ℕ
or_bit b k = u8 (bit_or b (2 ^ k))

abbrev pub clear_bit : ℕ → ℕ → ℕ
clear_bit b k = u8 (bit_and b (2 ^ 32 - 1 - 2 ^ k))

unfoldable pub bitmap_test : ℕ → List ℕ → ℕ → Bool
bitmap_test max bm i = if ltb i max then bit (get_or bm (i / 8) 0) (i % 8) else true

unfoldable pub bitmap_set : ℕ → List ℕ → ℕ → List ℕ
bitmap_set max bm i =
    if ltb i max then set bm (i / 8) (or_bit (get_or bm (i / 8) 0) (i % 8)) else bm

unfoldable pub bitmap_clear : ℕ → List ℕ → ℕ → List ℕ
bitmap_clear max bm i =
    if ltb i max then set bm (i / 8) (clear_bit (get_or bm (i / 8) 0) (i % 8)) else bm

-- Facts about every byte are checked by evaluation, value by value.
every : ℕ → (ℕ → Bool) → Bool
every zero p = true
every (suc n) p = p n && every n p

every_sound : (n x : ℕ) (p : ℕ → Bool) → every n p ≡ true → x < n → p x ≡ true
unfolding every
every_sound zero x p h lt = elim lt [ ]
every_sound (suc n) x p h lt = ground (arith, every_sound n x p)

abbrev same : Bool → Bool → Bool
same true b = b
same false true = false
same false false = true

same_eq : (a b : Bool) → same a b ≡ true → a ≡ b
same_eq a b h = ground arith

abbrev or_row : ℕ → ℕ → ℕ → Bool
or_row b k j = same (bit (or_bit b k) j) (if k == j then true else bit b j)

abbrev clear_row : ℕ → ℕ → ℕ → Bool
clear_row b k j = same (bit (clear_bit b k) j) (if k == j then false else bit b j)

or_table : every 256 (λ b. every 8 (λ k. every 8 (λ j. or_row b k j))) ≡ true
unfolding every
or_table = refl

clear_table : every 256 (λ b. every 8 (λ k. every 8 (λ j. clear_row b k j))) ≡ true
unfolding every
clear_table = refl

-- Setting a bit of a byte sets that bit and no other.
pub bit-or_bit :
    (b k j : ℕ) → b < 256 → k < 8 → j < 8 → bit (or_bit b k) j ≡ (if k == j then true else bit b j)
bit-or_bit b k j hb hk hj = same_eq _ _ (
    every_sound 8 j (λ j. or_row b k j)
      (every_sound 8 k (λ k. every 8 (λ j. or_row b k j))
        (every_sound 256 b (λ b. every 8 (λ k. every 8 (λ j. or_row b k j))) or_table hb) hk)
      hj)

-- Clearing a bit of a byte clears that bit and no other.
pub bit-clear_bit :
    (b k j : ℕ)
    → b < 256
    → k < 8
    → j < 8
    → bit (clear_bit b k) j ≡ (if k == j then false else bit b j)
bit-clear_bit b k j hb hk hj = same_eq _ _ (
    every_sound 8 j (λ j. clear_row b k j)
      (every_sound 8 k (λ k. every 8 (λ j. clear_row b k j))
        (every_sound 256 b (λ b. every 8 (λ k. every 8 (λ j. clear_row b k j))) clear_table hb) hk)
      hj)

full_table : every 8 (λ k. bit 255 k) ≡ true
unfolding every
full_table = refl

-- Every bit of the byte 0xFF is set.
pub bit_full : (k : ℕ) → k < 8 → bit 255 k ≡ true
bit_full k lt = every_sound 8 k (λ k. bit 255 k) full_table lt
