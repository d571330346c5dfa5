-- ===== src/Division/Unsigned.antt =====
-- Unsigned division in divdi3.c is division.
use Prim.Native.Nat.{bit_and}
use native.Mathlib.Nat.{div-add-mod'}
use zenedge.Common.{
  ℕ, zero, suc, ◌+◌, ◌-◌, ◌*◌, ◌/◌, ◌%◌, ◌^◌, ◌<◌, ◌≤◌, ◌≡◌, refl, sym, ◌∙◌, ap, arith, true, false,
  ◌==◌, ltb, if◌then◌else◌, u32, u64, sub32, sub64, inl, inr, Bool-cases, clash, ltb_false→le,
  shift, shift_pos, pow-shift, shift-div, bit_and-one_digit, bit_and-mask,
}
use zenedge.Division.{find_shift, is_fast, udivdi3, umoddi3, udivmoddi4}
use zenedge.Division.Long.{long_division_whole}

-- The shift of a number of one digit.
shift_one : (j : ℕ) → shift j 1 ≡ 1 → j ≡ 0
shift_one zero e = refl
shift_one (suc j) e = absurd (omega arith)

find_shift_lem : (n k s : ℕ) → s ≤ k → k < s + n → find_shift n (shift k 1) s ≡ k
unfolding find_shift
find_shift_lem zero k s le lt = absurd (omega arith)
find_shift_lem (suc n) k s le lt = elim (Bool-cases (shift k 1 / 2 ^ s == 1)) [
  | inl e ↦
      let one : shift k 1 / 2 ^ s ≡ 1 = ground arith in
      let there = shift_one (k - s) (sym (shift-div k s le) ∙ one) in rw e (omega arith)
  | inr e ↦ elim (Bool-cases (s == k)) [
    | inl q ↦
        let there : k - s ≡ 0 = ground arith in
        let one = shift-div k s le ∙ ap (λ j. shift j 1) there in
        absurd (clash (ap (λ x. x == 1) one) e)
    | inr q ↦ rw e (find_shift_lem n k (s + 1) (ground arith) (omega arith))
  ]
]

module _ (d : ℕ) (pos : 0 < d) (fast : is_fast d ≡ true) where
  is_small : d ≤ 0xFFFFFFFF
  is_small = ground arith

  -- A divisor on the fast path is a power of 2.
  digit : (k : ℕ) × (d ≡ shift k 1) × (k < 32)
  digit =
      let same : u32 d ≡ d = omega (arith, is_small) in
      let less : sub32 (u32 d) 1 ≡ d - 1 = omega (arith, is_small) in
      let none : bit_and (u32 d) (sub32 (u32 d) 1) ≡ 0 = ground arith in
      let (k, e) =
        bit_and-one_digit d pos
          (ap (λ x. bit_and x (d - 1)) (sym same) ∙ ap (bit_and (u32 d)) (sym less) ∙ none) in
      (
        k,
        e,
        elim (Bool-cases (ltb k 32)) [
          | inl lt ↦ ground arith
          | inr ge ↦ absurd (
              omega (arith, is_small, e, shift_pos (k - 32), shift-div k 32 (ltb_false→le k 32 ge)))
        ],
      )

  fast_quotient : (n : ℕ) → n / 2 ^ find_shift 32 (u32 d) 0 ≡ n / d
  fast_quotient n =
      let (k, e, lt) = digit in
      let same : u32 d ≡ shift k 1 = omega (arith, is_small, e) in
      let found : find_shift 32 (u32 d) 0 ≡ k =
        ap (λ x. find_shift 32 x 0) same ∙ find_shift_lem 32 k 0 (omega arith) (omega arith) in
      ap (λ s. n / 2 ^ s) found ∙ ap (λ x. n / x) (pow-shift k ∙ sym e)

  fast_remainder : (n : ℕ) → bit_and n (sub64 d 1) ≡ n % d
  fast_remainder n =
      let (k, e, lt) = digit in
      let less : sub64 d 1 ≡ shift k 1 - 1 = omega (arith, is_small, e) in
      ap (bit_and n) less ∙ bit_and-mask k n ∙ ap (λ x. n % x) (sym e)

-- Division of a number of 64 bits by another: 0 and 0 for a divisor of 0, and otherwise the quotient
-- and the remainder.
pub udivdi3-umoddi3 :
    (n d : ℕ)
    → n < 2 ^ 64
    → d < 2 ^ 64
    → (udivdi3 n d ≡ (if d == 0 then 0 else n / d)) × (umoddi3 n d ≡ (if d == 0 then 0 else n % d))
unfolding udivdi3 umoddi3
udivdi3-umoddi3 n d small small' = elim (Bool-cases (d == 0)) [
  | inl z ↦ (rw z refl, rw z refl)
  | inr z ↦
      let pos : 0 < d = ground arith in
      elim (Bool-cases (is_fast d)) [
        | inl f ↦ (rw (z, f) (fast_quotient d pos f n), rw (z, f) (fast_remainder d pos f n))
        | inr f ↦
            let e = long_division_whole n d pos small in
            (rw (z, f) (ap (λ p. p.0) e), rw (z, f) (ap (λ p. p.1) e))
      ]
]

-- The combined routine gives the quotient and the remainder of a division by a number above 0.
udivmoddi4_lem : (n d : ℕ) → n < 2 ^ 64 → d < 2 ^ 64 → 0 < d → udivmoddi4 n d ≡ (n / d, n % d)
unfolding udivmoddi4
udivmoddi4_lem n d small small' pos =
    let z : (d == 0) ≡ false = ground arith in
    let q : udivdi3 n d ≡ n / d = (udivdi3-umoddi3 n d small small').0 ∙ rw z refl in
    let r : sub64 n (u64 (udivdi3 n d * d)) ≡ n % d =
      ap (λ x. sub64 n (u64 (x * d))) q ∙ omega (arith, div-add-mod' n d) in
    λ i. (q i, r i)
