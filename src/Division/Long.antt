-- ===== src/Division/Long.antt =====
-- The loop of divdi3.c over the bits of the dividend.
use Prim.Native.Nat.{bit_or}
use native.Mathlib.Nat.{
  add-mul, div-add-mod', mul_right_comm, add-mul-div_right, add-mul-mod_self_right, div-eq_of_lt,
  mod-eq_of_lt, mod-lt, pow-suc, div-div-eq-div-mul, div-le_self, mod-le, div-one, zero-mod,
  zero-div,
}
use zenedge.Common.{
  ℕ, zero, suc, ◌+◌, ◌-◌, ◌*◌, ◌/◌, ◌%◌, ◌^◌, ◌<◌, ◌≤◌, ◌≡◌, sym, ◌∙◌, ap, arith, leb, u64, inl,
  inr, Bool-cases, shift, shift_add, shift_double, shift_pos, pow-shift, bit_or-shift,
}
use zenedge.Division.{next_bit, long_division}

-- The remainder so far and one more bit.
abbrev with_bit : ℕ → ℕ → ℕ → ℕ
with_bit a b d = a % d * 2 + b

module _ (a b d : ℕ) (pos : 0 < d) where
  whole : a * 2 + b ≡ with_bit a b d + a / d * 2 * d
  whole = omega (arith, div-add-mod' a d, mul_right_comm (a / d) 2 d)

  step_small :
      with_bit a b d < d → ((a * 2 + b) / d ≡ a / d * 2) × ((a * 2 + b) % d ≡ with_bit a b d)
  step_small lt = (
    ap (λ x. x / d) whole
        ∙ add-mul-div_right (with_bit a b d) (a / d * 2) pos
        ∙ ap (λ x. x + a / d * 2) (div-eq_of_lt lt)
        ∙ omega arith,
    ap (λ x. x % d) whole ∙ add-mul-mod_self_right (with_bit a b d) (a / d * 2) d ∙ mod-eq_of_lt lt,
  )

  step_large :
      b < 2
      → d ≤ with_bit a b d
      → ((a * 2 + b) / d ≡ a / d * 2 + 1) × ((a * 2 + b) % d ≡ with_bit a b d - d)
  step_large bit le =
      let lt : with_bit a b d - d < d = omega (arith, mod-lt a pos) in
      let more : a * 2 + b ≡ (with_bit a b d - d) + (a / d * 2 + 1) * d =
        omega (arith, whole, add-mul (a / d * 2) 1 d) in
      (
        ap (λ x. x / d) more
            ∙ add-mul-div_right (with_bit a b d - d) (a / d * 2 + 1) pos
            ∙ ap (λ x. x + (a / d * 2 + 1)) (div-eq_of_lt lt)
            ∙ omega arith,
        ap (λ x. x % d) more
            ∙ add-mul-mod_self_right (with_bit a b d - d) (a / d * 2 + 1) d
            ∙ mod-eq_of_lt lt,
      )

abbrev high : ℕ → ℕ → ℕ
high n i = n / 2 ^ suc i

abbrev low_bit : ℕ → ℕ → ℕ
low_bit n i = n / 2 ^ i % 2

split : (n i : ℕ) → n / 2 ^ i ≡ high n i * 2 + low_bit n i
split n i =
    let half : n / 2 ^ suc i ≡ n / 2 ^ i / 2 =
      ap (λ x. n / x) (pow-suc 2 i) ∙ sym (div-div-eq-div-mul n (2 ^ i) 2) in
    omega (arith, half)

module _ (n d : ℕ) (pos : 0 < d) (small : n < 2 ^ 64) where
  next_bit_lem : (i r : ℕ) → r ≡ high n i % d → next_bit n i r ≡ with_bit (high n i) (low_bit n i) d
  next_bit_lem i r so_far =
      let le : r * 2 < 2 ^ 64 =
        omega (arith, split n i, so_far, mod-le (high n i) d, div-le_self n (2 ^ i)) in
      let exact : u64 (r * 2) ≡ r * 2 = omega arith in
      ap (λ x. bit_or x (low_bit n i)) exact
      ∙ bit_or-shift 1 r (low_bit n i) (omega arith)
      ∙ ap (λ x. x * 2 + low_bit n i) so_far

  -- The quotient with its bit `i` added.
  or_quotient : (i p : ℕ) → bit_or (shift (suc i) p) (2 ^ i) ≡ shift i (p * 2 + 1)
  or_quotient i p =
      bit_or-shift (suc i) p (2 ^ i) (omega (arith, pow-shift i, shift_pos i))
      ∙ omega (arith, pow-shift i, shift_add i (p * 2) 1, shift_double i p)

  long_division_lem :
      (i q r : ℕ)
      → r ≡ n / 2 ^ i % d
      → q ≡ shift i (n / 2 ^ i / d)
      → long_division i n d q r ≡ (n / d, n % d)
  unfolding long_division
  long_division_lem zero q r hr hq =
      let q' : q ≡ n / d = hq ∙ ap (λ x. x / d) (div-one n) in
      let r' : r ≡ n % d = hr ∙ ap (λ x. x % d) (div-one n) in λ j. (q' j, r' j)
  long_division_lem (suc i) q r hr hq =
      let b = next_bit_lem i r hr in
      let a = high n i in
      let bit = low_bit n i in
      elim (Bool-cases (leb d (next_bit n i r))) [
        | inl e ↦
            let le : d ≤ with_bit a bit d = ground arith in
            let (sq, sr) = step_large a bit d pos (omega arith) le in
            rw (e, long_division)
              (long_division_lem i (bit_or q (2 ^ i)) (next_bit n i r - d)
                (ap (λ x. x - d) b ∙ sym (ap (λ x. x % d) (split n i) ∙ sr))
                (ap (λ x. bit_or x (2 ^ i)) hq
                  ∙ or_quotient i (a / d)
                  ∙ ap (shift i) (sym (ap (λ x. x / d) (split n i) ∙ sq))))
        | inr e ↦
            let lt : with_bit a bit d < d = ground arith in
            let (sq, sr) = step_small a bit d pos lt in
            rw (e, long_division)
              (long_division_lem i q (next_bit n i r) (b ∙ sym (ap (λ x. x % d) (split n i) ∙ sr)) (
                hq
                ∙ sym (shift_double i (a / d))
                ∙ ap (shift i) (sym (ap (λ x. x / d) (split n i) ∙ sq))))
      ]

  pub long_division_whole : long_division 64 n d 0 0 ≡ (n / d, n % d)
  long_division_whole =
      let none : n / 2 ^ 64 ≡ 0 = omega arith in
      long_division_lem 64 0 0 (sym (ap (λ x. x % d) none ∙ zero-mod d))
        (sym (ap (λ x. shift 64 (x / d)) none ∙ ap (shift 64) (zero-div d)))
