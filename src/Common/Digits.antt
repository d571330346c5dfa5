-- ===== src/Common/Digits.antt =====
-- Or of numbers whose binary digits do not overlap is their sum.
use Prim.Native.Nat.{
  ℕ, zero, suc, ◌+◌, ◌*◌, ◌/◌, ◌%◌, ◌^◌, ◌-◌, ◌≤◌, ◌<◌, min, max, digits, bit_and, bit_or,
  bit_and-bitwise, bit_or-bitwise,
}
use mathlib.Core.Path.{◌≡◌, refl, sym, ap, ◌∙◌}
use mathlib.Core.Logic.{inl, inr}
use zenedge.Common.Tests.{◌==◌, Bool-cases}
use native.Mathlib.Omega.{arith}
use native.Mathlib.Nat.{
  pow-suc, pow-succ', div-div-eq-div-mul, div-one, mod-one, add-mul-mod_self_right, mod-eq_of_lt,
  mod-lt, div-add-mod', mul_assoc, zero-mod,
}

-- `p` shifted left by `k` digits.
abbrev pub shift : ℕ → ℕ → ℕ
shift zero p = p
shift (suc k) p = shift k p * 2

abbrev or_digits : ℕ → ℕ → ℕ → ℕ
or_digits n a b = digits (λ b. b) max n a b

or_none : (n b : ℕ) → or_digits n 0 b ≡ b
or_none zero b = refl
or_none (suc n) b = refl

or_step :
    (n a b : ℕ) → or_digits (suc n) a b ≡ or_digits n (a / 2) (b / 2) * 2 + max (a % 2) (b % 2)
or_step n zero b = rw (or_none n (b / 2)) (ground arith)
or_step n (suc a) b = refl

or_zero : (n a : ℕ) → a ≤ n → or_digits n a 0 ≡ a
or_zero zero zero le = refl
or_zero zero (suc a) le = absurd (omega arith)
or_zero (suc n) a le = or_step n a 0 ∙ rw (or_zero n (a / 2) (omega arith)) (ground arith)

or_shift : (k n p b : ℕ) → b < shift k 1 → shift k p ≤ n → or_digits n (shift k p) b ≡ shift k p + b
or_shift zero n p b lt le = let none : b ≡ 0 = omega arith in rw none (or_zero n p le ∙ omega arith)
or_shift (suc k) zero p b lt le = let none : shift k p ≡ 0 = omega arith in rw none (omega arith)
or_shift (suc k) (suc n) p b lt le =
    let half : shift k p * 2 / 2 ≡ shift k p = omega arith in
    let even : shift k p * 2 % 2 ≡ 0 = omega arith in
    or_step n (shift k p * 2) b
    ∙ rw (half, even, or_shift k n p (b / 2) (omega arith) (omega arith)) (ground arith)

pub bit_or-shift : (k p b : ℕ) → b < shift k 1 → bit_or (shift k p) b ≡ shift k p + b
bit_or-shift k p b lt =
    (λ i. bit_or-bitwise (shift k p) b i) ∙ or_shift k (shift k p) p b lt (omega arith)

abbrev and_digits : ℕ → ℕ → ℕ → ℕ
and_digits n a b = digits (λ b. zero) min n a b

pub shift_add : (k a b : ℕ) → shift k (a + b) ≡ shift k a + shift k b
shift_add zero a b = refl
shift_add (suc k) a b = omega (arith, shift_add k a b)

pub shift_double : (k a : ℕ) → shift k (a * 2) ≡ shift k a * 2
shift_double zero a = refl
shift_double (suc k) a = omega (arith, shift_double k a)

pub pow-shift : (k : ℕ) → 2 ^ k ≡ shift k 1
pow-shift zero = refl
pow-shift (suc k) = pow-suc 2 k ∙ omega (arith, pow-shift k)

pub shift_pos : (k : ℕ) → 0 < shift k 1
shift_pos zero = omega arith
shift_pos (suc k) = omega (arith, shift_pos k)

-- Shifting to the right undoes shifting to the left.
pub shift-div : (k s : ℕ) → s ≤ k → shift k 1 / 2 ^ s ≡ shift (k - s) 1
shift-div k zero le = div-one (shift k 1) ∙ ap (λ j. shift j 1) (omega arith)
shift-div zero (suc s) le = absurd (omega arith)
shift-div (suc k) (suc s) le =
    let half : shift k 1 * 2 / 2 ≡ shift k 1 = omega arith in
    ap (λ x. shift k 1 * 2 / x) (pow-succ' 2 s)
    ∙ sym (div-div-eq-div-mul (shift k 1 * 2) 2 (2 ^ s))
    ∙ ap (λ x. x / 2 ^ s) half
    ∙ shift-div k s (omega arith)
    ∙ ap (λ j. shift j 1) (omega arith)

and_step :
    (n a b : ℕ) → and_digits (suc n) a b ≡ and_digits n (a / 2) (b / 2) * 2 + min (a % 2) (b % 2)
and_step zero zero b = omega arith
and_step (suc n) zero b = omega arith
and_step n (suc a) b = refl

and_zero : (n b : ℕ) → and_digits n 0 b ≡ 0
and_zero zero b = refl
and_zero (suc n) b = refl

and_self : (n a : ℕ) → a ≤ n → and_digits n a a ≡ a
and_self zero zero le = refl
and_self zero (suc a) le = absurd (omega arith)
and_self (suc n) a le = and_step n a a ∙ omega (arith, and_self n (a / 2) (omega arith))

-- A number has one digit if it shares none with the number before it.
one_digit : (n d : ℕ) → d ≤ n → 0 < d → and_digits n d (d - 1) ≡ 0 → (k : ℕ) × (d ≡ shift k 1)
one_digit zero d le pos e = absurd (omega arith)
one_digit (suc n) d le pos e = elim (Bool-cases (d % 2 == 0)) [
  | inl even ↦
      let q : (d - 1) / 2 ≡ d / 2 - 1 = ground arith in
      let e' : and_digits n (d / 2) (d / 2 - 1) ≡ 0 =
        ap (and_digits n (d / 2)) (sym q) ∙ omega (arith, and_step n d (d - 1)) in
      let (k, p) = one_digit n (d / 2) (omega arith) (ground arith) e' in (suc k, ground arith)
  | inr odd ↦
      let q : (d - 1) / 2 ≡ d / 2 = ground arith in
      let e' : d / 2 ≡ 0 =
        sym (and_self n (d / 2) (omega arith))
        ∙ ap (and_digits n (d / 2)) (sym q)
        ∙ omega (arith, and_step n d (d - 1)) in
      (0, ground arith)
]

-- The remainder by twice a number.
mod_double : (n s : ℕ) → 0 < s → n % (s * 2) ≡ n / 2 % s * 2 + n % 2
mod_double n s pos =
    let x = n / 2 % s * 2 + n % 2 in
    let lt : n / 2 % s < s = mod-lt (n / 2) pos in
    let whole : n ≡ x + n / 2 / s * (s * 2) =
      omega (arith, div-add-mod' (n / 2) s, mul_assoc (n / 2 / s) s 2) in
    ap (λ y. y % (s * 2)) whole
    ∙ add-mul-mod_self_right x (n / 2 / s) (s * 2)
    ∙ mod-eq_of_lt (omega arith)

and_none : (n a : ℕ) → and_digits n a 0 ≡ 0
and_none zero a = refl
and_none (suc n) a = and_step n a 0 ∙ omega (arith, and_none n (a / 2))

and_mask : (k n a : ℕ) → a ≤ n → and_digits n a (shift k 1 - 1) ≡ a % shift k 1
and_mask k zero a le =
    let none : 0 ≡ a = omega arith in sym (zero-mod (shift k 1)) ∙ ap (λ y. y % shift k 1) none
and_mask zero (suc n) a le = and_none (suc n) a ∙ sym (mod-one a)
and_mask (suc k) (suc n) a le =
    let half : (shift k 1 * 2 - 1) / 2 ≡ shift k 1 - 1 = omega (arith, shift_pos k) in
    and_step n a (shift k 1 * 2 - 1)
    ∙ rw (half, and_mask k n (a / 2) (omega arith), mod_double a (shift k 1) (shift_pos k))
        (omega (arith, shift_pos k))

pub bit_and-one_digit : (d : ℕ) → 0 < d → bit_and d (d - 1) ≡ 0 → (k : ℕ) × (d ≡ shift k 1)
bit_and-one_digit d pos e =
    one_digit d d (omega arith) pos (sym (λ i. bit_and-bitwise d (d - 1) i) ∙ e)

pub bit_and-mask : (k a : ℕ) → bit_and a (shift k 1 - 1) ≡ a % shift k 1
bit_and-mask k a = (λ i. bit_and-bitwise a (shift k 1 - 1) i) ∙ and_mask k a a (omega arith)
