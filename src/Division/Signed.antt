-- ===== src/Division/Signed.antt =====
-- Signed division in divdi3.c rounds towards 0.
use native.Mathlib.Nat.{zero-div, zero-mod}
use zenedge.Common.{
  ℕ, ◌/◌, ◌%◌, ◌^◌, ◌<◌, ◌≡◌, refl, sym, ◌∙◌, ap, arith, Bool, true, false, ◌==◌, if◌then◌else◌,
  inl, inr, Bool-cases,
}
use zenedge.Division.{udivdi3, umoddi3, divdi3, moddi3, is_negative, negate, magnitude, differ}
use zenedge.Division.Unsigned.{udivdi3-umoddi3}

-- The number with a sign and a magnitude.
abbrev pub signed : Bool → ℕ → ℕ
signed s m = if s then negate m else m

signed_zero : (s : Bool) → signed s 0 ≡ 0
signed_zero true = refl
signed_zero false = refl

magnitude-signed : (s : Bool) (m : ℕ) → m < 2 ^ 63 → magnitude (signed s m) ≡ m
magnitude-signed true m lt = ground arith
magnitude-signed false m lt = ground arith

negative-signed : (s : Bool) (m : ℕ) → m < 2 ^ 63 → 0 < m → is_negative (signed s m) ≡ s
negative-signed true m lt pos = ground arith
negative-signed false m lt pos = ground arith

module _ (s t : Bool) (m k : ℕ) (lm : m < 2 ^ 63) (lk : k < 2 ^ 63) (pos : 0 < k) where
  quotient : udivdi3 (magnitude (signed s m)) (magnitude (signed t k)) ≡ m / k
  quotient =
      let z : (k == 0) ≡ false = ground arith in
      ap (λ x. udivdi3 x (magnitude (signed t k))) (magnitude-signed s m lm)
      ∙ ap (udivdi3 m) (magnitude-signed t k lk)
      ∙ (udivdi3-umoddi3 m k (omega arith) (omega arith)).0
      ∙ rw z refl

  remainder : umoddi3 (magnitude (signed s m)) (magnitude (signed t k)) ≡ m % k
  remainder =
      let z : (k == 0) ≡ false = ground arith in
      ap (λ x. umoddi3 x (magnitude (signed t k))) (magnitude-signed s m lm)
      ∙ ap (umoddi3 m) (magnitude-signed t k lk)
      ∙ (udivdi3-umoddi3 m k (omega arith) (omega arith)).1
      ∙ rw z refl

  -- Dividing numbers with a sign and a magnitude below 2 ^ 63, the divisor not 0: the quotient of the
  -- magnitudes, negative where the signs differ, and the remainder of the magnitudes with the sign of
  -- the dividend.
  pub divdi3-moddi3 :
      (divdi3 (signed s m) (signed t k) ≡ signed (differ s t) (m / k))
      × (moddi3 (signed s m) (signed t k) ≡ signed s (m % k))
  unfolding divdi3 moddi3
  divdi3-moddi3 = elim (Bool-cases (m == 0)) [
    | inl z ↦
        let none : m ≡ 0 = ground arith in
        let q : m / k ≡ 0 = ap (λ x. x / k) none ∙ zero-div k in
        let r : m % k ≡ 0 = ap (λ x. x % k) none ∙ zero-mod k in
        let a = differ (is_negative (signed s m)) (is_negative (signed t k)) in
        let b = is_negative (signed s m) in
        (
          ap (signed a) (quotient ∙ q)
              ∙ signed_zero a
              ∙ sym (ap (signed (differ s t)) q ∙ signed_zero (differ s t)),
          ap (signed b) (remainder ∙ r) ∙ signed_zero b ∙ sym (ap (signed s) r ∙ signed_zero s),
        )
    | inr z ↦
        let some : 0 < m = ground arith in
        (
          ap
                (λ x.
                  if differ (is_negative (signed s m)) (is_negative (signed t k))
                  then negate x
                  else x)
                quotient
              ∙ ap (λ b. if differ b (is_negative (signed t k)) then negate (m / k) else m / k)
                  (negative-signed s m lm some)
              ∙ ap (λ b. if differ s b then negate (m / k) else m / k) (negative-signed t k lk pos),
          ap (λ x. if is_negative (signed s m) then negate x else x) remainder
              ∙ ap (λ b. if b then negate (m % k) else m % k) (negative-signed s m lm some),
        )
  ]
