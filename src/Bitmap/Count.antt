-- ===== src/Bitmap/Count.antt =====
-- How many bits of a range are clear, and what a write does to that number.
use zenedge.Common.{
  ℕ, zero, suc, ◌+◌, ◌<◌, ◌≤◌, ◌≡◌, ◌≢◌, ◌⊎◌, refl, sym, ◌∙◌, ==_ne, ==_refl, lt→ltb, Bool, true,
  false, List, arith, inl, inr, ltb, ◌==◌, if◌then◌else◌, Bool-cases, ◌&&◌, not,
}
use zenedge.Bitmap.Bits.{bitmap_test, bitmap_set, bitmap_clear}
use zenedge.Bitmap.Laws.{IsBitmap, test-set, test-clear}

-- The clear bits among the `n` from `lo` on.
abbrev pub clear_in : (ℕ → Bool) → ℕ → ℕ → ℕ
clear_in used lo zero = 0
clear_in used lo (suc n) = (if used lo then 0 else 1) + clear_in used (lo + 1) n

abbrev pub inside : ℕ → ℕ → ℕ → Bool
inside i lo n = not (ltb i lo) && ltb i (lo + n)

module _ (u v : ℕ → Bool) (i : ℕ) (same : (j : ℕ) → j ≢ i → u j ≡ v j) where
  clear_in-outside : (lo n : ℕ) → (i < lo) ⊎ (lo + n ≤ i) → clear_in u lo n ≡ clear_in v lo n
  clear_in-outside lo zero out = refl
  clear_in-outside lo (suc n) out = ground (arith, same lo, clear_in-outside (lo + 1) n)

  clear_in-inside :
      (lo n : ℕ)
      → lo ≤ i
      → i < lo + n
      → u i ≡ true
      → v i ≡ false
      → suc (clear_in u lo n) ≡ clear_in v lo n
  clear_in-inside lo zero le lt hu hv = absurd (omega arith)
  clear_in-inside lo (suc n) le lt hu hv = elim (Bool-cases (lo == i)) [
    | inl e ↦
        let q : lo ≡ i = ground arith in
        rw (q, hu, hv) (rw (clear_in-outside (i + 1) n (inl (omega arith))) (omega arith))
    | inr e ↦
        rw (same lo (ground arith))
          (omega (arith, clear_in-inside (lo + 1) n (ground arith) (omega arith) hu hv))
  ]

  -- Where only bit `i` differs, set in `u` and clear in `v`.
  clear_in-differ :
      (lo n : ℕ)
      → u i ≡ true
      → v i ≡ false
      → clear_in u lo n + (if inside i lo n then 1 else 0) ≡ clear_in v lo n
  clear_in-differ lo n hu hv = elim (Bool-cases (inside i lo n)) [
    | inl e ↦ rw e (omega (arith, clear_in-inside lo n (ground arith) (ground arith) hu hv))
    | inr e ↦ rw (e, clear_in-outside lo n (away e)) (omega arith)
  ]
    where
      away : inside i lo n ≡ false → (i < lo) ⊎ (lo + n ≤ i)
      away e = ground arith

module _ (max : ℕ) (bm : List ℕ) (i lo n : ℕ) (h : IsBitmap max bm) where
  -- Setting a clear bit takes one from the clear bits of each range that it lies in.
  pub clear_in-set :
      bitmap_test max bm i ≡ false
      → clear_in (bitmap_test max (bitmap_set max bm i)) lo n + (if inside i lo n then 1 else 0)
        ≡ clear_in (bitmap_test max bm) lo n
  clear_in-set e =
      clear_in-differ (bitmap_test max (bitmap_set max bm i)) (bitmap_test max bm) i
        (λ j ne. test-set max bm i j h ∙ rw (==_ne i j (λ q. ne (sym q)))) lo n
        (test-set max bm i i h ∙ rw (==_refl i)) e

  -- Clearing a set bit adds one to the clear bits of each range that it lies in.
  pub clear_in-clear :
      bitmap_test max bm i ≡ true
      → i < max
      → clear_in (bitmap_test max (bitmap_clear max bm i)) lo n
        ≡ clear_in (bitmap_test max bm) lo n + (if inside i lo n then 1 else 0)
  clear_in-clear e lt = sym (
      clear_in-differ (bitmap_test max bm) (bitmap_test max (bitmap_clear max bm i)) i
        (λ j ne. sym (test-clear max bm i j h ∙ rw (==_ne i j (λ q. ne (sym q))))) lo n e
        (test-clear max bm i i h ∙ rw (==_refl i, lt→ltb i max lt)))

pub clear_in-le : (used : ℕ → Bool) (lo n : ℕ) → clear_in used lo n ≤ n
clear_in-le used lo zero = omega arith
clear_in-le used lo (suc n) = ground (arith, clear_in-le used (lo + 1) n)
