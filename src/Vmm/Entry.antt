-- ===== src/Vmm/Entry.antt =====
-- Entries of page tables of vmm.c: what they are made of, and reading back what is written.
use zenedge.Common.{
  ℕ, zero, suc, ◌+◌, ◌*◌, ◌/◌, ◌%◌, ◌^◌, ◌<◌, ◌≤◌, ◌≡◌, ◌≢◌, ◌⊎◌, refl, sym, ◌∙◌, ap, true, arith,
  inl, inr, ◌==◌, Bool-cases, Memory, read32-write32, read32-write32_ne, bit_or-shift, shift,
}
use Prim.Native.Nat.{bit_or}
use zenedge.Vmm.{make_pte, pte_addr, is_present, entry_at, set_entry, zero_entries}

-- What lies in the page of an entry, or its flags, are the low bits.
pub or_low : (a f : ℕ) → f < 4096 → bit_or (pte_addr a) f ≡ pte_addr a + f
or_low a f lt =
    ap (λ x. bit_or x f) page ∙ bit_or-shift 12 (a / 4096) f lt ∙ ap (λ x. x + f) (sym page)
  where
    page : pte_addr a ≡ shift 12 (a / 4096)
    page = omega arith

module _ (paddr flags : ℕ) (small : paddr < 2 ^ 32) (low : flags < 4096) where
  pub make_pte-lt : make_pte paddr flags < 2 ^ 32
  make_pte-lt = omega (arith, or_low paddr flags low)

  pub pte_addr-make_pte : pte_addr (make_pte paddr flags) ≡ pte_addr paddr
  pte_addr-make_pte = omega (arith, or_low paddr flags low)

  pub is_present-make_pte : flags % 2 ≡ 1 → is_present (make_pte paddr flags) ≡ true
  is_present-make_pte odd =
      let q : make_pte paddr flags / 1 % 2 ≡ 1 = omega (arith, or_low paddr flags low) in rw q refl

pub entry_at-set_entry :
    (m : Memory) (t i e : ℕ) → e < 2 ^ 32 → entry_at (set_entry t i e m) t i ≡ e
entry_at-set_entry m t i e lt = read32-write32 m (t + 4 * i) e lt

-- Tables are pages, so entries of two of them, or two entries of one, do not overlap.
pub entry_at-set_entry_ne :
    (m : Memory) (t s i j e : ℕ)
    → t % 4096 ≡ 0
    → s % 4096 ≡ 0
    → i < 1024
    → j < 1024
    → (t ≢ s) ⊎ (i ≢ j)
    → entry_at (set_entry t i e m) s j ≡ entry_at m s j
entry_at-set_entry_ne m t s i j e ht hs hi hj ne =
    read32-write32_ne m (t + 4 * i) (s + 4 * j) e (ground arith)

pub entry_at-zero_entries :
    (n i t s j : ℕ) (m : Memory)
    → t % 4096 ≡ 0
    → s % 4096 ≡ 0
    → i + n ≤ 1024
    → j < 1024
    → t ≢ s
    → entry_at (zero_entries n i t m) s j ≡ entry_at m s j
unfolding zero_entries
entry_at-zero_entries zero i t s j m ht hs le hj ne = refl
entry_at-zero_entries (suc n) i t s j m ht hs le hj ne =
    entry_at-zero_entries n (i + 1) t s j (set_entry t i 0 m) ht hs (omega arith) hj ne
    ∙ entry_at-set_entry_ne m t s i j 0 ht hs (omega arith) hj (inl ne)

-- An entry that is in the range reads as 0.
pub zero_entries-zero :
    (n i t j : ℕ) (m : Memory)
    → t % 4096 ≡ 0
    → i + n ≤ 1024
    → i ≤ j
    → j < i + n
    → entry_at (zero_entries n i t m) t j ≡ 0
unfolding zero_entries
zero_entries-zero zero i t j m ht le ge lt = absurd (omega arith)
zero_entries-zero (suc n) i t j m ht le ge lt = elim (Bool-cases (i == j)) [
  | inr e ↦
      zero_entries-zero n (i + 1) t j (set_entry t i 0 m) ht (omega arith) (ground arith)
        (omega arith)
  | inl e ↦
      let q : j ≡ i = ground arith in
      ap (entry_at (zero_entries n (i + 1) t (set_entry t i 0 m)) t) q
      ∙ below n (i + 1) (omega arith) (set_entry t i 0 m)
      ∙ entry_at-set_entry m t i 0 (omega arith)
]
  where
    below : (k l : ℕ) → i < l → (m : Memory) → entry_at (zero_entries k l t m) t i ≡ entry_at m t i
    below zero l lt m = refl
    below (suc k) l lt m =
        below k (l + 1) (omega arith) (set_entry t l 0 m)
        ∙ read32-write32_ne m (t + 4 * l) (t + 4 * i) 0 (inr (omega arith))
