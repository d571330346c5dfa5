-- ===== src/Ipc/Ring/Laws.antt =====
-- Indices of a ring.
use native.Mathlib.Nat.{mod-lt, mod-eq_of_lt, mod_self}
use zenedge.Common.{
  ℕ, suc, ◌+◌, ◌-◌, ◌%◌, ◌^◌, ◌<◌, ◌≡◌, ◌∙◌, ap, arith, true, false, ◌==◌, leb, if◌then◌else◌, u32,
  inl, inr, Bool-cases,
}
use zenedge.Ipc.Ring.{Ring, next, publish, advance, is_full, is_empty}

-- A ring whose header the two sides may use: both indices are inside.
pub record IsRing {ℓ} {A : Type ℓ} (r : Ring A) : Type 0 where
  pub small : r.size < 2 ^ 32
  pub head_in : r.head < r.size
  pub tail_in : r.tail < r.size

-- How many entries are between `tail` and `head`, as `ipc_dump_debug` computes it.
abbrev pub pending {ℓ} : {A : Type ℓ} → Ring A → ℕ
pending r = if leb r.tail r.head then r.head - r.tail else r.size - r.tail + r.head

module _ {ℓ} {A : Type ℓ} (r : Ring A) (h : IsRing r) where
  pub next_step : (i : ℕ) → i < r.size → next r i ≡ (if i + 1 == r.size then 0 else i + 1)
  next_step i lt = elim (Bool-cases (i + 1 == r.size)) [
    | inl e ↦
        let q : u32 (i + 1) ≡ r.size = ground (arith, h.small) in
        rw e (ap (λ x. x % r.size) q ∙ mod_self r.size)
    | inr e ↦
        let q : u32 (i + 1) ≡ i + 1 = omega (arith, h.small) in
        rw e (ap (λ x. x % r.size) q ∙ mod-eq_of_lt (ground arith))
  ]

  pub next-lt : (i : ℕ) → next r i < r.size
  next-lt i = mod-lt (u32 (i + 1)) (omega (arith, h.head_in))

  pub publish-IsRing : IsRing (publish r)
  publish-IsRing = record { small = h.small; head_in = next-lt r.head; tail_in = h.tail_in }

  pub advance-IsRing : IsRing (advance r)
  advance-IsRing = record { small = h.small; head_in = h.head_in; tail_in = next-lt r.tail }

  pub pending-lt : pending r < r.size
  pending-lt = ground (arith, h.head_in, h.tail_in)

  pub pending-publish : is_full r ≡ false → pending (publish r) ≡ suc (pending r)
  pending-publish e = ground (arith, h.head_in, h.tail_in, next_step r.head h.head_in)

  pub pending-advance : is_empty r ≡ false → pending r ≡ suc (pending (advance r))
  pending-advance e = ground (arith, h.head_in, h.tail_in, next_step r.tail h.tail_in)

  pub pending-full : is_full r ≡ true → pending r + 1 ≡ r.size
  pending-full e = ground (arith, h.head_in, h.tail_in, next_step r.head h.head_in)

  pub pending-room : is_full r ≡ false → pending r + 1 < r.size
  pending-room e = ground (arith, h.head_in, h.tail_in, next_step r.head h.head_in)

  pub pending-empty : is_empty r ≡ true → pending r ≡ 0
  pending-empty e = ground (arith, h.head_in, h.tail_in)
