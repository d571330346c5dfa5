-- ===== src/Ipc/Heap/Scan.antt =====
-- Whether the scan of `heap_get_blob` in heap.c ends.
use mathlib.Core.Path.{subst}
use zenedge.Common.{
  ltb→lt, ℕ, zero, suc, ◌+◌, ◌-◌, ◌*◌, ◌^◌, ◌<◌, ◌≤◌, ◌≡◌, ◌≢◌, refl, sym, ◌∙◌, ap, true, false,
  none, arith, inl, inr, ◌&&◌, ltb, u32, Bool-cases, Memory,
}
use zenedge.Ipc.Heap.{blocks_for, ipc_heap_data_size, heap_block_size}
use zenedge.Ipc.Heap.Table.{scan, stride, has_magic, has_id, size_at}

-- The headers that the scan may meet are of blobs that end below 2 ^ 32.
abbrev pub AreSane : Memory → Type 0
AreSane m =
    (o : ℕ)
    → o < ipc_heap_data_size
    → has_magic m o ≡ true
    → o + blocks_for (size_at m o) * heap_block_size < 2 ^ 32

stride_forward :
    (m : Memory) (o : ℕ) → AreSane m → o < ipc_heap_data_size → o + heap_block_size ≤ stride m o
stride_forward m o sane lt = elim (Bool-cases (has_magic m o)) [
  | inr e ↦ rw e (omega arith)
  | inl e ↦ elim (Bool-cases (ltb 1 (blocks_for (size_at m o)))) [
    | inr e' ↦ rw (e, e') (omega arith)
    | inl e' ↦ rw (e, e') (ahead (blocks_for (size_at m o)) (sane o lt e) e')
  ]
]
  where
    ahead :
        (b : ℕ)
        → o + b * heap_block_size < 2 ^ 32
        → ltb 1 b ≡ true
        → o + heap_block_size ≤ u32 (o + u32 ((b - 1) * heap_block_size) + heap_block_size)
    ahead b fits several = ground arith

scan_next :
    (n blob_id : ℕ) (m : Memory) (offset : ℕ)
    → ltb offset ipc_heap_data_size ≡ true
    → has_magic m offset && has_id blob_id m offset ≡ false
    → scan (suc n) blob_id m offset ≡ scan n blob_id m (stride m offset)
unfolding scan
scan_next n blob_id m offset e f = rw (e, f) refl

-- Where the headers are of blobs that end below 2 ^ 32, the scan from any offset on ends, with a round
-- for each block that is left and one more.
pub scan-ends :
    (n blob_id : ℕ) (m : Memory) (offset : ℕ)
    → AreSane m
    → ipc_heap_data_size + heap_block_size ≤ offset + n * heap_block_size
    → 0 < n
    → scan n blob_id m offset ≢ none
unfolding scan
scan-ends zero blob_id m offset sane le pos = absurd (omega arith)
scan-ends (suc n) blob_id m offset sane le pos = elim (Bool-cases (ltb offset ipc_heap_data_size)) [
  | inr e ↦ rw e (λ q. ground arith)
  | inl e ↦ elim (Bool-cases (has_magic m offset && has_id blob_id m offset)) [
    | inl f ↦ rw (e, f) (λ q. ground arith)
    | inr f ↦
        subst (λ r. r ≢ none) (sym (scan_next n blob_id m offset e f))
          (scan-ends n blob_id m (stride m offset) sane
            (omega (
              arith,
              stride_forward m offset sane (ltb→lt offset ipc_heap_data_size e),
              ltb→lt offset ipc_heap_data_size e,
            ))
            (omega (arith, ltb→lt offset ipc_heap_data_size e)))
  ]
]

module _ (m : Memory) (blob_id : ℕ) where
  back : size_at m 64 ≡ 2 ^ 32 - 96 → has_magic m 64 ≡ true → stride m 64 ≡ 0
  back s g = rw (g, s) refl

  -- A header at the second block, with no header at the first one, whose size of 2 ^ 32 - 96 leads the
  -- scan back to the start: a scan for another blob runs for ever.
  pub scan_stuck :
      has_magic m 0 ≡ false
      → has_magic m 64 ≡ true
      → has_id blob_id m 64 ≡ false
      → size_at m 64 ≡ 2 ^ 32 - 96
      → (n : ℕ) → scan n blob_id m 0 ≡ none
  scan_stuck none0 magic other size n = (both n).0
    where
      forward : stride m 0 ≡ 64
      forward = rw none0 refl

      both : (n : ℕ) → (scan n blob_id m 0 ≡ none) × (scan n blob_id m 64 ≡ none)
      both zero = (unfold scan in refl, unfold scan in refl)
      both (suc n) = (
        scan_next n blob_id m 0 refl (rw none0 refl) ∙ ap (scan n blob_id m) forward ∙ (both n).1,
        scan_next n blob_id m 64 refl (rw (magic, other) refl)
            ∙ ap (scan n blob_id m) (back size magic)
            ∙ (both n).0,
      )
