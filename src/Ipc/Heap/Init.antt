-- ===== src/Ipc/Heap/Init.antt =====
-- The heap after `heap_init` of heap.c, and ids that wrap around.
use mathlib.Core.Path.{subst}
use native.Mathlib.Nat.{zero-div}
use zenedge.Common.{
  ℕ, zero, suc, ◌+◌, ◌*◌, ◌/◌, ◌%◌, ◌^◌, ◌<◌, ◌≤◌, ◌≡◌, refl, sym, ◌∙◌, ap, true, false, Bool, some,
  arith, ◌==◌, ltb, u16, All, get_or, replicate, length-replicate,
}
use zenedge.Bitmap.{IsBitmap, bitmap_test, clear_in}
use zenedge.Ipc.Heap.{
  Heap, init, alloc, take_run, find_free_blocks, blocks_for, heap_max_blocks, heap_bitmap_size,
  is_used, ipc_heap_magic,
}
use zenedge.Ipc.Heap.Find.{find-some}
use zenedge.Ipc.Heap.Runs.{free_in, free_in-set_run, free_in-le}
use zenedge.Ipc.Heap.Alloc.{alloc_found, some_blocks}
use zenedge.Ipc.Heap.Live.{IsHeap}

zero_bytes : (n : ℕ) → All (λ b. b < 256) (replicate n 0)
zero_bytes zero = tt
zero_bytes (suc n) = (omega arith, zero_bytes n)

get_or-replicate : (n i : ℕ) → get_or {A = ℕ} (replicate n 0) i 0 ≡ 0
get_or-replicate zero i = refl
get_or-replicate (suc n) zero = refl
get_or-replicate (suc n) (suc i) = get_or-replicate n i

clear_in-free :
    (used : ℕ → Bool) (lo n : ℕ) → ((j : ℕ) → j < lo + n → used j ≡ false) → clear_in used lo n ≡ n
clear_in-free used lo zero h = refl
clear_in-free used lo (suc n) h =
    rw (h lo (omega arith))
      (omega (arith, clear_in-free used (lo + 1) n (λ j lt. h j (omega arith))))

is_used_zero : (n j : ℕ) → j < heap_max_blocks → is_used (replicate {A = ℕ} n 0) j ≡ false
unfolding bitmap_test
is_used_zero n j lt =
    let q : ltb j heap_max_blocks ≡ true = ground arith in
    rw (q, get_or-replicate n (j / 8), zero-div (2 ^ (j % 8))) refl

zero_IsBitmap : (max n : ℕ) → max ≤ 8 * n → IsBitmap max (replicate n 0)
zero_IsBitmap max n le = record {
  room = omega (arith, length-replicate {A = ℕ} n 0);
  bytes = zero_bytes n;
}

free_in-zero : (n : ℕ) → free_in (replicate n 0) ≡ heap_max_blocks
unfolding free_in
free_in-zero n =
    clear_in-free (is_used (replicate n 0)) 0 heap_max_blocks (λ j lt. is_used_zero n j lt)

-- A heap that is set up is well formed: it has no blobs and every block is free.
pub init-IsHeap : (h : Heap) → IsHeap (init true h)
unfolding init
init-IsHeap h = record {
  bitmap = zero_IsBitmap heap_max_blocks heap_bitmap_size (omega arith);
  counted = sym (free_in-zero heap_bitmap_size);
  blobs = λ i lt. elim lt [ ];
  apart = λ i j lt lt' ne. elim lt [ ];
}

-- Where the next id is a multiple of 2 ^ 16, an allocation that finds room returns 0, which means that
-- it failed, but keeps its blocks.
pub alloc_zero :
    (h : Heap) (size type start : ℕ)
    → IsHeap h
    → h.ready ≡ true
    → h.magic ≡ ipc_heap_magic
    → size + 95 < 2 ^ 32
    → u16 h.next_blob_id ≡ 0
    → find_free_blocks (blocks_for size) h.bitmap ≡ some start
    → ((alloc size type h).0 ≡ 0) × ((alloc size type h).1.free_blocks < h.free_blocks)
unfolding take_run
alloc_zero h size type start ok ready magic small id found =
    let m : (h.magic == ipc_heap_magic) ≡ true = rw magic refl in
    let a = alloc_found h size type small (some start) ready m found in
    let (free, le) =
      find-some (is_used h.bitmap) (blocks_for size) (some_blocks h size type small) heap_max_blocks
        start found in
    (
      ap (λ r. r.0) a ∙ id,
      subst (λ (r : ℕ × Heap). r.1.free_blocks < h.free_blocks) (sym a)
          (omega (
            arith,
            ok.counted,
            some_blocks h size type small,
            free_in-set_run (blocks_for size) start h.bitmap ok.bitmap le free,
            free_in-le h.bitmap,
          )),
    )
