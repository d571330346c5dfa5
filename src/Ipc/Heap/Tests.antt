-- ===== src/Ipc/Heap/Tests.antt =====
-- Runs of heap.c on a heap that is set up, and the theorems at them.
use zenedge.Common.{
  ℕ, ◌+◌, ◌-◌, ◌^◌, ◌<◌, ◌≡◌, ◌≢◌, refl, true, false, arith, [], ◌∷◌, Option, none, some, Memory,
  read16, read32, write16, write32,
}
use zenedge.Bitmap.{bitmap_test, bitmap_set}
use zenedge.Ipc.Heap.{
  Heap, init, alloc, take_run, find_loop, find_free_blocks, blocks_for, set_run, write_header,
  blob_magic,
}
use zenedge.Ipc.Heap.Table.{get_blob, get_data, cached, scan}
use zenedge.Ipc.Heap.Tensor.{
  alloc_tensor, get_tensor_data, write_tensor, write_dims, zero_dims, elems, compute_checksum,
}
use zenedge.Ipc.Heap.Alloc.{AllocOutcome, alloc-AllocOutcome}
use zenedge.Ipc.Heap.Live.{IsHeap}
use zenedge.Ipc.Heap.Calls.{run_heap, alloc_call, free_call, run_heap-IsHeap}
use zenedge.Ipc.Heap.Init.{init-IsHeap, alloc_zero}
use zenedge.Ipc.Heap.Scan.{AreSane, scan-ends, scan_stuck}

abbrev blank : Heap
blank = record {
  ready = false;
  magic = 0;
  version = 0;
  total_blocks = 0;
  free_blocks = 0;
  next_blob_id = 0;
  bitmap = [];
  memory = λ a. 0;
  blob_table = [];
}

abbrev set_up : Heap
set_up = init true blank

set_up-IsHeap : IsHeap set_up
set_up-IsHeap = init-IsHeap blank

alloc-AllocOutcome_example : AllocOutcome set_up 100 0 (alloc 100 0 set_up)
alloc-AllocOutcome_example =
    alloc-AllocOutcome set_up 100 0 (omega arith) set_up-IsHeap.bitmap (omega arith)

run_heap-IsHeap_example : IsHeap (
    run_heap
      (alloc_call 100 0 (omega arith) ∷ alloc_call 7 0 (omega arith) ∷ free_call 1 ∷ [])
      set_up)
run_heap-IsHeap_example =
    run_heap-IsHeap
      (alloc_call 100 0 (omega arith) ∷ alloc_call 7 0 (omega arith) ∷ free_call 1 ∷ []) set_up
      set_up-IsHeap

-- Ids have come round after 65535 allocations.
abbrev old_heap : Heap
old_heap = record set_up { next_blob_id = 2 ^ 16 }

old_heap-IsHeap : IsHeap old_heap
old_heap-IsHeap = record {
  bitmap = set_up-IsHeap.bitmap;
  counted = set_up-IsHeap.counted;
  blobs = set_up-IsHeap.blobs;
  apart = set_up-IsHeap.apart;
}

found_at_0 : find_free_blocks (blocks_for 100) old_heap.bitmap ≡ some 0
unfolding init find_loop bitmap_test
found_at_0 = refl

alloc_zero_example :
    ((alloc 100 0 old_heap).0 ≡ 0) × ((alloc 100 0 old_heap).1.free_blocks < old_heap.free_blocks)
unfolding init
alloc_zero_example =
    alloc_zero old_heap 100 0 0 old_heap-IsHeap refl refl (omega arith) refl found_at_0

no_headers : AreSane (λ a. 0)
unfolding read32
no_headers o lt e = absurd (ground arith)

scan-ends_example : scan 15170 3 (λ a. 0) 0 ≢ none
scan-ends_example = scan-ends 15170 3 (λ a. 0) 0 no_headers (omega arith) (omega arith)

-- A header with the id 2, at the second block.
abbrev crooked : Memory
crooked = write32 64 blob_magic (write16 68 2 (write32 72 (2 ^ 32 - 96) (λ a. 0)))

scan_stuck_example : scan 1000 1 crooked 0 ≡ none
unfolding write32 write16 read32 read16
scan_stuck_example = scan_stuck crooked 1 refl refl refl refl 1000

abbrev heap_of : Option (ℕ × Heap) → Heap
heap_of none = blank
heap_of (some r) = r.1

abbrev address_of : Option (Option ℕ × Heap) → Option ℕ
address_of none = none
address_of (some r) = r.0

-- A tensor of two by three floats gets blob 1, and its 24 bytes come after the two headers.
tensor_run :
    address_of (get_tensor_data 1 1 (heap_of (alloc_tensor 1 0 2 (some (2 ∷ 3 ∷ [])) set_up)))
    ≡ some 68
unfolding init alloc take_run find_loop bitmap_test bitmap_set set_run write_header write16 write32
    read16 read32 cached get_blob get_data alloc_tensor get_tensor_data write_tensor write_dims
    zero_dims elems
tensor_run = refl

checksum_run : compute_checksum 3 (λ a. a + 1) 0 0 ≡ 3
unfolding compute_checksum
checksum_run = refl
