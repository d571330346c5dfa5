-- ===== src/Ipc/Heap.antt =====
-- kernel/ipc/heap.c: blocks of 64 bytes of the shared memory, handed out as blobs with a header each,
-- named without heap_. Addresses are offsets from `heap_data`.
pub mod Table
pub mod Tensor
pub mod Find
pub mod Runs
pub mod Alloc
pub mod Live
pub mod Keep
pub mod Calls
pub mod Init
pub mod Scan
pub mod Tests
use zenedge.Common.{
  ℕ, zero, suc, ◌+◌, ◌-◌, ◌*◌, ◌/◌, ◌^◌, Bool, true, false, not, ◌&&◌, ◌||◌, List, [], ◌∷◌, ◌++◌,
  Option, none, some, ◌==◌, ltb, leb, if◌then◌else◌, u16, u32, sub32, length, replicate, Memory,
  write8, write16, write32,
}
use zenedge.Bitmap.{bitmap_test, bitmap_set, bitmap_clear}

abbrev pub ipc_heap_magic : ℕ
ipc_heap_magic = 0x48454150

abbrev pub ipc_heap_data_size : ℕ
ipc_heap_data_size = 0xED000

abbrev pub heap_block_size : ℕ
heap_block_size = 64

abbrev pub heap_max_blocks : ℕ
heap_max_blocks = ipc_heap_data_size / heap_block_size

abbrev pub heap_bitmap_size : ℕ
heap_bitmap_size = (heap_max_blocks + 7) / 8

abbrev pub max_blobs : ℕ
max_blobs = 256

abbrev pub blob_magic : ℕ
blob_magic = 0x424C4F42

-- sizeof(heap_blob_t)
abbrev pub blob_header : ℕ
blob_header = 32

pub record BlobEntry : Type 0 where
  pub blob_id : ℕ
  pub offset : ℕ
  pub blocks : ℕ

-- The control block, the data and the statics of heap.c. `blob_table` is the first `blob_count`
-- entries of the array, `ready` whether `heap_ctl` is set.
pub record Heap : Type 0 where
  pub ready : Bool
  pub magic : ℕ
  pub version : ℕ
  pub total_blocks : ℕ
  pub free_blocks : ℕ
  pub next_blob_id : ℕ
  pub bitmap : List ℕ
  pub memory : Memory
  pub blob_table : List BlobEntry

abbrev pub is_used : List ℕ → ℕ → Bool
is_used bm block = bitmap_test heap_max_blocks bm block

-- The loop of `find_free_blocks` at block `i`, with the rounds that are left.
unfoldable pub find_loop : (ℕ → Bool) → ℕ → ℕ → ℕ → ℕ → ℕ → Option ℕ
find_loop used count zero i start run = none
find_loop used count (suc n) i start run = elim (used i) [
  | true ↦ find_loop used count n (i + 1) start 0
  | false ↦
      let start' = if run == 0 then i else start in
      elim (leb count (run + 1)) [
        | true ↦ some start'
        | false ↦ find_loop used count n (i + 1) start' (run + 1)
      ]
]

-- `(uint32_t)-1`, not found, is none.
abbrev pub find_free_blocks : ℕ → List ℕ → Option ℕ
find_free_blocks count bm = find_loop (is_used bm) count heap_max_blocks 0 0 0

-- `base` is whether the address is not NULL.
unfoldable pub init : Bool → Heap → Heap
init base h =
    if base
    then record h {
      ready = true;
      magic = ipc_heap_magic;
      version = 1;
      total_blocks = heap_max_blocks;
      free_blocks = heap_max_blocks;
      next_blob_id = 1;
      bitmap = replicate heap_bitmap_size 0;
      blob_table = [];
    }
    else h

-- The blocks that `size` bytes and a header take.
abbrev pub blocks_for : ℕ → ℕ
blocks_for size = u32 (u32 (size + blob_header) + heap_block_size - 1) / heap_block_size

unfoldable pub set_run : ℕ → ℕ → List ℕ → List ℕ
set_run zero start bm = bm
set_run (suc n) start bm = set_run n (start + 1) (bitmap_set heap_max_blocks bm start)

unfoldable pub clear_run : ℕ → ℕ → List ℕ → List ℕ
clear_run zero start bm = bm
clear_run (suc n) start bm = clear_run n (start + 1) (bitmap_clear heap_max_blocks bm start)

-- `heap_ctl->next_blob_id++`, which does not stop at 0.
abbrev next_id : ℕ → ℕ
next_id id = if u32 (id + 1) == 0 then 1 else u32 (id + 1)

unfoldable pub write_header : ℕ → ℕ → ℕ → ℕ → Memory → Memory
write_header offset blob_id type size m = write32 (offset + 16) 0 (
    write32 (offset + 12) (u32 (offset + blob_header)) (
      write32 (offset + 8) size (
        write8 (offset + 7) 0
          (write8 (offset + 6) type (write16 (offset + 4) blob_id (write32 offset blob_magic m))))))

abbrev pub record_blob : BlobEntry → List BlobEntry → List BlobEntry
record_blob e table = if ltb (length table) max_blobs then table ++ (e ∷ []) else table

-- The rest of `heap_alloc` once the run at block `start` is found.
unfoldable pub take_run : ℕ → ℕ → ℕ → Heap → ℕ × Heap
take_run size type start h =
    let blocks = blocks_for size in
    let blob_id = u16 h.next_blob_id in
    let offset = u32 (start * heap_block_size) in
    (
      blob_id,
      record h {
        bitmap = set_run blocks start h.bitmap;
        free_blocks = sub32 h.free_blocks blocks;
        next_blob_id = next_id h.next_blob_id;
        blob_table =
            record_blob (record { blob_id = blob_id; offset = offset; blocks = blocks })
              h.blob_table;
        memory = write_header offset blob_id type size h.memory;
      },
    )

abbrev pub taken : ℕ → ℕ → Heap → Option ℕ → ℕ × Heap
taken size type h none = (0, h)
taken size type h (some start) = take_run size type start h

unfoldable pub alloc : ℕ → ℕ → Heap → ℕ × Heap
alloc size type h =
    if not h.ready || not (h.magic == ipc_heap_magic)
    then (0, h)
    else taken size type h (find_free_blocks (blocks_for size) h.bitmap)
