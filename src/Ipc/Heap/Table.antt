-- ===== src/Ipc/Heap/Table.antt =====
-- kernel/ipc/heap.c: the table of blobs, freeing and looking up.
use zenedge.Common.{
  ℕ, zero, suc, ◌+◌, ◌-◌, ◌*◌, ◌/◌, Bool, true, false, not, ◌&&◌, ◌||◌, List, [], ◌∷◌, Option, none,
  some, ◌==◌, ltb, if◌then◌else◌, u32, sub32, length, take, set, get_or, Memory, read8, read16,
  read32,
}
use zenedge.Ipc.Heap.{
  Heap, BlobEntry, clear_run, blocks_for, ipc_heap_magic, ipc_heap_data_size, heap_block_size,
  blob_magic, record_blob,
}

-- The first entry with an id, and its index.
unfoldable pub find_entry : ℕ → List BlobEntry → Option (ℕ × BlobEntry)
find_entry id [] = none
find_entry id (e ∷ es) = elim (e.blob_id == id) [
  | true ↦ some (0, e)
  | false ↦ elim (find_entry id es) [ none ↦ none | some q ↦ some (suc q.0, q.1) ]
]

-- `blob_table[i] = blob_table[blob_count - 1]; blob_count--`
unfoldable pub remove_at : ℕ → BlobEntry → List BlobEntry → List BlobEntry
remove_at i e es = take (length es - 1) (set es i (get_or es (length es - 1) e))

abbrev pub give_back : Heap → Option (ℕ × BlobEntry) → Heap
give_back h none = h
give_back h (some (i, e)) = record h {
  bitmap = clear_run e.blocks (e.offset / heap_block_size) h.bitmap;
  free_blocks = u32 (h.free_blocks + e.blocks);
  blob_table = remove_at i e h.blob_table;
}

unfoldable pub free : ℕ → Heap → Heap
free blob_id h =
    if not h.ready || blob_id == 0 then h else give_back h (find_entry blob_id h.blob_table)

-- What `blob->magic == BLOB_MAGIC` and `blob->blob_id == blob_id` read at an offset.
abbrev pub has_magic : Memory → ℕ → Bool
has_magic m offset = read32 m offset == blob_magic

abbrev pub has_id : ℕ → Memory → ℕ → Bool
has_id blob_id m offset = read16 m (offset + 4) == blob_id

-- The fields `type`, `size` and `offset` of the header at an offset.
abbrev pub type_at : Memory → ℕ → ℕ
type_at m offset = read8 m (offset + 6)

abbrev pub size_at : Memory → ℕ → ℕ
size_at m offset = read32 m (offset + 8)

abbrev pub offset_at : Memory → ℕ → ℕ
offset_at m offset = read32 m (offset + 12)

unfoldable pub cached : ℕ → Memory → List BlobEntry → Option ℕ
cached blob_id m [] = none
cached blob_id m (e ∷ es) =
    let rest = cached blob_id m es in
    if e.blob_id == blob_id && has_magic m e.offset && has_id blob_id m e.offset
    then some e.offset
    else rest

-- How far the scan goes from a block: the blob's blocks if a header is there.
abbrev pub stride : Memory → ℕ → ℕ
stride m offset =
    let blocks = blocks_for (size_at m offset) in
    if has_magic m offset && ltb 1 blocks
    then u32 (offset + u32 ((blocks - 1) * heap_block_size) + heap_block_size)
    else u32 (offset + heap_block_size)

-- The scan of the heap with fuel for its rounds: the first `none` is a scan that still runs, the second
-- one that has found nothing.
unfoldable pub scan : ℕ → ℕ → Memory → ℕ → Option (Option ℕ)
scan zero blob_id m offset = none
scan (suc n) blob_id m offset =
    let rest = scan n blob_id m (stride m offset) in
    if not (ltb offset ipc_heap_data_size)
    then some none
    else if has_magic m offset && has_id blob_id m offset
    then some (some offset)
    else rest

-- The blob that the scan found joins the table.
abbrev remember : ℕ → Heap → Option (Option ℕ) → Option (Option ℕ × Heap)
remember blob_id h none = none
remember blob_id h (some none) = some (none, h)
remember blob_id h (some (some offset)) =
    let blocks = blocks_for (size_at h.memory offset) in
    let e : BlobEntry = record { blob_id = blob_id; offset = offset; blocks = blocks } in
    some (some offset, record h { blob_table = record_blob e h.blob_table })

abbrev cached_or : ℕ → ℕ → Heap → Option ℕ → Option (Option ℕ × Heap)
cached_or fuel blob_id h none = remember blob_id h (scan fuel blob_id h.memory 0)
cached_or fuel blob_id h (some offset) = some (some offset, h)

-- The offset of a blob's header.
unfoldable pub get_blob : ℕ → ℕ → Heap → Option (Option ℕ × Heap)
get_blob fuel blob_id h =
    if not h.ready || blob_id == 0
    then some (none, h)
    else cached_or fuel blob_id h (cached blob_id h.memory h.blob_table)

-- A field of a blob, as `f` reads it, and `d` if there is no blob.
abbrev pub field_of {ℓ} :
    {A : Type ℓ} → (Memory → ℕ → A) → A → Option (Option ℕ × Heap) → Option (A × Heap)
field_of f d none = none
field_of f d (some (none, h)) = some (d, h)
field_of f d (some (some offset, h)) = some (f h.memory offset, h)

-- The offset of a blob's data.
unfoldable pub get_data : ℕ → ℕ → Heap → Option (Option ℕ × Heap)
get_data fuel blob_id h = field_of (λ m o. some (offset_at m o)) none (get_blob fuel blob_id h)

unfoldable get_blob_size : ℕ → ℕ → Heap → Option (ℕ × Heap)
get_blob_size fuel blob_id h = field_of size_at 0 (get_blob fuel blob_id h)

-- The physical address, through `vmm_virt_to_phys` and the address of `heap_data`.
unfoldable get_blob_phys : (ℕ → ℕ) → ℕ → ℕ → ℕ → Heap → Option (ℕ × Heap)
get_blob_phys virt_to_phys heap_data fuel blob_id h =
    field_of (λ m o. virt_to_phys (u32 (heap_data + offset_at m o))) 0 (get_blob fuel blob_id h)

pub record HeapStats : Type 0 where
  pub total_bytes : ℕ
  pub free_bytes : ℕ
  pub used_bytes : ℕ
  pub total_blocks : ℕ
  pub free_blocks : ℕ
  pub blob_count : ℕ

unfoldable pub get_stats : Heap → HeapStats
get_stats h =
    let total = u32 (h.total_blocks * heap_block_size) in
    let unused = u32 (h.free_blocks * heap_block_size) in
    if not h.ready || not (h.magic == ipc_heap_magic)
    then record {
      total_bytes = 0;
      free_bytes = 0;
      used_bytes = 0;
      total_blocks = 0;
      free_blocks = 0;
      blob_count = 0;
    }
    else record {
      total_bytes = total;
      free_bytes = unused;
      used_bytes = sub32 total unused;
      total_blocks = h.total_blocks;
      free_blocks = h.free_blocks;
      blob_count = length h.blob_table;
    }
