-- ===== src/Ipc/Heap/Alloc.antt =====
-- What `heap_alloc` of heap.c comes to.
use mathlib.Core.Path.{subst}
use zenedge.Common.{
  ℕ, ◌+◌, ◌*◌, ◌^◌, ◌<◌, ◌≤◌, ◌≡◌, ◌⊎◌, refl, sym, ◌∙◌, ap, true, false, Option, none, some, arith,
  inl, inr, not, ◌||◌, ◌==◌, if◌then◌else◌, u16, u32, sub32, Bool-cases, Option-cases, Memory,
  read16, read32, write16, write32, read32-write32, read32-write32_ne,
}
use zenedge.Bitmap.{IsBitmap, inside}
use zenedge.Ipc.Heap.{
  Heap, alloc, taken, take_run, find_free_blocks, blocks_for, write_header, heap_max_blocks,
  heap_block_size, ipc_heap_magic, blob_header, is_used,
}
use zenedge.Ipc.Heap.Table.{has_magic, has_id, type_at, size_at, offset_at}
use zenedge.Ipc.Heap.Find.{AreFree, find-some, find-none}
use zenedge.Ipc.Heap.Runs.{is_used-set_run}

module _ (m : Memory) (o id type size : ℕ) where
  after : Memory
  after = write_header o id type size m

  size-header : size < 2 ^ 32 → size_at after o ≡ size
  unfolding after write_header
  size-header lt =
      read32-write32_ne _ (o + 16) (o + 8) 0 (inr (omega arith))
      ∙ read32-write32_ne _ (o + 12) (o + 8) (u32 (o + blob_header)) (inr (omega arith))
      ∙ read32-write32 _ (o + 8) size lt

  magic-header : has_magic after o ≡ true
  unfolding after write_header write32 write16 read32
  magic-header = ground arith

  id-header : id < 2 ^ 16 → has_id id after o ≡ true
  unfolding after write_header write32 write16 read16
  id-header lt = ground arith

  type-header : type < 2 ^ 8 → type_at after o ≡ type
  unfolding after write_header write32 write16
  type-header lt = ground arith

  offset-header : offset_at after o ≡ u32 (o + blob_header)
  unfolding after write_header
  offset-header =
      read32-write32_ne _ (o + 16) (o + 12) 0 (inr (omega arith))
      ∙ read32-write32 _ (o + 12) (u32 (o + blob_header)) (omega arith)

-- What the memory holds at a blob that is handed out.
pub record IsHeader (m : Memory) (at blob_id kind bytes : ℕ) : Type 0 where
  pub magic : has_magic m at ≡ true
  pub id : has_id blob_id m at ≡ true
  pub type : type_at m at ≡ kind
  pub size : size_at m at ≡ bytes
  pub offset : offset_at m at ≡ at + blob_header

header :
    (m : Memory) (at blob_id kind bytes : ℕ)
    → blob_id < 2 ^ 16
    → kind < 2 ^ 8
    → bytes < 2 ^ 32
    → at + blob_header < 2 ^ 32
    → IsHeader (write_header at blob_id kind bytes m) at blob_id kind bytes
unfolding after
header m at blob_id kind bytes hi hk hb ha = record {
  magic = magic-header m at blob_id kind bytes;
  id = id-header m at blob_id kind bytes hi;
  type = type-header m at blob_id kind bytes hk;
  size = size-header m at blob_id kind bytes hb;
  offset = offset-header m at blob_id kind bytes ∙ omega arith;
}

-- What an allocation comes to.
pub data AllocOutcome (h : Heap) (size type : ℕ) (r : ℕ × Heap) : Type 0 where
  not_ready :
      (h.ready ≡ false) ⊎ ((h.magic == ipc_heap_magic) ≡ false)
      → r ≡ (0, h)
      → AllocOutcome h size type r
  no_room :
      ((s : ℕ)
        → s + blocks_for size ≤ heap_max_blocks
        → ¬ AreFree (is_used h.bitmap) s (blocks_for size))
      → r ≡ (0, h)
      → AllocOutcome h size type r
  blob :
      (start : ℕ) (g : Heap)
      → r ≡ (u16 h.next_blob_id, g)
      → size + blob_header ≤ blocks_for size * heap_block_size
      → start + blocks_for size ≤ heap_max_blocks
      → AreFree (is_used h.bitmap) start (blocks_for size)
      → ((j : ℕ)
          → is_used g.bitmap j
            ≡ (if inside j start (blocks_for size) then true else is_used h.bitmap j))
      → g.free_blocks ≡ sub32 h.free_blocks (blocks_for size)
      → IsHeader g.memory (start * heap_block_size) (u16 h.next_blob_id) type size
      → AllocOutcome h size type r

module _ (h : Heap) (size type : ℕ) (small : size + 95 < 2 ^ 32) where
  pub some_blocks : 0 < blocks_for size
  some_blocks = omega arith

  pub alloc_found :
      (o : Option ℕ)
      → h.ready ≡ true
      → (h.magic == ipc_heap_magic) ≡ true
      → find_free_blocks (blocks_for size) h.bitmap ≡ o
      → alloc size type h ≡ taken size type h o
  unfolding alloc
  alloc_found o r m e = go ∙ ap (taken size type h) e
    where
      go :
          (if not h.ready || not (h.magic == ipc_heap_magic)
            then (0, h)
            else taken size type h (find_free_blocks (blocks_for size) h.bitmap))
          ≡ taken size type h (find_free_blocks (blocks_for size) h.bitmap)
      go = rw (r, m) refl

  take_run-blob :
      (start : ℕ)
      → IsBitmap heap_max_blocks h.bitmap
      → type < 2 ^ 8
      → find_free_blocks (blocks_for size) h.bitmap ≡ some start
      → alloc size type h ≡ take_run size type start h
      → AllocOutcome h size type (alloc size type h)
  unfolding take_run
  take_run-blob start b t e a =
      let (free, le) =
        find-some (is_used h.bitmap) (blocks_for size) some_blocks heap_max_blocks start e in
      let o : u32 (start * heap_block_size) ≡ start * heap_block_size = omega arith in
      let id = u16 h.next_blob_id in
      let at = start * heap_block_size in
      let head : IsHeader (write_header at id type size h.memory) at id type size =
        header h.memory at id type size (omega arith) t (omega arith) (omega arith) in
      blob start (take_run size type start h).1 a (omega arith) le free
        (is_used-set_run (blocks_for size) start h.bitmap b) refl
        (subst (λ a. IsHeader (write_header a id type size h.memory) at id type size) (sym o) head)

  -- Allocating less than 2 ^ 32 - 95 bytes of a type of one byte, over a well-formed bitmap, fails and
  -- changes nothing only where the heap is not set up or no run of blocks is free that takes the bytes
  -- and a header. Otherwise it takes such a run: the blocks were free and are used afterwards, every
  -- other block is as it was, the count of free blocks goes down by theirs, and the header at their
  -- start reads back with the id that is returned.
  pub alloc-AllocOutcome :
      IsBitmap heap_max_blocks h.bitmap
      → type < 2 ^ 8
      → AllocOutcome h size type (alloc size type h)
  alloc-AllocOutcome b t = elim (Bool-cases h.ready) [
    | inr e ↦ not_ready (inl e) (unfold alloc in rw e refl)
    | inl r ↦ elim (Bool-cases (h.magic == ipc_heap_magic)) [
      | inr e ↦ not_ready (inr e) (unfold alloc in rw (r, e) refl)
      | inl m ↦ elim (Option-cases (find_free_blocks (blocks_for size) h.bitmap)) [
        | inl e ↦
            no_room (find-none (is_used h.bitmap) (blocks_for size) some_blocks heap_max_blocks e)
              (alloc_found none r m e)
        | inr (start, e) ↦ take_run-blob start b t e (alloc_found (some start) r m e)
      ]
    ]
  ]
