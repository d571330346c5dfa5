-- ===== src/Ipc/Heap/Calls.antt =====
-- Allocating and freeing keep the blobs of heap.c apart and its counts true.
use mathlib.Core.Path.{subst}
use zenedge.Common.{
  ℕ, ◌+◌, ◌*◌, ◌^◌, ◌<◌, ◌≤◌, ◌≡◌, ◌⊎◌, refl, sym, ◌∙◌, true, List, [], ◌∷◌, Option, none, some,
  arith, not, ◌||◌, ◌==◌, ltb, if◌then◌else◌, u16, u32, length, if_keeps,
}
use zenedge.Bitmap.{inside}
use zenedge.Ipc.Heap.{
  Heap, BlobEntry, alloc, taken, take_run, find_free_blocks, blocks_for, record_blob,
  heap_max_blocks, heap_block_size, is_used, set_run, clear_run, max_blobs, ipc_heap_magic,
}
use zenedge.Ipc.Heap.Table.{find_entry, remove_at, give_back, free}
use zenedge.Ipc.Heap.Find.{AreFree, find-some}
use zenedge.Ipc.Heap.Runs.{
  free_in-le, set_run-IsBitmap, clear_run-IsBitmap, is_used-set_run, is_used-clear_run,
  free_in-set_run, free_in-clear_run,
}
use zenedge.Ipc.Heap.Alloc.{some_blocks}
use zenedge.Ipc.Heap.Live.{entry, first, AreApart, IsBlob, IsHeap, used-apart-free}
use zenedge.Ipc.Heap.Keep.{
  AreBlobs, Found, find_entry-Found, move-IsBlob, append-AreBlobs, remove-AreBlobs,
}

module _ (h : Heap) (ok : IsHeap h) where
  give_back-IsHeap : (o : Option (ℕ × BlobEntry)) → Found h.blob_table o → IsHeap (give_back h o)
  give_back-IsHeap none f = ok
  give_back-IsHeap (some (i, e)) f =
      let b : IsBlob h.bitmap e = subst (IsBlob h.bitmap) f.1 (ok.blobs i f.0) in
      let cleared = clear_run e.blocks (first e) h.bitmap in
      let kept : AreBlobs cleared (remove_at i e h.blob_table) =
        remove-AreBlobs h.blob_table i e f.0 h.bitmap cleared f.1
          (λ d away q.
            move-IsBlob h.bitmap cleared d
              (λ j ge lt u.
                is_used-clear_run e.blocks (first e) h.bitmap ok.bitmap b.fits j ∙ ground arith)
              q)
          (record { blobs = ok.blobs; apart = ok.apart }) in
      record {
        bitmap = clear_run-IsBitmap e.blocks (first e) h.bitmap ok.bitmap;
        counted = omega (
          arith,
          ok.counted,
          free_in-clear_run e.blocks (first e) h.bitmap ok.bitmap b.fits b.used,
          free_in-le cleared,
        );
        blobs = kept.blobs;
        apart = kept.apart;
      }

  pub free-IsHeap : (id : ℕ) → IsHeap (free id h)
  unfolding free
  free-IsHeap id =
      if_keeps IsHeap (not h.ready || id == 0) ok
        (give_back-IsHeap (find_entry id h.blob_table) (find_entry-Found id h.blob_table))

  record_blob-AreBlobs :
      (bm : List ℕ) (e : BlobEntry)
      → AreBlobs bm h.blob_table
      → IsBlob bm e
      → ((i : ℕ) → i < length h.blob_table → AreApart (entry h.blob_table i) e)
      → AreBlobs bm (record_blob e h.blob_table)
  record_blob-AreBlobs bm e q b away =
      if_keeps (AreBlobs bm) (ltb (length h.blob_table) max_blobs)
        (append-AreBlobs bm h.blob_table e q b away) q

  taken-IsHeap :
      (size type : ℕ)
      → size + 95 < 2 ^ 32
      → (start : ℕ) → AreFree (is_used h.bitmap) start (blocks_for size)
      → start + blocks_for size ≤ heap_max_blocks
      → IsHeap (take_run size type start h).1
  unfolding take_run
  taken-IsHeap size type small start free le =
      let n = blocks_for size in
      let marked = set_run n start h.bitmap in
      let e : BlobEntry = record {
        blob_id = u16 h.next_blob_id;
        offset = u32 (start * heap_block_size);
        blocks = n;
      } in
      let at : first e ≡ start = omega arith in
      let used : (j : ℕ)
          → is_used marked j ≡ (if inside j start n then true else is_used h.bitmap j) =
        is_used-set_run n start h.bitmap ok.bitmap in
      let b : IsBlob marked e = record {
        some = some_blocks h size type small;
        fits = omega arith;
        used = λ j ge lt. used j ∙ ground arith;
      } in
      let old : AreBlobs marked h.blob_table = record {
        blobs = λ i lt.
            move-IsBlob h.bitmap marked (entry h.blob_table i) (λ j ge l u. used j ∙ ground arith)
              (ok.blobs i lt);
        apart = ok.apart;
      } in
      let all = record_blob-AreBlobs marked e old b (λ i lt.
        let o = ok.blobs i lt in
        subst
          (λ a.
            (first (entry h.blob_table i) + (entry h.blob_table i).blocks ≤ a)
            ⊎ (a + n ≤ first (entry h.blob_table i)))
          (sym at)
          (used-apart-free h.bitmap (first (entry h.blob_table i)) (entry h.blob_table i).blocks
            start n o.some (some_blocks h size type small) o.used free)) in
      record {
        bitmap = set_run-IsBitmap n start h.bitmap ok.bitmap;
        counted = omega (
          arith,
          ok.counted,
          free_in-set_run n start h.bitmap ok.bitmap le free,
          free_in-le h.bitmap,
        );
        blobs = all.blobs;
        apart = all.apart;
      }

  taken-if :
      (size type : ℕ)
      → size + 95 < 2 ^ 32
      → (o : Option ℕ) → find_free_blocks (blocks_for size) h.bitmap ≡ o
      → IsHeap (taken size type h o).1
  taken-if size type small none e = ok
  taken-if size type small (some start) e =
      let (free, le) =
        find-some (is_used h.bitmap) (blocks_for size) (some_blocks h size type small)
          heap_max_blocks start e in
      taken-IsHeap size type small start free le

  pub alloc-IsHeap : (size type : ℕ) → size + 95 < 2 ^ 32 → IsHeap (alloc size type h).1
  unfolding alloc
  alloc-IsHeap size type small =
      if_keeps (λ (r : ℕ × Heap). IsHeap r.1) (not h.ready || not (h.magic == ipc_heap_magic)) ok
        (taken-if size type small (find_free_blocks (blocks_for size) h.bitmap) refl)

-- Allocating a size that leaves 32 bits room for the header and a block, and freeing.
pub data HeapCall : Type 0 where
  alloc_call : (size type : ℕ) → size + 95 < 2 ^ 32 → HeapCall
  free_call : (blob_id : ℕ) → HeapCall

unfoldable pub run_heap : List HeapCall → Heap → Heap
run_heap [] h = h
run_heap (alloc_call size type small ∷ cs) h = run_heap cs (alloc size type h).1
run_heap (free_call blob_id ∷ cs) h = run_heap cs (free blob_id h)

-- From a heap where it holds, and through frees and allocations in any order, of sizes less than
-- 2 ^ 32 - 95: the blobs of the table have their blocks inside the heap, marked used, and no two of
-- them share a block, and the count of free blocks is the number of bits that are clear.
pub run_heap-IsHeap : (cs : List HeapCall) (h : Heap) → IsHeap h → IsHeap (run_heap cs h)
unfolding run_heap
run_heap-IsHeap [] h ok = ok
run_heap-IsHeap (alloc_call size type small ∷ cs) h ok =
    run_heap-IsHeap cs (alloc size type h).1 (alloc-IsHeap h ok size type small)
run_heap-IsHeap (free_call blob_id ∷ cs) h ok =
    run_heap-IsHeap cs (free blob_id h) (free-IsHeap h ok blob_id)
