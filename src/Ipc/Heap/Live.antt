-- ===== src/Ipc/Heap/Live.antt =====
-- The blobs of heap.c that are alive: what their table says of the bitmap.
use zenedge.Common.{
  ℕ, zero, suc, ◌+◌, ◌/◌, ◌<◌, ◌≤◌, ◌≡◌, ◌≢◌, ◌⊎◌, refl, ap, List, [], ◌∷◌, ◌++◌, arith, inl, inr,
  ltb, Bool-cases, clash, length, get_or, take,
}
use zenedge.Bitmap.{IsBitmap}
use zenedge.Ipc.Heap.{Heap, BlobEntry, heap_max_blocks, heap_block_size, is_used}
use zenedge.Ipc.Heap.Table.{free}
use zenedge.Ipc.Heap.Find.{AreFree}
use zenedge.Ipc.Heap.Runs.{AreUsed, free_in}

abbrev pub no_entry : BlobEntry
no_entry = record { blob_id = 0; offset = 0; blocks = 0 }

abbrev pub entry : List BlobEntry → ℕ → BlobEntry
entry es i = get_or es i no_entry

-- The first block of an entry.
abbrev pub first : BlobEntry → ℕ
first e = e.offset / heap_block_size

abbrev pub AreApart : BlobEntry → BlobEntry → Type 0
AreApart d e = (first d + d.blocks ≤ first e) ⊎ (first e + e.blocks ≤ first d)

-- The blocks of an entry are there, at least one, and in use.
pub record IsBlob (bm : List ℕ) (e : BlobEntry) : Type 0 where
  pub some : 0 < e.blocks
  pub fits : first e + e.blocks ≤ heap_max_blocks
  pub used : AreUsed bm (first e) e.blocks

pub record IsHeap (h : Heap) : Type 0 where
  pub bitmap : IsBitmap heap_max_blocks h.bitmap
  pub counted : h.free_blocks ≡ free_in h.bitmap
  pub blobs : (i : ℕ) → i < length h.blob_table → IsBlob h.bitmap (entry h.blob_table i)
  pub apart :
      (i j : ℕ)
      → i < length h.blob_table
      → j < length h.blob_table
      → i ≢ j
      → AreApart (entry h.blob_table i) (entry h.blob_table j)

-- Blocks that are in use and blocks that are free do not meet.
pub used-apart-free :
    (bm : List ℕ) (a m b n : ℕ)
    → 0 < m
    → 0 < n
    → AreUsed bm a m
    → AreFree (is_used bm) b n
    → (a + m ≤ b) ⊎ (b + n ≤ a)
used-apart-free bm a m b n pm pn used free = elim (Bool-cases (ltb b (a + m))) [
  | inr e ↦ inl (ground arith)
  | inl e ↦ elim (Bool-cases (ltb a (b + n))) [
    | inr e' ↦ inr (ground arith)
    | inl e' ↦ elim (Bool-cases (ltb a b)) [
      | inl l ↦
          absurd (clash (used b (ground arith) (ground arith)) (free b (omega arith) (omega arith)))
      | inr l ↦
          absurd (clash (used a (omega arith) (omega arith)) (free a (ground arith) (ground arith)))
    ]
  ]
]

pub get_or-last : (es : List BlobEntry) (e : BlobEntry) → entry (es ++ (e ∷ [])) (length es) ≡ e
get_or-last [] e = refl
get_or-last (x ∷ es) e = get_or-last es e

pub get_or-append :
    (es : List BlobEntry) (e : BlobEntry) (i : ℕ)
    → i < length es
    → entry (es ++ (e ∷ [])) i ≡ entry es i
get_or-append [] e i lt = elim lt [ ]
get_or-append (x ∷ es) e zero lt = refl
get_or-append (x ∷ es) e (suc i) lt = get_or-append es e i (omega arith)

pub get_or-take : (n : ℕ) (es : List BlobEntry) (i : ℕ) → i < n → entry (take n es) i ≡ entry es i
get_or-take zero es i lt = elim lt [ ]
get_or-take (suc n) [] i lt = refl
get_or-take (suc n) (e ∷ es) zero lt = refl
get_or-take (suc n) (e ∷ es) (suc i) lt = get_or-take n es i (omega arith)

pub length-take : (n : ℕ) (es : List BlobEntry) → n ≤ length es → length (take n es) ≡ n
length-take zero es le = refl
length-take (suc n) [] le = absurd (omega arith)
length-take (suc n) (e ∷ es) le = ap suc (length-take n es (omega arith))

pub AreApart-sym : (d e : BlobEntry) → AreApart d e → AreApart e d
AreApart-sym d e (inl h) = inr h
AreApart-sym d e (inr h) = inl h
