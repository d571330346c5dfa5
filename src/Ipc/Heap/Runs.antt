-- ===== src/Ipc/Heap/Runs.antt =====
-- Marking and clearing runs of blocks of heap.c.
use zenedge.Common.{
  ==_ne, ℕ, zero, suc, ◌+◌, ◌<◌, ◌≤◌, ◌≡◌, sym, ◌∙◌, ap, true, false, List, arith, if◌then◌else◌,
}
use zenedge.Bitmap.{
  IsBitmap, bitmap_set, bitmap_clear, test-set, test-clear, set-IsBitmap, clear-IsBitmap, clear_in,
  clear_in-set, clear_in-clear, clear_in-le, inside,
}
use zenedge.Ipc.Heap.{heap_max_blocks, is_used, set_run, clear_run}
use zenedge.Ipc.Heap.Find.{AreFree}

abbrev pub AreUsed : List ℕ → ℕ → ℕ → Type 0
AreUsed bm lo n = (j : ℕ) → lo ≤ j → j < lo + n → is_used bm j ≡ true

-- How many blocks are free.
unfoldable pub free_in : List ℕ → ℕ
free_in bm = clear_in (is_used bm) 0 heap_max_blocks

pub set_run-IsBitmap :
    (n start : ℕ) (bm : List ℕ)
    → IsBitmap heap_max_blocks bm
    → IsBitmap heap_max_blocks (set_run n start bm)
unfolding set_run
set_run-IsBitmap zero start bm h = h
set_run-IsBitmap (suc n) start bm h =
    set_run-IsBitmap n (start + 1) (bitmap_set heap_max_blocks bm start)
      (set-IsBitmap heap_max_blocks bm start h)

pub clear_run-IsBitmap :
    (n start : ℕ) (bm : List ℕ)
    → IsBitmap heap_max_blocks bm
    → IsBitmap heap_max_blocks (clear_run n start bm)
unfolding clear_run
clear_run-IsBitmap zero start bm h = h
clear_run-IsBitmap (suc n) start bm h =
    clear_run-IsBitmap n (start + 1) (bitmap_clear heap_max_blocks bm start)
      (clear-IsBitmap heap_max_blocks bm start h)

pub is_used-set_run :
    (n start : ℕ) (bm : List ℕ)
    → IsBitmap heap_max_blocks bm
    → (j : ℕ) → is_used (set_run n start bm) j ≡ (if inside j start n then true else is_used bm j)
unfolding set_run
is_used-set_run zero start bm h j = ground arith
is_used-set_run (suc n) start bm h j =
    is_used-set_run n (start + 1) (bitmap_set heap_max_blocks bm start)
      (set-IsBitmap heap_max_blocks bm start h) j
    ∙ ground (arith, test-set heap_max_blocks bm start j h)

pub is_used-clear_run :
    (n start : ℕ) (bm : List ℕ)
    → IsBitmap heap_max_blocks bm
    → start + n ≤ heap_max_blocks
    → (j : ℕ)
    → is_used (clear_run n start bm) j ≡ (if inside j start n then false else is_used bm j)
unfolding clear_run
is_used-clear_run zero start bm h le j = ground arith
is_used-clear_run (suc n) start bm h le j =
    is_used-clear_run n (start + 1) (bitmap_clear heap_max_blocks bm start)
      (clear-IsBitmap heap_max_blocks bm start h) (omega arith) j
    ∙ ground (arith, test-clear heap_max_blocks bm start j h)

module _ (bm : List ℕ) (i : ℕ) (h : IsBitmap heap_max_blocks bm) where
  one_less :
      (n : ℕ)
      → i < n
      → is_used bm i ≡ false
      → clear_in (is_used (bitmap_set heap_max_blocks bm i)) 0 n + 1 ≡ clear_in (is_used bm) 0 n
  one_less n lt e =
      let here : inside i 0 n ≡ true = ground arith in
      ap (λ b. clear_in (is_used (bitmap_set heap_max_blocks bm i)) 0 n + (if b then 1 else 0))
        (sym here)
      ∙ clear_in-set heap_max_blocks bm i 0 n h e

  one_more :
      (n : ℕ)
      → i < n
      → i < heap_max_blocks
      → is_used bm i ≡ true
      → clear_in (is_used (bitmap_clear heap_max_blocks bm i)) 0 n ≡ clear_in (is_used bm) 0 n + 1
  one_more n lt lt' e =
      let here : inside i 0 n ≡ true = ground arith in
      clear_in-clear heap_max_blocks bm i 0 n h e lt'
      ∙ ap (λ b. clear_in (is_used bm) 0 n + (if b then 1 else 0)) here

  free_in-set :
      i < heap_max_blocks
      → is_used bm i ≡ false
      → free_in (bitmap_set heap_max_blocks bm i) + 1 ≡ free_in bm
  unfolding free_in
  free_in-set lt e = one_less heap_max_blocks lt e

  free_in-clear :
      i < heap_max_blocks
      → is_used bm i ≡ true
      → free_in (bitmap_clear heap_max_blocks bm i) ≡ free_in bm + 1
  unfolding free_in
  free_in-clear lt e = one_more heap_max_blocks lt lt e

pub free_in-le : (bm : List ℕ) → free_in bm ≤ heap_max_blocks
unfolding free_in
free_in-le bm = clear_in-le (is_used bm) 0 heap_max_blocks

pub free_in-set_run :
    (n start : ℕ) (bm : List ℕ)
    → IsBitmap heap_max_blocks bm
    → start + n ≤ heap_max_blocks
    → AreFree (is_used bm) start n
    → free_in (set_run n start bm) + n ≡ free_in bm
unfolding set_run
free_in-set_run zero start bm h le free = omega arith
free_in-set_run (suc n) start bm h le free =
    let next = bitmap_set heap_max_blocks bm start in
    let still : AreFree (is_used next) (start + 1) n = λ j ge lt.
      test-set heap_max_blocks bm start j h
      ∙ rw (==_ne start j (λ e. absurd (omega arith))) (free j (omega arith) (omega arith)) in
    omega (
      arith,
      free_in-set bm start h (omega arith) (free start (omega arith) (omega arith)),
      free_in-set_run n (start + 1) next (set-IsBitmap heap_max_blocks bm start h) (omega arith)
          still,
    )

pub free_in-clear_run :
    (n start : ℕ) (bm : List ℕ)
    → IsBitmap heap_max_blocks bm
    → start + n ≤ heap_max_blocks
    → AreUsed bm start n
    → free_in (clear_run n start bm) ≡ free_in bm + n
unfolding clear_run
free_in-clear_run zero start bm h le used = omega arith
free_in-clear_run (suc n) start bm h le used =
    let next = bitmap_clear heap_max_blocks bm start in
    let still : AreUsed next (start + 1) n = λ j ge lt.
      test-clear heap_max_blocks bm start j h
      ∙ rw (==_ne start j (λ e. absurd (omega arith))) (used j (omega arith) (omega arith)) in
    omega (
      arith,
      free_in-clear bm start h (omega arith) (used start (omega arith) (omega arith)),
      free_in-clear_run n (start + 1) next (clear-IsBitmap heap_max_blocks bm start h) (omega arith)
          still,
    )
