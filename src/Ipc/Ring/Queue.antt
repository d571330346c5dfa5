-- ===== src/Ipc/Ring/Queue.antt =====
-- The entries between `tail` and `head`, oldest first: a bounded queue.
use zenedge.Common.{
  ℕ, suc, zero, ◌+◌, ◌-◌, ◌<◌, ◌≡◌, refl, ◌∙◌, ap, arith, true, false, List, [], ◌∷◌, ◌++◌, ◌==◌,
  leb, if◌then◌else◌, ==_refl, length,
}
use zenedge.Ipc.Ring.{Ring, next, publish, write_entry, push, front, advance, is_full, is_empty}
use zenedge.Ipc.Ring.Laws.{
  IsRing, pending, next_step, next-lt, pending-lt, pending-publish, pending-advance, pending-empty,
}

module _ {ℓ} {A : Type ℓ} where
  -- `n` entries from index `i` on.
  unfoldable pub run : Ring A → ℕ → ℕ → List A
  run r zero i = []
  run r (suc n) i = r.entries i ∷ run r n (next r i)

  abbrev pub queue : Ring A → List A
  queue r = run r (pending r) r.tail

  pub length-run : (r : Ring A) (n i : ℕ) → length (run r n i) ≡ n
  unfolding run
  length-run r zero i = refl
  length-run r (suc n) i = ap suc (length-run r n (next r i))

  -- Where the head is, seen from index `i`.
  abbrev ahead : Ring A → ℕ → ℕ
  ahead r i = if leb i r.head then r.head - i else r.size - i + r.head

  run-publish :
      (r : Ring A) (n i : ℕ)
      → IsRing r
      → i < r.size
      → n ≡ ahead r i
      → run (publish r) (suc n) i ≡ run r n i ++ (r.entries r.head ∷ [])
  unfolding run
  run-publish r zero i h lt e = let q : i ≡ r.head = ground (arith, h.head_in) in rw q refl
  run-publish r (suc n) i h lt e =
      ap (λ xs. r.entries i ∷ xs)
        (run-publish r n (next r i) h (next-lt r h i)
          (ground (arith, h.head_in, next_step r h i lt)))

  run-write :
      (r : Ring A) (a : A) (n i : ℕ)
      → IsRing r
      → i < r.size
      → n ≡ ahead r i
      → run (write_entry a r) n i ≡ run r n i
  unfolding run
  run-write r a zero i h lt e = refl
  run-write r a (suc n) i h lt e =
      let away : (r.head == i) ≡ false = ground (arith, h.head_in) in
      rw
        (
          away,
          run-write r a n (next r i) h (next-lt r h i)
              (ground (arith, h.head_in, next_step r h i lt)),
        )
        refl

  module _ (r : Ring A) (h : IsRing r) where
    pub length-queue : length (queue r) < r.size
    length-queue = rw (length-run r (pending r) r.tail) (pending-lt r h)

    pub queue-write_entry : (a : A) → queue (write_entry a r) ≡ queue r
    queue-write_entry a = run-write r a (pending r) r.tail h h.tail_in refl

    pub queue-publish : is_full r ≡ false → queue (publish r) ≡ queue r ++ (r.entries r.head ∷ [])
    queue-publish e =
        ap (λ n. run (publish r) n r.tail) (pending-publish r h e)
        ∙ run-publish r (pending r) r.tail h h.tail_in refl

    pub queue-advance : is_empty r ≡ false → queue r ≡ front r ∷ queue (advance r)
    unfolding run
    queue-advance e = ap (λ n. run r n r.tail) (pending-advance r h e) ∙ refl

  -- A push onto a ring that is not full adds the entry at the end of the queue.
  pub queue-push :
      (r : Ring A) (a : A) → IsRing r → is_full r ≡ false → queue (push a r) ≡ queue r ++ (a ∷ [])
  queue-push r a h e =
      let w = write_entry a r in
      let same : IsRing w = record { small = h.small; head_in = h.head_in; tail_in = h.tail_in } in
      let here : w.entries w.head ≡ a = rw (==_refl r.head) refl in
      queue-publish w same e ∙ rw (here, queue-write_entry r h a) refl

  pub queue-empty : (r : Ring A) → IsRing r → is_empty r ≡ true → queue r ≡ []
  unfolding run
  queue-empty r h e = ap (λ n. run r n r.tail) (pending-empty r h e)
