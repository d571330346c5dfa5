-- ===== src/Ipc/Heap/Keep.antt =====
-- Tables of blobs of heap.c with one more or one less.
use mathlib.Core.Path.{subst}
use zenedge.Common.{
  ℕ, zero, suc, ◌+◌, ◌-◌, ◌<◌, ◌≤◌, ◌≡◌, ◌≢◌, ◌⊎◌, refl, sym, ◌∙◌, ap, true, List, [], ◌∷◌, ◌++◌,
  Option, none, some, arith, inl, inr, ◌==◌, if◌then◌else◌, Bool-cases, Option-cases, length,
  get_or, set, get_or-set_self, get_or-set_ne, length-set, length-append,
}
use zenedge.Ipc.Heap.{BlobEntry, is_used}
use zenedge.Ipc.Heap.Table.{find_entry, remove_at}
use zenedge.Ipc.Heap.Live.{
  no_entry, entry, first, AreApart, AreApart-sym, IsBlob, get_or-last, get_or-append, get_or-take,
  length-take,
}

-- A blob stays one where the bitmap still says that its blocks are in use.
pub move-IsBlob :
    (bm bm' : List ℕ) (e : BlobEntry)
    → ((j : ℕ) → first e ≤ j → j < first e + e.blocks → is_used bm j ≡ true → is_used bm' j ≡ true)
    → IsBlob bm e
    → IsBlob bm' e
move-IsBlob bm bm' e f h = record {
  some = h.some;
  fits = h.fits;
  used = λ j ge lt. f j ge lt (h.used j ge lt);
}

-- A table with one more blob, apart from the others.
-- The blobs of a table over a bitmap.
pub record AreBlobs (bm : List ℕ) (es : List BlobEntry) : Type 0 where
  pub blobs : (i : ℕ) → i < length es → IsBlob bm (entry es i)
  pub apart : (i j : ℕ) → i < length es → j < length es → i ≢ j → AreApart (entry es i) (entry es j)

module _ (bm : List ℕ) (es : List BlobEntry) (e : BlobEntry) (h : AreBlobs bm es)
    (blob : IsBlob bm e) (away : (i : ℕ) → i < length es → AreApart (entry es i) e) where
  -- An index of the longer table.
  place :
      (i : ℕ)
      → i < length (es ++ (e ∷ []))
      → ((i < length es) × (entry (es ++ (e ∷ [])) i ≡ entry es i))
        ⊎ ((i ≡ length es) × (entry (es ++ (e ∷ [])) i ≡ e))
  place i lt = elim (Bool-cases (i == length es)) [
    | inl q ↦
        let at : i ≡ length es = ground arith in
        inr (at, ap (entry (es ++ (e ∷ []))) at ∙ get_or-last es e)
    | inr q ↦
        let lt' : i < length es = ground (arith, length-append es (e ∷ [])) in
        inl (lt', get_or-append es e i lt')
  ]

  pub append-AreBlobs : AreBlobs bm (es ++ (e ∷ []))
  append-AreBlobs = record {
    blobs = λ i lt. elim (place i lt) [
      | inl q ↦ subst (IsBlob bm) (sym q.1) (h.blobs i q.0)
      | inr q ↦ subst (IsBlob bm) (sym q.1) blob
    ];
    apart = λ i j lt lt' ne. elim (place i lt) [
      | inl p ↦ elim (place j lt') [
        | inl q ↦
            subst (λ x. AreApart x (entry (es ++ (e ∷ [])) j)) (sym p.1)
              (subst (AreApart (entry es i)) (sym q.1) (h.apart i j p.0 q.0 ne))
        | inr q ↦
            subst (λ x. AreApart x (entry (es ++ (e ∷ [])) j)) (sym p.1)
              (subst (AreApart (entry es i)) (sym q.1) (away i p.0))
      ]
      | inr p ↦ elim (place j lt') [
        | inl q ↦
            subst (λ x. AreApart x (entry (es ++ (e ∷ [])) j)) (sym p.1)
              (subst (AreApart e) (sym q.1) (AreApart-sym (entry es j) e (away j q.0)))
        | inr q ↦ absurd (ne (p.0 ∙ sym q.0))
      ]
    ];
  }

get_or_default :
    (es : List BlobEntry) (i : ℕ) (d d' : BlobEntry)
    → i < length es
    → get_or es i d ≡ get_or es i d'
get_or_default [] i d d' lt = elim lt [ ]
get_or_default (x ∷ es) zero d d' lt = refl
get_or_default (x ∷ es) (suc i) d d' lt = get_or_default es i d d' (omega arith)

module _ (es : List BlobEntry) (i : ℕ) (e : BlobEntry) (lt : i < length es) where
  -- Where an entry of the shorter table comes from.
  source : ℕ → ℕ
  source k = if i == k then length es - 1 else k

  length-remove_at : length (remove_at i e es) + 1 ≡ length es
  unfolding remove_at
  length-remove_at =
      let same = length-set es i (get_or es (length es - 1) e) in
      let cut =
        length-take (length es - 1) (set es i (get_or es (length es - 1) e))
          (omega (arith, same)) in
      omega (arith, cut)

  entry-remove_at :
      (k : ℕ) → k < length (remove_at i e es) → entry (remove_at i e es) k ≡ entry es (source k)
  unfolding remove_at source
  entry-remove_at k lk =
      let last = get_or es (length es - 1) e in
      get_or-take (length es - 1) (set es i last) k (omega (arith, length-remove_at))
      ∙ elim (Bool-cases (i == k)) [
        | inl q ↦
            let at : k ≡ i = ground arith in
            rw q (
              ap (entry (set es i last)) at
              ∙ get_or-set_self es i last no_entry lt
              ∙ get_or_default es (length es - 1) e no_entry (omega arith))
        | inr q ↦ rw q (get_or-set_ne es i k last no_entry (ground arith))
      ]

  source-lt : (k : ℕ) → k < length (remove_at i e es) → source k < length es
  unfolding source
  source-lt k lk = ground (arith, length-remove_at)

  source_ne : (k : ℕ) → k < length (remove_at i e es) → i ≢ source k
  unfolding source
  source_ne k lk = ground (arith, length-remove_at)

  source_inj :
      (k l : ℕ)
      → k < length (remove_at i e es)
      → l < length (remove_at i e es)
      → k ≢ l
      → source k ≢ source l
  unfolding source
  source_inj k l lk ll ne = ground (arith, length-remove_at)

  pub remove-AreBlobs :
      (bm bm' : List ℕ)
      → entry es i ≡ e
      → ((d : BlobEntry) → AreApart e d → IsBlob bm d → IsBlob bm' d)
      → AreBlobs bm es
      → AreBlobs bm' (remove_at i e es)
  remove-AreBlobs bm bm' at move h = record {
    blobs = λ k lk. subst (IsBlob bm') (sym (entry-remove_at k lk)) (
        move (entry es (source k))
          (subst (λ x. AreApart x (entry es (source k))) at
            (h.apart i (source k) lt (source-lt k lk) (source_ne k lk)))
          (h.blobs (source k) (source-lt k lk)));
    apart = λ k l lk ll ne.
        subst (λ x. AreApart x (entry (remove_at i e es) l)) (sym (entry-remove_at k lk))
          (subst (AreApart (entry es (source k))) (sym (entry-remove_at l ll)) (
            h.apart (source k) (source l) (source-lt k lk) (source-lt l ll)
              (source_inj k l lk ll ne)));
  }

-- What the search for an id finds is in the table.
abbrev pub Found : List BlobEntry → Option (ℕ × BlobEntry) → Type 0
Found es none = Unit
Found es (some q) = (q.0 < length es) × (entry es q.0 ≡ q.1)

pub find_entry-Found : (id : ℕ) (es : List BlobEntry) → Found es (find_entry id es)
unfolding find_entry
find_entry-Found id [] = tt
find_entry-Found id (x ∷ es) = elim (Bool-cases (x.blob_id == id)) [
  | inl m ↦
      let q : find_entry id (x ∷ es) ≡ some (0, x) = rw (m, find_entry) refl in
      subst (Found (x ∷ es)) (sym q) (omega arith, refl)
  | inr m ↦ elim (Option-cases (find_entry id es)) [
    | inl n ↦
        let q : find_entry id (x ∷ es) ≡ none = rw (m, n, find_entry) refl in
        subst (Found (x ∷ es)) (sym q) tt
    | inr (r, n) ↦
        let q : find_entry id (x ∷ es) ≡ some (suc r.0, r.1) = rw (m, n, find_entry) refl in
        let (lt, at) : Found es (some r) = subst (Found es) n (find_entry-Found id es) in
        subst (Found (x ∷ es)) (sym q) (omega arith, at)
  ]
]
