-- ===== src/Ipc/Heap/Find.antt =====
-- `find_free_blocks` of heap.c finds a run of free blocks, if there is one.
use zenedge.Common.{
  ℕ, zero, suc, ◌+◌, ◌-◌, ◌<◌, ◌≤◌, ◌≡◌, ◌⊎◌, refl, sym, ◌∙◌, ap, true, false, Bool, none, some,
  arith, inl, inr, ◌==◌, leb, if◌then◌else◌, Bool-cases, clash,
}
use zenedge.Ipc.Heap.{find_loop}

-- Every block of a range is free.
abbrev pub AreFree : (ℕ → Bool) → ℕ → ℕ → Type 0
AreFree used lo n = (j : ℕ) → lo ≤ j → j < lo + n → used j ≡ false

module _ (used : ℕ → Bool) (count : ℕ) (some_blocks : 0 < count) where
  -- The run that ends before block `i`.
  record InRun (i start run : ℕ) : Type 0 where
    short : run < count
    inside : run ≤ i
    free : AreFree used (i - run) run
    here : (run ≡ 0) ⊎ (start + run ≡ i)
    maximal : (run ≡ i) ⊎ (used (i - run - 1) ≡ true)
    none_yet : (s : ℕ) → s + count ≤ i → ¬ AreFree used s count

  start_of : ℕ → ℕ → ℕ → ℕ
  start_of i start run = if run == 0 then i else start

  after_used : (i start run : ℕ) → used i ≡ true → InRun i start run → InRun (i + 1) start 0
  after_used i start run u h = record {
    short = some_blocks;
    inside = omega arith;
    free = λ j ge lt. absurd (omega arith);
    here = inl refl;
    maximal = inr (ap used (omega arith) ∙ u);
    none_yet = λ s le free. elim (Bool-cases (s + count == i + 1)) [
      | inl e ↦ clash u (free i (ground arith) (ground arith))
      | inr e ↦ h.none_yet s (ground arith) free
    ];
  }

  after_free :
      (i start run : ℕ)
      → used i ≡ false
      → run + 1 < count
      → InRun i start run
      → InRun (i + 1) (start_of i start run) (run + 1)
  unfolding start_of
  after_free i start run u lt h = record {
    short = lt;
    inside = omega (arith, h.inside);
    free = λ j ge l. elim (Bool-cases (j == i)) [
      | inl e ↦ let q : j ≡ i = ground arith in ap used q ∙ u
      | inr e ↦ h.free j (omega arith) (ground (arith, h.inside))
    ];
    here = inr (ground (arith, h.here));
    maximal = elim h.maximal [
      | inl e ↦ inl (omega arith)
      | inr m ↦ let q : i + 1 - (run + 1) - 1 ≡ i - run - 1 = omega arith in inr (ap used q ∙ m)
    ];
    none_yet = λ s le free. elim (Bool-cases (s + count == i + 1)) [
      | inl e ↦ elim h.maximal [
        | inl q ↦ absurd (ground arith)
        | inr m ↦
            let q : s + count ≡ i + 1 = ground arith in
            clash m (free (i - run - 1) (omega arith) (omega arith))
      ]
      | inr e ↦ h.none_yet s (ground arith) free
    ];
  }

  find_loop-some :
      (n i start run s : ℕ)
      → InRun i start run
      → find_loop used count n i start run ≡ some s
      → AreFree used s count × (s + count ≤ i + n)
  unfolding find_loop start_of
  find_loop-some zero i start run s h e = absurd (ground arith)
  find_loop-some (suc n) i start run s h e = elim (Bool-cases (used i)) [
    | inl u ↦
        let e1 : find_loop used count n (i + 1) start 0 ≡ some s =
          sym (rw (u, find_loop) refl) ∙ e in
        let (free, le) = find_loop-some n (i + 1) start 0 s (after_used i start run u h) e1 in
        (free, omega arith)
    | inr u ↦ elim (Bool-cases (leb count (run + 1))) [
      | inl l ↦
          let e1 : some (start_of i start run) ≡ some s = sym (rw (u, l, find_loop) refl) ∙ e in
          let q : start_of i start run ≡ s = ground arith in
          let at : s + run ≡ i = ground (arith, h.here) in
          let whole : run + 1 ≡ count = ground (arith, h.short) in
          (
            λ j ge lt. elim (Bool-cases (j == i)) [
              | inl e ↦ let q : j ≡ i = ground arith in ap used q ∙ u
              | inr e ↦ h.free j (omega arith) (ground (arith, h.inside))
            ],
            omega arith,
          )
      | inr l ↦
          let e1 : find_loop used count n (i + 1) (start_of i start run) (run + 1) ≡ some s =
            sym (rw (u, l, find_loop) refl) ∙ e in
          let (free, le) =
            find_loop-some n (i + 1) (start_of i start run) (run + 1) s
              (after_free i start run u (ground arith) h) e1 in
          (free, omega arith)
    ]
  ]

  find_loop-none :
      (n i start run : ℕ)
      → InRun i start run
      → find_loop used count n i start run ≡ none
      → (s : ℕ) → s + count ≤ i + n
      → ¬ AreFree used s count
  unfolding find_loop start_of
  find_loop-none zero i start run h e s le = h.none_yet s (omega arith)
  find_loop-none (suc n) i start run h e s le = elim (Bool-cases (used i)) [
    | inl u ↦
        find_loop-none n (i + 1) start 0 (after_used i start run u h)
          (sym (rw (u, find_loop) refl) ∙ e) s (omega arith)
    | inr u ↦ elim (Bool-cases (leb count (run + 1))) [
      | inl l ↦
          let e1 : some (start_of i start run) ≡ none = sym (rw (u, l, find_loop) refl) ∙ e in
          absurd (ground arith)
      | inr l ↦
          find_loop-none n (i + 1) (start_of i start run) (run + 1)
            (after_free i start run u (ground arith) h) (sym (rw (u, l, find_loop) refl) ∙ e) s
            (omega arith)
    ]
  ]

  at_start : InRun 0 0 0
  at_start = record {
    short = some_blocks;
    inside = omega arith;
    free = λ j ge lt. absurd (omega arith);
    here = inl refl;
    maximal = inl refl;
    none_yet = λ s le free. absurd (omega arith);
  }

  -- What is found is a run of free blocks below `n`.
  pub find-some :
      (n s : ℕ) → find_loop used count n 0 0 0 ≡ some s → AreFree used s count × (s + count ≤ n)
  find-some n s e = let (free, le) = find_loop-some n 0 0 0 s at_start e in (free, omega arith)

  -- Where nothing is found, there is no run.
  pub find-none :
      (n : ℕ)
      → find_loop used count n 0 0 0 ≡ none
      → (s : ℕ) → s + count ≤ n
      → ¬ AreFree used s count
  find-none n e s le = find_loop-none n 0 0 0 at_start e s (omega arith)
