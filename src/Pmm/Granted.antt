-- ===== src/Pmm/Granted.antt =====
-- `pmm_alloc_pages` at any node: it returns, and what it grants was free.
use mathlib.Core.Path.{subst}
use zenedge.Common.{
  ℕ, zero, suc, ◌+◌, ◌*◌, ◌^◌, ◌<◌, ◌≤◌, ◌≡◌, refl, sym, ◌∙◌, ap, true, false, Option, none, some,
  arith, inl, inr, ◌==◌, leb, if◌then◌else◌, u32, Bool-cases, Option-cases, clash,
}
use zenedge.Bitmap.{IsBitmap, inside, test-set, set-IsBitmap}
use zenedge.Pmm.State.{
  Pmm, is_used, pmm_max_pages, page_size, mark_used, numa_node_any, note, pfn_to_addr,
}
use zenedge.FlightRec.{mem_alloc_fail}
use zenedge.Pmm.Ops.{addr_to_node}
use zenedge.Pmm.Nodes.{IsConsistent}
use zenedge.Pmm.Runs.{first_used, find_run, mark_run, take_run, alloc_run, alloc_pages}

-- Every page of a range is free.
abbrev pub AreFree : Pmm → ℕ → ℕ → Type 0
AreFree p lo n = (j : ℕ) → lo ≤ j → j < lo + n → is_used p j ≡ false

first_used-none :
    (p : Pmm) (n pfn : ℕ) → pfn + n < 2 ^ 32 → first_used p n pfn ≡ none → AreFree p pfn n
unfolding first_used
first_used-none p zero pfn small e j ge lt = absurd (omega arith)
first_used-none p (suc n) pfn small e j ge lt = elim (Bool-cases (is_used p pfn)) [
  | inl u ↦ absurd (ground arith)
  | inr u ↦ elim (Bool-cases (pfn == j)) [
    | inl here ↦ let q : j ≡ pfn = ground arith in ap (is_used p) q ∙ u
    | inr later ↦
        let next : u32 (pfn + 1) ≡ pfn + 1 = omega arith in
        first_used-none p n (pfn + 1) (omega arith) (ap (first_used p n) (sym next) ∙ ground arith)
          j (ground arith) (omega arith)
  ]
]

first_used-some :
    (p : Pmm) (n pfn k : ℕ)
    → pfn + n < 2 ^ 32
    → first_used p n pfn ≡ some k
    → (pfn ≤ k) × (k < pfn + n) × (is_used p k ≡ true)
unfolding first_used
first_used-some p zero pfn k small e = absurd (ground arith)
first_used-some p (suc n) pfn k small e = elim (Bool-cases (is_used p pfn)) [
  | inl u ↦ let q : pfn ≡ k = ground arith in (omega arith, omega arith, ap (is_used p) (sym q) ∙ u)
  | inr u ↦
      let next : u32 (pfn + 1) ≡ pfn + 1 = omega arith in
      let (le, lt, used) =
        first_used-some p n (pfn + 1) k (omega arith)
          (ap (first_used p n) (sym next) ∙ ground arith) in
      (omega arith, omega arith, used)
]

find_run-some :
    (n : ℕ) (p : Pmm) (count end start s : ℕ)
    → count ≤ 2 ^ 20
    → end ≤ 2 ^ 20
    → start ≤ 2 ^ 20
    → find_run n p count end start ≡ some s
    → (start ≤ s) × (s + count ≤ end) × AreFree p s count
unfolding find_run
find_run-some zero p count end start s hc he hs e = absurd (ground arith)
find_run-some (suc n) p count end start s hc he hs e =
    elim (Bool-cases (leb (u32 (start + count)) end)) [
      | inr out ↦ absurd (ground arith)
      | inl in_range ↦ elim (Option-cases (first_used p count start)) [
        | inl none_used ↦
            let e1 : some start ≡ some s = sym (run_found none_used in_range) ∙ e in
            let q : start ≡ s = ground arith in
            let free : AreFree p start count =
              first_used-none p count start (omega arith) none_used in
            (omega arith, ground arith, subst (λ x. AreFree p x count) q free)
        | inr (pfn, used) ↦
            let (le, lt, _) = first_used-some p count start pfn (omega arith) used in
            let next : u32 (pfn + 1) ≡ pfn + 1 = omega arith in
            let e1 : find_run n p count end (pfn + 1) ≡ some s =
              ap (find_run n p count end) (sym next) ∙ sym (run_blocked pfn used in_range) ∙ e in
            let (le', fits, free) =
              find_run-some n p count end (pfn + 1) s hc he (ground arith) e1 in
            (omega arith, fits, free)
      ]
    ]
  where
    run_found :
        first_used p count start ≡ none
        → leb (u32 (start + count)) end ≡ true
        → find_run (suc n) p count end start ≡ some start
    run_found none_used in_range = rw (in_range, none_used, find_run) refl

    run_blocked :
        (pfn : ℕ)
        → first_used p count start ≡ some pfn
        → leb (u32 (start + count)) end ≡ true
        → find_run (suc n) p count end start ≡ find_run n p count end (u32 (pfn + 1))
    run_blocked pfn used in_range = rw (in_range, used, find_run) refl

-- No run of free pages starts from `lo` on and ends by `end`.
abbrev pub HasNoRun : Pmm → ℕ → ℕ → ℕ → Type 0
HasNoRun p count end lo = (s : ℕ) → lo ≤ s → s + count ≤ end → AreFree p s count → ⊥

-- The search that finds nothing, with rounds enough, has seen that there is no run.
find_run-none :
    (n : ℕ) (p : Pmm) (count end start : ℕ)
    → 0 < count
    → count ≤ 2 ^ 20
    → end ≤ 2 ^ 20
    → start ≤ 2 ^ 20
    → end < start + n
    → find_run n p count end start ≡ none
    → HasNoRun p count end start
unfolding find_run
find_run-none zero p count end start pos hc he hs enough e s ge fits free = absurd (omega arith)
find_run-none (suc n) p count end start pos hc he hs enough e s ge fits free =
    elim (Bool-cases (leb (u32 (start + count)) end)) [
      | inr out ↦ absurd (ground arith)
      | inl in_range ↦ elim (Option-cases (first_used p count start)) [
        | inl none_used ↦ absurd (clash_some (sym (run_found none_used in_range) ∙ e))
        | inr (pfn, used) ↦
            let (le, lt, taken) = first_used-some p count start pfn (omega arith) used in
            let next : u32 (pfn + 1) ≡ pfn + 1 = omega arith in
            let e1 : find_run n p count end (pfn + 1) ≡ none =
              ap (find_run n p count end) (sym next) ∙ sym (run_blocked pfn used in_range) ∙ e in
            elim (Bool-cases (leb s pfn)) [
              | inl before ↦ absurd (clash taken (free pfn (ground arith) (omega arith)))
              | inr after ↦
                  find_run-none n p count end (pfn + 1) pos hc he (ground arith) (omega arith) e1 s
                    (ground arith) fits free
            ]
      ]
    ]
  where
    clash_some : some start ≡ none → ⊥
    clash_some q = absurd (ground arith)

    run_found :
        first_used p count start ≡ none
        → leb (u32 (start + count)) end ≡ true
        → find_run (suc n) p count end start ≡ some start
    run_found none_used in_range = rw (in_range, none_used, find_run) refl

    run_blocked :
        (pfn : ℕ)
        → first_used p count start ≡ some pfn
        → leb (u32 (start + count)) end ≡ true
        → find_run (suc n) p count end start ≡ find_run n p count end (u32 (pfn + 1))
    run_blocked pfn used in_range = rw (in_range, used, find_run) refl

mark_run-used :
    (n pfn : ℕ) (p : Pmm)
    → IsBitmap pmm_max_pages p.page_bitmap
    → pfn + n < 2 ^ 32
    → (j : ℕ) → is_used (mark_run n pfn p) j ≡ (if inside j pfn n then true else is_used p j)
unfolding mark_run
mark_run-used zero pfn p h small j = ground arith
mark_run-used (suc n) pfn p h small j =
    let next : u32 (pfn + 1) ≡ pfn + 1 = omega arith in
    ap (λ l. is_used (mark_run n l (mark_used pfn p)) j) next
    ∙ mark_run-used n (pfn + 1) (mark_used pfn p) (set-IsBitmap pmm_max_pages p.page_bitmap pfn h)
        (omega arith) j
    ∙ ground (arith, test-set pmm_max_pages p.page_bitmap pfn j h)

-- What a call for `count` pages at any node comes to.
pub data RunOutcome (p : Pmm) (count : ℕ) (o : Option (ℕ × Pmm)) : Type 0 where
  no_run :
      (q : Pmm)
      → o ≡ some (0, q)
      → q ≡ record p { recorder = q.recorder }
      → HasNoRun p count (p.highest_page + 1) 256
      → RunOutcome p count o
  run :
      (start : ℕ) (q : Pmm)
      → o ≡ some (start * page_size, q)
      → 256 ≤ start
      → start + count ≤ p.highest_page + 1
      → AreFree p start count
      → ((j : ℕ) → is_used q j ≡ (if inside j start count then true else is_used p j))
      → RunOutcome p count o

take_run-used :
    (target count start : ℕ) (p : Pmm) (j : ℕ)
    → is_used (take_run target count start p) j ≡ is_used (mark_run count start p) j
take_run-used target count start p j = elim (Bool-cases (target == 0)) [
  | inl e ↦ rw e refl
  | inr e ↦ rw e refl
]

module _ (fuel count : ℕ) (p : Pmm) (h : IsConsistent p) (many : 2 ≤ count)
    (few : count ≤ 2 ^ 20) where
  top : ℕ
  top = u32 (p.highest_page + 1)

  any_run :
      alloc_pages (suc fuel) count numa_node_any p
      ≡ alloc_run (alloc_pages fuel count) count numa_node_any p
  unfolding alloc_pages
  any_run =
      let some_pages : (count == 0) ≡ false = ground arith in
      let several : (count == 1) ≡ false = ground arith in rw (some_pages, several) refl

  any_none :
      find_run (2 ^ 32) p count top 256 ≡ none
      → alloc_run (alloc_pages fuel count) count numa_node_any p
        ≡ some (0, note mem_alloc_fail 0 numa_node_any count p)
  unfolding alloc_run top
  any_none e = rw (e, alloc_run) refl

  any_some :
      (start : ℕ)
      → find_run (2 ^ 32) p count top 256 ≡ some start
      → alloc_run (alloc_pages fuel count) count numa_node_any p
        ≡ some (pfn_to_addr start, take_run (addr_to_node (pfn_to_addr start) p) count start p)
  unfolding alloc_run top
  any_some start e = rw (e, alloc_run) refl

  -- Where the allocator's accounts hold, a call for two pages up to 2 ^ 20 at any node returns: address
  -- 0, with nothing changed but the flight recorder, exactly where no run of as many pages above 1 MB
  -- is free; otherwise the address of such a run, whose pages were free and are in use afterwards,
  -- while every other page is as it was.
  pub alloc_pages-RunOutcome : RunOutcome p count (alloc_pages (suc fuel) count numa_node_any p)
  unfolding top
  alloc_pages-RunOutcome = elim (Option-cases (find_run (2 ^ 32) p count top 256)) [
    | inl e ↦
        no_run (note mem_alloc_fail 0 numa_node_any count p) (any_run ∙ any_none e) refl
          (λ s ge fits free.
            find_run-none (2 ^ 32) p count top 256 (omega arith) few (omega (arith, h.fits))
              (omega arith) (omega (arith, h.fits)) e s ge (omega (arith, h.fits)) free)
    | inr (start, e) ↦
        let (low, fits, free) =
          find_run-some (2 ^ 32) p count top 256 start few (omega (arith, h.fits)) (omega arith)
            e in
        let exact : pfn_to_addr start ≡ start * page_size = omega (arith, h.fits) in
        let q = take_run (addr_to_node (pfn_to_addr start) p) count start p in
        run start q (any_run ∙ any_some start e ∙ ap (λ a. some (a, q)) exact) low
          (omega (arith, h.fits)) free
          (λ j.
            take_run-used (addr_to_node (pfn_to_addr start) p) count start p j
            ∙ mark_run-used count start p h.bitmap (omega (arith, h.fits)) j)
  ]
