-- ===== src/Pmm/Init/Regions.antt =====
-- `init_bitmap` and `reserve_kernel`: freeing the memory that the bootloader lists, then reserving
-- what the machine and the kernel use.
use zenedge.Common.{
  ℕ, zero, suc, ◌+◌, ◌-◌, ◌*◌, ◌/◌, ◌^◌, ◌<◌, ◌≤◌, ◌≡◌, ◌⊎◌, refl, sym, ◌∙◌, true, arith, inl, inr,
  ltb, leb, le→ltb_false, Bool-cases, if◌then◌else◌, ◌==◌, u32, List, [], ◌∷◌, replicate, All,
}
use zenedge.Bitmap.{full-IsBitmap, test-full, clear_in, bitmap_test}
use zenedge.Pmm.State.{
  Pmm, MemRegion, available, is_used, pmm_max_pages, page_size, addr_to_pfn, page_align_up,
  page_align_down,
}
use zenedge.Pmm.Boot.{free_run, free_region, free_regions, init_bitmap, reserve_run, reserve_range}
use zenedge.Pmm.Init.Track.{
  IsTracked, AreUsed, free_run-IsTracked, reserve_run-IsTracked, reserve_run-highest_page,
}

-- The whole pages of a region of memory that may be used: the first, and their number.
abbrev pub first_page : MemRegion → ℕ
first_page r = addr_to_pfn (page_align_up r.base)

abbrev last_page : MemRegion → ℕ
last_page r =
    let end_pfn = addr_to_pfn (page_align_down (u32 (r.base + r.length))) in
    if ltb pmm_max_pages end_pfn then pmm_max_pages else end_pfn

abbrev run_length : MemRegion → ℕ
run_length r =
    if r.type == available
    then (if leb (page_align_down (u32 (r.base + r.length))) (page_align_up r.base)
        then 0
        else last_page r - first_page r)
    else 0

-- Two regions have no usable page in common: one has none, or one ends before the other.
abbrev pub AreApart : MemRegion → MemRegion → Type 0
AreApart r s =
    ((run_length r ≡ 0) ⊎ (run_length s ≡ 0))
    ⊎ ((first_page r + run_length r ≤ first_page s) ⊎ (first_page s + run_length s ≤ first_page r))

abbrev pub ArePairwiseApart : List MemRegion → Type 0
ArePairwiseApart [] = Unit
ArePairwiseApart (r ∷ rs) = All (AreApart r) rs × ArePairwiseApart rs

free_region-run :
    (r : MemRegion) (p : Pmm) → free_region r p ≡ free_run (run_length r) (first_page r) p
unfolding free_region free_run
free_region-run r p = elim (Bool-cases (r.type == available)) [
  | inl e ↦
      elim (Bool-cases (leb (page_align_down (u32 (r.base + r.length))) (page_align_up r.base))) [
        | inl e' ↦ rw (e, e') refl
        | inr e' ↦ rw (e, e') refl
      ]
  | inr e ↦ rw e refl
]

run_fits : (r : MemRegion) → (run_length r ≡ 0) ⊎ (first_page r + run_length r ≤ pmm_max_pages)
run_fits r = ground arith

abbrev IsUnused : Pmm → MemRegion → Type 0
IsUnused p r = AreUsed p (first_page r) (run_length r)

free_region-IsTracked :
    (r : MemRegion) (p : Pmm)
    → IsTracked p
    → IsUnused p r
    → IsTracked (free_region r p)
      × ((s : MemRegion) → AreApart r s → IsUnused p s → IsUnused (free_region r p) s)
free_region-IsTracked r p h used = rw (free_region-run r p) (elim (run_fits r) [
  | inl e ↦ rw e (unfold free_run in (h, λ s apart unused. unused))
  | inr le ↦
      let (h', same) = free_run-IsTracked (run_length r) (first_page r) p h le used in
      (h', λ s apart unused j ge lt. same j (ground arith) ∙ unused j ge lt)
])

-- `s` is unused still, for every region that is apart from the one that is freed.
still-IsUnused :
    (r : MemRegion) (p : Pmm)
    → ((s : MemRegion) → AreApart r s → IsUnused p s → IsUnused (free_region r p) s)
    → (rs : List MemRegion) → All (AreApart r) rs
    → All (IsUnused p) rs
    → All (IsUnused (free_region r p)) rs
still-IsUnused r p keep [] apart used = tt
still-IsUnused r p keep (s ∷ rs) apart used =
    (keep s apart.0 used.0, still-IsUnused r p keep rs apart.1 used.1)

free_regions-IsTracked :
    (rs : List MemRegion) (p : Pmm)
    → IsTracked p
    → All (IsUnused p) rs
    → ArePairwiseApart rs
    → IsTracked (free_regions rs p)
unfolding free_regions
free_regions-IsTracked [] p h used apart = h
free_regions-IsTracked (r ∷ rs) p h used apart =
    let (h', keep) = free_region-IsTracked r p h used.0 in
    free_regions-IsTracked rs (free_region r p) h' (still-IsUnused r p keep rs apart.0 used.1)
      apart.1

-- From the first page on, no page is free before a region is.
pub init_bitmap-IsTracked :
    (p : Pmm)
    → p.free_pages ≡ 0
    → p.highest_page ≡ 0
    → ArePairwiseApart p.mem_regions
    → IsTracked (init_bitmap p)
unfolding init_bitmap
init_bitmap-IsTracked p none_free none_high apart = record {
  bitmap = h.bitmap;
  total = h.total;
  top = h.top;
  fits = h.fits;
}
  where
    p0 : Pmm
    p0 = record p { page_bitmap = replicate (pmm_max_pages / 8) 0xFF }

    full : (j : ℕ) → is_used p0 j ≡ true
    full j = test-full pmm_max_pages (pmm_max_pages / 8) (omega arith) j

    none_clear : (lo n : ℕ) → clear_in (is_used p0) lo n ≡ 0
    none_clear lo zero = refl
    none_clear lo (suc n) = rw (full lo) (omega (arith, none_clear (lo + 1) n))

    unused : (rs : List MemRegion) → All (IsUnused p0) rs
    unused [] = tt
    unused (r ∷ rs) = ((λ j ge lt. full j), unused rs)

    h : IsTracked (free_regions p.mem_regions p0)
    h =
        free_regions-IsTracked p.mem_regions p0
          (record {
            bitmap = full-IsBitmap pmm_max_pages (pmm_max_pages / 8) (omega arith);
            total = λ n above below. none_free ∙ sym (none_clear 0 n);
            top = λ j above. full j;
            fits = omega (arith, none_high);
          })
          (unused p.mem_regions) apart

beyond_is_used : (p : Pmm) (j : ℕ) → pmm_max_pages ≤ j → is_used p j ≡ true
unfolding bitmap_test
beyond_is_used p j le = rw (le→ltb_false j pmm_max_pages le) refl

-- The bounds of the loop of `pmm_reserve_range`.
abbrev reserve_lo : ℕ → ℕ
reserve_lo base = addr_to_pfn (page_align_down base)

abbrev reserve_hi : ℕ → ℕ → ℕ
reserve_hi base len =
    let end_pfn = addr_to_pfn (page_align_up (u32 (base + len))) in
    if ltb pmm_max_pages end_pfn then pmm_max_pages else end_pfn

reserve_bounds :
    (base len j : ℕ)
    → base / page_size ≤ j
    → j * page_size < base + len
    → base + len + page_size ≤ 2 ^ 32
    → (reserve_lo base ≤ j) × ((pmm_max_pages ≤ j) ⊎ (j < reserve_hi base len))
reserve_bounds base len j ge lt small = (omega arith, ground arith)

-- Afterwards the pages of the range are in use, and no page that was in use is free.
pub reserve_range-IsTracked :
    (base len : ℕ) (p : Pmm)
    → IsTracked p
    → IsTracked (reserve_range base len p)
      × ((j : ℕ)
          → base / page_size ≤ j
          → j * page_size < base + len
          → base + len + page_size ≤ 2 ^ 32
          → is_used (reserve_range base len p) j ≡ true)
      × ((j : ℕ) → is_used p j ≡ true → is_used (reserve_range base len p) j ≡ true)
unfolding reserve_range
reserve_range-IsTracked base len p h =
    let lo = reserve_lo base in
    let n = reserve_hi base len - lo in
    let q = reserve_run n lo p in
    let (h', used, kept) = reserve_run-IsTracked n lo p h in
    (
      h',
      (λ j ge lt small.
          let (le, which) = reserve_bounds base len j ge lt small in
          elim which [ inl far ↦ beyond_is_used q j far | inr near ↦ used j le (omega arith) ]),
      kept,
    )

pub reserve_range-highest_page :
    (base len : ℕ) (p : Pmm) → (reserve_range base len p).highest_page ≡ p.highest_page
unfolding reserve_range
reserve_range-highest_page base len p =
    reserve_run-highest_page (reserve_hi base len - reserve_lo base) (reserve_lo base) p
