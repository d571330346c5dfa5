-- ===== src/Pmm/Init/Track.antt =====
-- What holds of the bitmap and the counters while `pmm_init` frees and reserves pages.
use zenedge.Common.{
  ℕ, zero, suc, ◌+◌, ◌<◌, ◌≤◌, ◌≡◌, ◌⊎◌, refl, ◌∙◌, true, false, arith, inl, inr, ltb, Bool-cases,
  if◌then◌else◌, ◌==◌, u32, sub32,
}
use zenedge.Bitmap.{
  IsBitmap, set-IsBitmap, clear-IsBitmap, clear_in, clear_in-set, clear_in-clear, clear_in-le,
  test-set, test-clear,
}
use zenedge.Pmm.State.{Pmm, is_used, pmm_max_pages, mark_used, mark_free}
use zenedge.Pmm.Boot.{free_run, reserve_run}

-- The counter of free pages is right, and no page above the highest is free.
pub record IsTracked (p : Pmm) : Type 0 where
  pub bitmap : IsBitmap pmm_max_pages p.page_bitmap
  pub total :
      (n : ℕ) → p.highest_page < n → n ≤ pmm_max_pages → p.free_pages ≡ clear_in (is_used p) 0 n
  pub top : (j : ℕ) → p.highest_page < j → is_used p j ≡ true
  pub fits : p.highest_page < pmm_max_pages

-- Every page of a range is in use.
abbrev pub AreUsed : Pmm → ℕ → ℕ → Type 0
AreUsed p lo n = (j : ℕ) → lo ≤ j → j < lo + n → is_used p j ≡ true

-- One round of the loop of `init_bitmap`.
abbrev release : ℕ → Pmm → Pmm
release pfn p =
    let p1 = mark_free pfn p in
    record p1 {
      free_pages = u32 (p.free_pages + 1);
      highest_page = if ltb p.highest_page pfn then pfn else p.highest_page;
    }

module _ (p : Pmm) (pfn : ℕ) (h : IsTracked p) (lt : pfn < pmm_max_pages) where
  is_used-release : (j : ℕ) → is_used (release pfn p) j ≡ (if pfn == j then false else is_used p j)
  is_used-release j = ground (arith, test-clear pmm_max_pages p.page_bitmap pfn j h.bitmap)

  release-IsTracked : is_used p pfn ≡ true → IsTracked (release pfn p)
  release-IsTracked used = record {
    bitmap = clear-IsBitmap pmm_max_pages p.page_bitmap pfn h.bitmap;
    total = λ n above below. ground (
      arith,
      clear_in-clear pmm_max_pages p.page_bitmap pfn 0 n h.bitmap used lt,
      clear_in-le (is_used p) 0 n,
      h.total n,
    );
    top = λ j above. ground (arith, is_used-release j, h.top j);
    fits = ground (arith, h.fits);
  }

pub free_run-IsTracked :
    (n pfn : ℕ) (p : Pmm)
    → IsTracked p
    → pfn + n ≤ pmm_max_pages
    → AreUsed p pfn n
    → IsTracked (free_run n pfn p)
      × ((j : ℕ) → (j < pfn) ⊎ (pfn + n ≤ j) → is_used (free_run n pfn p) j ≡ is_used p j)
unfolding free_run
free_run-IsTracked zero pfn p h le used = (h, λ j out. refl)
free_run-IsTracked (suc n) pfn p h le used =
    let lt : pfn < pmm_max_pages = omega arith in
    let (h', same) =
      free_run-IsTracked n (pfn + 1) (release pfn p)
        (release-IsTracked p pfn h lt (used pfn (omega arith) (omega arith))) (omega arith)
        (λ j ge below. ground (arith, is_used-release p pfn h lt j, used j)) in
    (h', λ j out. same j (ground arith) ∙ ground (arith, is_used-release p pfn h lt j))

-- One round of the loop of `pmm_reserve_range`.
abbrev reserve : ℕ → Pmm → Pmm
reserve pfn p =
    if is_used p pfn then p else mark_used pfn (record p { free_pages = sub32 p.free_pages 1 })

module _ (p : Pmm) (pfn : ℕ) (h : IsTracked p) where
  is_used-reserve : (j : ℕ) → is_used (reserve pfn p) j ≡ (if pfn == j then true else is_used p j)
  is_used-reserve j = ground (arith, test-set pmm_max_pages p.page_bitmap pfn j h.bitmap)

  reserve-IsTracked : IsTracked (reserve pfn p)
  reserve-IsTracked = elim (Bool-cases (is_used p pfn)) [
    | inl u ↦ rw u h
    | inr u ↦ rw u (record {
      bitmap = set-IsBitmap pmm_max_pages p.page_bitmap pfn h.bitmap;
      total = λ n above below. ground (
        arith,
        clear_in-set pmm_max_pages p.page_bitmap pfn 0 n h.bitmap u,
        clear_in-le (is_used p) 0 n,
        h.total n,
        h.top pfn,
      );
      top = λ j above. ground (arith, test-set pmm_max_pages p.page_bitmap pfn j h.bitmap, h.top j);
      fits = h.fits;
    })
  ]

pub reserve_run-IsTracked :
    (n pfn : ℕ) (p : Pmm)
    → IsTracked p
    → IsTracked (reserve_run n pfn p)
      × AreUsed (reserve_run n pfn p) pfn n
      × ((j : ℕ) → is_used p j ≡ true → is_used (reserve_run n pfn p) j ≡ true)
unfolding reserve_run
reserve_run-IsTracked zero pfn p h = (h, (λ j le lt. absurd (omega arith)), λ j u. u)
reserve_run-IsTracked (suc n) pfn p h =
    let (h', used, kept) =
      reserve_run-IsTracked n (pfn + 1) (reserve pfn p) (reserve-IsTracked p pfn h) in
    (
      h',
      (λ j le lt. elim (Bool-cases (pfn == j)) [
        | inl e ↦ kept j (is_used-reserve p pfn h j ∙ rw e refl)
        | inr e ↦ used j (ground arith) (omega arith)
      ]),
      λ j u. kept j (ground (arith, is_used-reserve p pfn h j)),
    )

pub reserve_run-highest_page :
    (n pfn : ℕ) (p : Pmm) → (reserve_run n pfn p).highest_page ≡ p.highest_page
unfolding reserve_run
reserve_run-highest_page zero pfn p = refl
reserve_run-highest_page (suc n) pfn p =
    reserve_run-highest_page n (pfn + 1) (reserve pfn p)
    ∙ elim (Bool-cases (is_used p pfn)) [ inl u ↦ rw u refl | inr u ↦ rw u refl ]
