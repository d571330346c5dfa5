-- ===== src/Pmm/Init.antt =====
-- `pmm_init` sets up the accounts.
pub mod Track
pub mod Regions
pub mod Split
use mathlib.Core.Path.{subst}
use zenedge.Common.{
  ℕ, zero, suc, ◌+◌, ◌-◌, ◌*◌, ◌/◌, ◌%◌, ◌^◌, ◌<◌, ◌≤◌, ◌≡◌, ◌⊎◌, refl, sym, ◌∙◌, ap, Bool, true,
  false, arith, Option, none, some, List, [], u32, sub32,
}
use zenedge.Bitmap.{bitmap_test}
use zenedge.Pmm.State.{Pmm, MultibootInfo, is_used, page_size, pmm_max_pages}
use zenedge.Pmm.Boot.{
  init, find_regions, parse_mmap, init_bitmap, reserve_range, reserve_kernel, setup_numa_nodes,
  count_run, count_page,
}
use zenedge.Pmm.Nodes.{IsConsistent}
use zenedge.Pmm.Alloc.Page.{note-IsConsistent}
use zenedge.Pmm.Init.Track.{IsTracked}
use zenedge.Pmm.Init.Regions.{
  ArePairwiseApart, init_bitmap-IsTracked, reserve_range-IsTracked, reserve_range-highest_page,
}
use zenedge.Pmm.Init.Split.{setup_numa_nodes-IsConsistent, setup_numa_nodes-bitmap}
use zenedge.FlightRec.{boot}

find_regions-keeps :
    (mboot : Option MultibootInfo) (p : Pmm)
    → ((find_regions mboot p).free_pages ≡ p.free_pages)
      × ((find_regions mboot p).highest_page ≡ p.highest_page)
unfolding find_regions
find_regions-keeps none p = (refl, refl)
find_regions-keeps (some m) p = unfold parse_mmap in ground arith

reserve_kernel-IsTracked :
    (kernel_start kernel_end : ℕ) (p : Pmm)
    → kernel_start ≤ kernel_end
    → IsTracked p
    → IsTracked (reserve_kernel kernel_start kernel_end p)
      × ((j : ℕ) → j < 256 → is_used (reserve_kernel kernel_start kernel_end p) j ≡ true)
      × ((j : ℕ)
          → kernel_start / page_size ≤ j
          → j * page_size < kernel_end
          → kernel_end + page_size ≤ 2 ^ 32
          → is_used (reserve_kernel kernel_start kernel_end p) j ≡ true)
unfolding reserve_kernel
reserve_kernel-IsTracked kernel_start kernel_end p ordered h =
    let (h1, low, kept1) = reserve_range-IsTracked 0 0x100000 p h in
    let (h2, own, kept2) =
      reserve_range-IsTracked kernel_start (sub32 kernel_end kernel_start)
        (reserve_range 0 0x100000 p) h1 in
    (
      h2,
      (λ j lt. kept2 j (low j (omega arith) (omega arith) (omega arith))),
      λ j le lt small. own j le (omega arith) (omega arith),
    )

reserve_kernel-highest_page :
    (kernel_start kernel_end : ℕ) (p : Pmm)
    → (reserve_kernel kernel_start kernel_end p).highest_page ≡ p.highest_page
unfolding reserve_kernel
reserve_kernel-highest_page kernel_start kernel_end p =
    reserve_range-highest_page kernel_start (sub32 kernel_end kernel_start)
      (reserve_range 0 0x100000 p)
    ∙ reserve_range-highest_page 0 0x100000 p

-- From statics that are 0, a memory map whose available regions share no page, and a kernel that ends a
-- page below 4 GB, `pmm_init` sets up the accounts, as long as there is memory above 1 MB: the bitmap,
-- the counter of free pages and the counters of both nodes agree. The pages below 1 MB and those of
-- the kernel are in use.
pub init-IsConsistent :
    (kernel_start kernel_end : ℕ) (mboot_info : Option MultibootInfo) (p : Pmm)
    → kernel_start ≤ kernel_end
    → kernel_end + page_size ≤ 2 ^ 32
    → p.free_pages ≡ 0
    → p.highest_page ≡ 0
    → ArePairwiseApart (find_regions mboot_info p).mem_regions
    → 256 ≤ (init_bitmap (find_regions mboot_info p)).highest_page
    → let q = init kernel_start kernel_end mboot_info p in
      IsConsistent q
      × ((j : ℕ) → j < 256 → is_used q j ≡ true)
      × ((j : ℕ) → kernel_start / page_size ≤ j → j * page_size < kernel_end → is_used q j ≡ true)
unfolding init
init-IsConsistent kernel_start kernel_end mboot_info p ordered small none_free none_high apart
      high =
    (
      note-IsConsistent boot 0 0 q.free_pages q (
          setup_numa_nodes-IsConsistent p2 reserved.0 (
            subst (λ n. 256 ≤ n) (sym (reserve_kernel-highest_page kernel_start kernel_end p1))
              high)),
      (λ j lt. used j (reserved.1 j lt)),
      λ j le lt. used j (reserved.2 j le lt small),
    )
  where
    p1 : Pmm
    p1 = init_bitmap (find_regions mboot_info p)

    tracked : IsTracked p1
    tracked =
        let keeps = find_regions-keeps mboot_info p in
        init_bitmap-IsTracked (find_regions mboot_info p) (keeps.0 ∙ none_free)
          (keeps.1 ∙ none_high) apart

    p2 : Pmm
    p2 = reserve_kernel kernel_start kernel_end p1

    reserved :
        IsTracked p2
        × ((j : ℕ) → j < 256 → is_used p2 j ≡ true)
        × ((j : ℕ)
            → kernel_start / page_size ≤ j
            → j * page_size < kernel_end
            → kernel_end + page_size ≤ 2 ^ 32
            → is_used p2 j ≡ true)
    reserved = reserve_kernel-IsTracked kernel_start kernel_end p1 ordered tracked

    q : Pmm
    q = setup_numa_nodes p2

    used : (j : ℕ) → is_used p2 j ≡ true → is_used q j ≡ true
    used j u = ap (λ bm. bitmap_test pmm_max_pages bm j) (setup_numa_nodes-bitmap p2) ∙ u
