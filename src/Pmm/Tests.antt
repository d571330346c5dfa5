-- ===== src/Pmm/Tests.antt =====
-- Runs of pmm.c at small machines, and the theorems at them.
use zenedge.Common.{
  Option, none, ℕ, ◌*◌, ◌/◌, ◌<◌, ◌≤◌, ◌≡◌, refl, true, some, arith, inl, [], ◌∷◌, replicate,
}
use zenedge.Bitmap.{bitmap_test, bitmap_set, bitmap_clear}
use zenedge.Pmm.Init.{init-IsConsistent}
use zenedge.Pmm.Granted.{RunOutcome, alloc_pages-RunOutcome}
use zenedge.Pmm.Stuck.{alloc_pages_stuck}
use zenedge.Pmm.{
  alloc_pages, alloc_run, find_run, first_used, mark_run, Pmm, MultibootInfo, init, find_regions,
  parse_mmap, parse_entries, init_bitmap, free_regions, free_region, free_run, reserve_kernel,
  reserve_range, reserve_run, setup_numa_nodes, count_run, NumaNode, is_used, page_size,
  numa_node_any, alloc_page, alloc_from_node, alloc_preferred, first_free, free_page,
}
use zenedge.Pmm.Nodes.{IsConsistent}
use zenedge.Pmm.Alloc.Page.{Outcome, alloc_page-Outcome}
use zenedge.Pmm.Free.Undo.{free_page-alloc_page, FreeOutcome, free_page-FreeOutcome}
use zenedge.Pmm.Sample.{power_on, small, small-IsConsistent}

abbrev no_node : NumaNode
no_node = record {
  node_id = 0;
  base_addr = 0;
  start_pfn = 0;
  end_pfn = 0;
  total_pages = 0;
  free_pages = 0;
  used_pages = 0;
}

-- Before `pmm_init`, and a map of 8 pages from 1 MB on, with a hole below.
abbrev cold : Pmm
cold = record {
  page_bitmap = replicate 8192 0;
  mem_regions = [];
  node0 = no_node;
  node1 = no_node;
  numa_node_count = 0;
  total_pages = 0;
  free_pages = 0;
  highest_page = 0;
  node_boundary_pfn = 0;
  recorder = power_on;
}

abbrev boot_info : MultibootInfo
boot_info = record {
  flags = 0x40;
  mem_lower = 0;
  mem_upper = 0;
  mmap =
      record { base_addr = 0; length = 0x3000; type = 1 }
      ∷ record { base_addr = 0xF0000; length = 0x10000; type = 2 }
      ∷ record { base_addr = 0x100000; length = 0x8000; type = 1 }
      ∷ [];
}

alloc_page-Outcome_example :
    Outcome small small.node0 small.node1 (alloc_page 0 small)
    × Outcome small small.node1 small.node0 (alloc_page 1 small)
    × Outcome small small.node0 small.node1 (alloc_page numa_node_any small)
alloc_page-Outcome_example = alloc_page-Outcome small small-IsConsistent

-- The first page is taken: the first free one of node 0 is 257, and then node 1 must help out.
first_page : (alloc_page 0 small).0 ≡ 257 * page_size
unfolding alloc_page alloc_preferred alloc_from_node first_free bitmap_test
first_page = refl

free_page-FreeOutcome_example :
    IsConsistent (free_page 0x100000 small) × FreeOutcome 0x100000 small (free_page 0x100000 small)
free_page-FreeOutcome_example =
    free_page-FreeOutcome 0x100000 small small-IsConsistent (omega arith)

free_page-alloc_page_example :
    let (addr, q) = alloc_page 0 small in
    let q' = free_page addr q in
    ((j : ℕ) → is_used q' j ≡ is_used small j) × (q'.free_pages ≡ small.free_pages)
unfolding alloc_page alloc_preferred alloc_from_node first_free bitmap_test
free_page-alloc_page_example =
    free_page-alloc_page 0 small small-IsConsistent (inl refl) (omega arith)

init-IsConsistent_example :
    let q = init 0x101000 0x102800 (some boot_info) cold in
    IsConsistent q
    × ((j : ℕ) → j < 256 → is_used q j ≡ true)
    × ((j : ℕ) → 0x101000 / page_size ≤ j → j * page_size < 0x102800 → is_used q j ≡ true)
unfolding find_regions parse_mmap parse_entries init_bitmap free_regions free_region free_run
init-IsConsistent_example =
    init-IsConsistent 0x101000 0x102800 (some boot_info) cold (omega arith) (omega arith) refl refl
      (ground arith) (ground arith)

-- Pages 256, and 259 to 263, are free.
booted_free : (init 0x101000 0x102800 (some boot_info) cold).free_pages ≡ 6
unfolding init find_regions parse_mmap parse_entries init_bitmap free_regions free_region free_run
    reserve_kernel reserve_range reserve_run setup_numa_nodes count_run bitmap_test bitmap_set
    bitmap_clear
booted_free = refl

-- Each node has two pages.
alloc_pages_stuck_example : (alloc_pages 9 5 0 small ≡ none) × (alloc_pages 9 5 1 small ≡ none)
unfolding find_run
alloc_pages_stuck_example = alloc_pages_stuck 9 5 small refl (omega arith) refl refl

-- The two pages of node 1 are a run.
abbrev first_address : Option (ℕ × Pmm) → ℕ
first_address none = 0
first_address (some r) = r.0

run_of_two : first_address (alloc_pages 9 2 1 small) ≡ 258 * page_size
unfolding alloc_pages alloc_run find_run first_used mark_run bitmap_test
run_of_two = refl

alloc_pages-RunOutcome_example : RunOutcome small 2 (alloc_pages 1 2 numa_node_any small)
alloc_pages-RunOutcome_example =
    alloc_pages-RunOutcome 0 2 small small-IsConsistent (omega arith) (omega arith)
