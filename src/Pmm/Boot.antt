-- ===== src/Pmm/Boot.antt =====
-- kernel/mm/pmm.c: `pmm_init`, from the bootloader's memory map to the two nodes.
use zenedge.Common.{
  ℕ, zero, suc, ◌+◌, ◌-◌, ◌*◌, ◌/◌, ◌^◌, Option, none, some, List, [], ◌∷◌, ◌++◌, leb, ltb, ◌==◌,
  if◌then◌else◌, length, replicate, u32, u64, sub32,
}
use zenedge.FlightRec.{boot}
use zenedge.Pmm.State.{
  pmm_max_pages, max_mem_regions, available, MemRegion, NumaNode, Pmm, addr_to_pfn, pfn_to_addr,
  page_align_down, page_align_up, is_used, mark_used, mark_free, note, node_at, set_node, MmapEntry,
  MultibootInfo, has_flag,
}

-- The loop over the memory map: regions below 4 GB, cut to 32 bits, at most 32 of them.
unfoldable pub parse_entries : List MmapEntry → List MemRegion → List MemRegion
parse_entries [] regions = regions
parse_entries (e ∷ es) regions =
    let len =
      if ltb (2 ^ 32) (u64 (e.base_addr + e.length)) then 2 ^ 32 - e.base_addr else e.length in
    let r : MemRegion = record { base = u32 e.base_addr; length = u32 len; type = e.type } in
    let rest =
      parse_entries es (if ltb e.base_addr (2 ^ 32) then regions ++ (r ∷ []) else regions) in
    if ltb (length regions) max_mem_regions then rest else regions

unfoldable pub parse_mmap : MultibootInfo → Pmm → Pmm
unfolding parse_entries
parse_mmap mboot p =
    if has_flag mboot.flags 6
    then record p { mem_regions = parse_entries mboot.mmap p.mem_regions }
    else if has_flag mboot.flags 0
    then record p {
      mem_regions =
          record { base = 0; length = u32 (mboot.mem_lower * 1024); type = available }
          ∷ record { base = 0x100000; length = u32 (mboot.mem_upper * 1024); type = available }
          ∷ [];
    }
    else p

-- The loop that frees the pages of a region: `n` rounds are left, from page `pfn` on.
unfoldable pub free_run : ℕ → ℕ → Pmm → Pmm
free_run zero pfn p = p
free_run (suc n) pfn p =
    let p1 = mark_free pfn p in
    free_run n (pfn + 1) (record p1 {
      free_pages = u32 (p.free_pages + 1);
      highest_page = if ltb p.highest_page pfn then pfn else p.highest_page;
    })

unfoldable pub free_region : MemRegion → Pmm → Pmm
unfolding free_run
free_region r p =
    let base = page_align_up r.base in
    let end = page_align_down (u32 (r.base + r.length)) in
    let end_pfn = if ltb pmm_max_pages (addr_to_pfn end) then pmm_max_pages else addr_to_pfn end in
    if r.type == available
    then (if leb end base then p else free_run (end_pfn - addr_to_pfn base) (addr_to_pfn base) p)
    else p

unfoldable pub free_regions : List MemRegion → Pmm → Pmm
unfolding free_region
free_regions [] p = p
free_regions (r ∷ rs) p = free_regions rs (free_region r p)

unfoldable pub init_bitmap : Pmm → Pmm
unfolding free_regions
init_bitmap p =
    let p1 =
      free_regions p.mem_regions (record p { page_bitmap = replicate (pmm_max_pages / 8) 0xFF }) in
    record p1 { total_pages = u32 (p1.highest_page + 1) }

-- The loop of `pmm_reserve_range`: `n` rounds are left, from page `pfn` on.
unfoldable pub reserve_run : ℕ → ℕ → Pmm → Pmm
reserve_run zero pfn p = p
reserve_run (suc n) pfn p =
    reserve_run n (pfn + 1)
      (if is_used p pfn then p else mark_used pfn (record p { free_pages = sub32 p.free_pages 1 }))

unfoldable pub reserve_range : ℕ → ℕ → Pmm → Pmm
unfolding reserve_run
reserve_range base len p =
    let start_pfn = addr_to_pfn (page_align_down base) in
    let end_pfn = addr_to_pfn (page_align_up (u32 (base + len))) in
    reserve_run ((if ltb pmm_max_pages end_pfn then pmm_max_pages else end_pfn) - start_pfn)
      start_pfn p

unfoldable pub reserve_kernel : ℕ → ℕ → Pmm → Pmm
unfolding reserve_range
reserve_kernel kernel_start kernel_end p =
    reserve_range kernel_start (sub32 kernel_end kernel_start) (reserve_range 0 0x100000 p)

abbrev pub count_page : ℕ → Pmm → Pmm
count_page pfn p =
    let i = if ltb pfn p.node_boundary_pfn then 0 else 1 in
    let node = node_at i p in
    if is_used p pfn
    then p
    else set_node i (record node { free_pages = u32 (node.free_pages + 1) }) p

-- The loop that counts the free pages of each node.
unfoldable pub count_run : ℕ → ℕ → Pmm → Pmm
count_run zero pfn p = p
count_run (suc n) pfn p = count_run n (pfn + 1) (count_page pfn p)

abbrev pub new_node : ℕ → ℕ → ℕ → NumaNode
new_node id start_pfn end_pfn = record {
  node_id = id;
  base_addr = pfn_to_addr start_pfn;
  start_pfn = start_pfn;
  end_pfn = end_pfn;
  total_pages = sub32 end_pfn start_pfn;
  free_pages = 0;
  used_pages = 0;
}

abbrev pub with_used : NumaNode → NumaNode
with_used n = record n { used_pages = sub32 n.total_pages n.free_pages }

unfoldable pub setup_numa_nodes : Pmm → Pmm
unfolding count_run
setup_numa_nodes p =
    let usable_pages = u32 (sub32 p.highest_page 256 + 1) in
    let boundary = u32 (256 + usable_pages / 2) in
    let p1 = count_run (p.highest_page + 1 - 256) 256 (record p {
      node_boundary_pfn = boundary;
      node0 = new_node 0 256 boundary;
      node1 = new_node 1 boundary (u32 (p.highest_page + 1));
      numa_node_count = 2;
    }) in
    record p1 { node0 = with_used p1.node0; node1 = with_used p1.node1 }

-- `none` is the null pointer, for which 128 MB are assumed.
unfoldable pub find_regions : Option MultibootInfo → Pmm → Pmm
unfolding parse_mmap
find_regions (some mboot) p = parse_mmap mboot p
find_regions none p = record p {
  mem_regions =
      record { base = 0; length = 640 * 1024; type = available }
      ∷ record { base = 0x100000; length = 128 * 1024 * 1024 - 0x100000; type = available }
      ∷ [];
}

-- `pmm_init`. The linker's symbols of the kernel's first and last address are arguments.
unfoldable pub init : ℕ → ℕ → Option MultibootInfo → Pmm → Pmm
unfolding find_regions init_bitmap reserve_kernel setup_numa_nodes
init kernel_start kernel_end mboot_info p =
    let p1 = find_regions mboot_info p in
    let p2 = setup_numa_nodes (reserve_kernel kernel_start kernel_end (init_bitmap p1)) in
    note boot 0 0 p2.free_pages p2
