-- ===== src/Pmm/Ops.antt =====
-- kernel/mm/pmm.c: allocating and freeing pages.
use zenedge.Common.{
  ℕ, zero, suc, ◌+◌, ◌-◌, ◌*◌, Option, none, some, ◌&&◌, not, leb, ltb, ◌==◌, if◌then◌else◌, length,
  u32, sub32,
}
use zenedge.FlightRec.{locality_miss, node_unsupported, mem_alloc_fail}
use zenedge.Pmm.State.{
  page_size, numa_node_any, NumaNode, Pmm, addr_to_pfn, pfn_to_addr, is_used, mark_used, mark_free,
  note, node_at, set_node,
}

-- The loop of `alloc_from_node`: the first page that is not used.
unfoldable pub first_free : Pmm → ℕ → ℕ → Option ℕ
first_free p zero pfn = none
first_free p (suc n) pfn =
    let rest = first_free p n (pfn + 1) in if is_used p pfn then rest else some pfn

-- What `alloc_from_node` writes when it takes page `pfn`.
abbrev pub take_page : ℕ → ℕ → Pmm → Pmm
take_page node pfn p =
    let n = node_at node p in
    set_node node
      (record n { free_pages = sub32 n.free_pages 1; used_pages = u32 (n.used_pages + 1) })
      (mark_used pfn (record p { free_pages = sub32 p.free_pages 1 }))

-- An allocation returns its address, 0 for none.
unfoldable pub alloc_from_node : ℕ → Pmm → ℕ × Pmm
alloc_from_node node p =
    let n = node_at node p in
    if leb p.numa_node_count node
    then (0, p)
    else elim (first_free p (n.end_pfn - n.start_pfn) n.start_pfn) [
      | none ↦ (0, p)
      | some pfn ↦ (pfn_to_addr pfn, take_page node pfn p)
    ]

-- The loop over the other nodes: `n` rounds are left, from node `i` on.
unfoldable pub try_others : ℕ → ℕ → ℕ → Pmm → ℕ × Pmm
try_others node zero i p = (0, note mem_alloc_fail 0 node 1 p)
try_others node (suc n) i p =
    let (addr, p1) = alloc_from_node i p in
    let rest = try_others node n (i + 1) (if i == node then p else p1) in
    if i == node then rest else if addr == 0 then rest else (addr, note locality_miss 0 node i p1)

unfoldable pub alloc_any : Pmm → ℕ × Pmm
alloc_any p =
    let (addr, p1) = alloc_from_node 0 p in
    let (addr', p2) = alloc_from_node 1 p1 in
    if addr == 0
    then (addr', if addr' == 0 then p2 else note locality_miss 0 0 1 p2)
    else (addr, p1)

-- `pmm_alloc_page` at a node that is one of the system's.
unfoldable pub alloc_preferred : ℕ → Pmm → ℕ × Pmm
alloc_preferred node p =
    let (addr, p1) = alloc_from_node node p in
    if addr == 0 then try_others node p1.numa_node_count 0 p1 else (addr, p1)

unfoldable pub alloc_page : ℕ → Pmm → ℕ × Pmm
alloc_page node p =
    if node == numa_node_any
    then alloc_any p
    else if leb p.numa_node_count node
    then alloc_preferred 0 (note node_unsupported 0 0 node p)
    else alloc_preferred node p

-- The loop of `pmm_addr_to_node`: `n` rounds are left, from node `i` on.
unfoldable pub node_of : ℕ → ℕ → ℕ → Pmm → ℕ
node_of pfn zero i p = 0
node_of pfn (suc n) i p =
    let rest = node_of pfn n (i + 1) p in
    if leb (node_at i p).start_pfn pfn && ltb pfn (node_at i p).end_pfn then i else rest

unfoldable pub addr_to_node : ℕ → Pmm → ℕ
unfolding node_of
addr_to_node addr p = node_of (addr_to_pfn addr) p.numa_node_count 0 p

-- What `pmm_free_page` writes of a node that has a page freed.
abbrev pub give_page : ℕ → Pmm → Pmm
give_page node p =
    let n = node_at node p in
    if ltb node p.numa_node_count
    then set_node node
        (record n { free_pages = u32 (n.free_pages + 1); used_pages = sub32 n.used_pages 1 }) p
    else p

unfoldable pub free_page : ℕ → Pmm → Pmm
free_page addr p =
    let pfn = addr_to_pfn addr in
    let p1 = mark_free pfn (record p { free_pages = u32 (p.free_pages + 1) }) in
    if ltb p.highest_page pfn
    then p
    else if not (is_used p pfn)
    then p
    else give_page (addr_to_node addr p1) p1

-- The loop of `pmm_free_pages`: `n` rounds are left, from round `i` on.
unfoldable free_loop : ℕ → ℕ → ℕ → Pmm → Pmm
free_loop addr zero i p = p
free_loop addr (suc n) i p =
    free_loop addr n (i + 1) (free_page (u32 (addr + u32 (i * page_size))) p)

unfoldable pub free_pages : ℕ → ℕ → Pmm → Pmm
unfolding free_loop
free_pages addr count p = free_loop addr count 0 p

pub record PmmStats : Type 0 where
  pub total_memory_kb : ℕ
  pub free_memory_kb : ℕ
  pub used_memory_kb : ℕ
  pub reserved_memory_kb : ℕ
  pub total_pages : ℕ
  pub free_pages : ℕ
  pub num_regions : ℕ
  pub num_nodes : ℕ

unfoldable pub get_stats : Pmm → PmmStats
get_stats p =
    let total = u32 (u32 (p.highest_page + 1) * 4) in
    let free = u32 (p.free_pages * 4) in
    record {
      total_memory_kb = total;
      free_memory_kb = free;
      used_memory_kb = sub32 total free;
      reserved_memory_kb = 0;
      total_pages = p.total_pages;
      free_pages = p.free_pages;
      num_regions = length p.mem_regions;
      num_nodes = p.numa_node_count;
    }

unfoldable pub get_node : ℕ → Pmm → Option NumaNode
get_node node_id p = if ltb node_id p.numa_node_count then some (node_at node_id p) else none

unfoldable get_node_count : Pmm → ℕ
get_node_count p = p.numa_node_count
