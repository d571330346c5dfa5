-- ===== src/Pmm/Runs.antt =====
-- kernel/mm/pmm.c: `pmm_alloc_pages`, which takes a run of pages. At a node without a run it calls
-- itself at the other node, so it is given fuel, and `none` is a call that is still running.
use zenedge.Common.{
  ℕ, zero, suc, ◌+◌, ◌^◌, true, false, Option, none, some, leb, ltb, ◌==◌, ◌||◌, if◌then◌else◌, u32,
  sub32,
}
use zenedge.FlightRec.{locality_miss, node_unsupported, mem_alloc_fail}
use zenedge.Pmm.State.{Pmm, numa_node_any, pfn_to_addr, is_used, mark_used, note, node_at, set_node}
use zenedge.Pmm.Ops.{alloc_page, addr_to_node}

-- The first page in use of the `n` from `pfn` on.
unfoldable pub first_used : Pmm → ℕ → ℕ → Option ℕ
first_used p zero pfn = none
first_used p (suc n) pfn =
    let rest = first_used p n (u32 (pfn + 1)) in if is_used p pfn then some pfn else rest

-- The search for `count` free pages below `end`, with the rounds that are left. Each round starts at a
-- later page of 32 bits.
unfoldable pub find_run : ℕ → Pmm → ℕ → ℕ → ℕ → Option ℕ
find_run zero p count end start = none
find_run (suc n) p count end start = elim (leb (u32 (start + count)) end) [
  | false ↦ none
  | true ↦ elim (first_used p count start) [
    | none ↦ some start
    | some pfn ↦ find_run n p count end (u32 (pfn + 1))
  ]
]

unfoldable pub mark_run : ℕ → ℕ → Pmm → Pmm
mark_run zero pfn p = p
mark_run (suc n) pfn p = mark_run n (u32 (pfn + 1)) (mark_used pfn p)

-- The run that was found is taken, and counted for `target`.
abbrev pub take_run : ℕ → ℕ → ℕ → Pmm → Pmm
take_run target count start p =
    let p1 = mark_run count start p in
    let n = node_at target p1 in
    set_node target
      (record n { free_pages = sub32 n.free_pages count; used_pages = u32 (n.used_pages + count) })
      (record p1 { free_pages = sub32 p1.free_pages count })

-- The loop over the other nodes, with the call of `pmm_alloc_pages` that it makes.
unfoldable pub fall_back : (ℕ → Pmm → Option (ℕ × Pmm)) → ℕ → ℕ → ℕ → ℕ → Pmm → Option (ℕ × Pmm)
fall_back call node count zero i p = some (0, note mem_alloc_fail 0 node count p)
fall_back call node count (suc n) i p = elim (i == node) [
  | true ↦ fall_back call node count n (i + 1) p
  | false ↦ elim (call i p) [
    | none ↦ none
    | some r ↦
        if r.0 == 0
        then fall_back call node count n (i + 1) r.1
        else some (r.0, note locality_miss 0 node i r.1)
  ]
]

-- The body of `pmm_alloc_pages` for two pages or more, at a node that there is or any.
unfoldable pub alloc_run : (ℕ → Pmm → Option (ℕ × Pmm)) → ℕ → ℕ → Pmm → Option (ℕ × Pmm)
alloc_run call count node p =
    let n = node_at node p in
    let lo = if node == numa_node_any then 256 else n.start_pfn in
    let hi = if node == numa_node_any then u32 (p.highest_page + 1) else n.end_pfn in
    elim (find_run (2 ^ 32) p count hi lo) [
      | some start ↦
          let target = if node == numa_node_any then addr_to_node (pfn_to_addr start) p else node in
          some (pfn_to_addr start, take_run target count start p)
      | none ↦
          if node == numa_node_any
          then some (0, note mem_alloc_fail 0 node count p)
          else fall_back call node count p.numa_node_count 0 p
    ]

unfoldable pub alloc_pages : ℕ → ℕ → ℕ → Pmm → Option (ℕ × Pmm)
alloc_pages zero count node p = none
alloc_pages (suc fuel) count node p =
    let known = node == numa_node_any || ltb node p.numa_node_count in
    let node' = if known then node else 0 in
    let p' = if known then p else note node_unsupported 0 0 node p in
    let run = alloc_run (alloc_pages fuel count) count node' p' in
    if count == 0 then some (0, p) else if count == 1 then some (alloc_page node p) else run
