-- ===== src/Pmm/Free/Undo.antt =====
-- What `pmm_free_page` undoes: a double free changes nothing, a page granted and freed leaves things
-- as they were, and what goes wrong below 1 MB.
use mathlib.Core.Path.{subst}
use zenedge.Common.{
  ℕ, ◌+◌, ◌*◌, ◌-◌, ◌<◌, ◌≤◌, ◌≡◌, ◌≢◌, ◌⊎◌, ap, ◌∙◌, true, false, arith, inl, inr, Bool-cases,
  if◌then◌else◌, ◌==◌, ltb, u32, ==_refl,
}
use zenedge.Bitmap.{bitmap_test, clear_in, clear_in-le, test-clear}
use zenedge.Pmm.State.{Pmm, NumaNode, is_used, pmm_max_pages, page_size, addr_to_pfn, numa_node_any}
use zenedge.Pmm.Ops.{addr_to_node, give_page, alloc_page, free_page}
use zenedge.Pmm.Nodes.{IsConsistent}
use zenedge.Pmm.Alloc.{Granted}
use zenedge.Pmm.Alloc.Page.{Outcome, local, remote, out_of_memory, alloc_page-Outcome}
use zenedge.Pmm.Free.{
  freed, given, addr_to_node_cases, free_page-freed, free_page_kept, free_page-IsConsistent,
}

give_page-keeps :
    (node : ℕ) (p : Pmm)
    → ((give_page node p).page_bitmap ≡ p.page_bitmap)
      × ((give_page node p).free_pages ≡ p.free_pages)
give_page-keeps node p = ground arith

-- What the freed page and the others read as.
is_used-free_page :
    (addr : ℕ) (p : Pmm) (j : ℕ)
    → IsConsistent p
    → addr_to_pfn addr ≤ p.highest_page
    → is_used p (addr_to_pfn addr) ≡ true
    → is_used (free_page addr p) j ≡ (if addr_to_pfn addr == j then false else is_used p j)
is_used-free_page addr p j h le used =
    let pfn = addr_to_pfn addr in
    let p1 = freed pfn p in
    ap (λ q. is_used q j) (free_page-freed addr p le used)
    ∙ ap (λ bm. bitmap_test pmm_max_pages bm j) (give_page-keeps (addr_to_node addr p1) p1).0
    ∙ ground (arith, test-clear pmm_max_pages p.page_bitmap pfn j h.bitmap, h.fits)

-- After a page is freed it is free, or there is no such page.
pub free_page_done :
    (addr : ℕ) (p : Pmm)
    → IsConsistent p
    → ((free_page addr p).highest_page < addr_to_pfn addr)
      ⊎ (is_used (free_page addr p) (addr_to_pfn addr) ≡ false)
free_page_done addr p h = elim (Bool-cases (ltb p.highest_page (addr_to_pfn addr))) [
  | inl e ↦ inl (rw (free_page_kept addr p (inl (ground arith))) (ground arith))
  | inr e ↦ inr (elim (Bool-cases (is_used p (addr_to_pfn addr))) [
    | inr u ↦ rw (free_page_kept addr p (inr u)) u
    | inl u ↦
        is_used-free_page addr p (addr_to_pfn addr) h (ground arith) u
        ∙ rw (==_refl (addr_to_pfn addr))
  ])
]

-- What freeing an address comes to, beside the accounts.
pub data FreeOutcome (addr : ℕ) (p q : Pmm) : Type 0 where
  kept :
      (p.highest_page < addr_to_pfn addr) ⊎ (is_used p (addr_to_pfn addr) ≡ false)
      → q ≡ p
      → FreeOutcome addr p q
  given_back :
      addr_to_pfn addr ≤ p.highest_page
      → is_used p (addr_to_pfn addr) ≡ true
      → ((j : ℕ) → is_used q j ≡ (if addr_to_pfn addr == j then false else is_used p j))
      → q.free_pages ≡ p.free_pages + 1
      → FreeOutcome addr p q

free_page-count :
    (addr : ℕ) (p : Pmm)
    → IsConsistent p
    → addr_to_pfn addr ≤ p.highest_page
    → is_used p (addr_to_pfn addr) ≡ true
    → (free_page addr p).free_pages ≡ p.free_pages + 1
free_page-count addr p h le used =
    let p1 = freed (addr_to_pfn addr) p in
    ap (λ (r : Pmm). r.free_pages) (free_page-freed addr p le used)
    ∙ (give_page-keeps (addr_to_node addr p1) p1).1
    ∙ omega (arith, h.total, h.fits, clear_in-le (is_used p) 0 (p.highest_page + 1))

-- Where the allocator's accounts hold, freeing an address from the first page of node 0 on keeps them.
-- Beyond the last page, and at a page that is free already, nothing changes; otherwise the page alone
-- becomes free, and one free page more is counted.
pub free_page-FreeOutcome :
    (addr : ℕ) (p : Pmm)
    → IsConsistent p
    → p.node0.start_pfn ≤ addr_to_pfn addr
    → IsConsistent (free_page addr p) × FreeOutcome addr p (free_page addr p)
free_page-FreeOutcome addr p h low = (
  free_page-IsConsistent addr p h low,
  elim (Bool-cases (ltb p.highest_page (addr_to_pfn addr))) [
    | inl e ↦
        let above : p.highest_page < addr_to_pfn addr = ground arith in
        kept (inl above) (free_page_kept addr p (inl above))
    | inr e ↦ elim (Bool-cases (is_used p (addr_to_pfn addr))) [
      | inr u ↦ kept (inr u) (free_page_kept addr p (inr u))
      | inl u ↦
          let le : addr_to_pfn addr ≤ p.highest_page = ground arith in
          given_back le u (λ j. is_used-free_page addr p j h le u) (free_page-count addr p h le u)
    ]
  ],
)

-- Freeing twice is freeing once.
pub free_page_twice :
    (addr : ℕ) (p : Pmm) → IsConsistent p → free_page addr (free_page addr p) ≡ free_page addr p
free_page_twice addr p h = free_page_kept addr (free_page addr p) (free_page_done addr p h)

-- What was granted and is freed is as it was.
pub free_page-Granted :
    (p : Pmm) (pfn : ℕ) (q : Pmm)
    → Granted p pfn q
    → let q' = free_page (pfn * page_size) q in
      ((j : ℕ) → is_used q' j ≡ is_used p j) × (q'.free_pages ≡ p.free_pages)
free_page-Granted p pfn q g = (used, count)
  where
    at : addr_to_pfn (pfn * page_size) ≡ pfn
    at = omega arith

    le : addr_to_pfn (pfn * page_size) ≤ q.highest_page
    le = omega (arith, at, g.below, g.same_top)

    taken : is_used q (addr_to_pfn (pfn * page_size)) ≡ true
    taken = ap (is_used q) at ∙ g.others pfn ∙ rw (==_refl pfn)

    used : (j : ℕ) → is_used (free_page (pfn * page_size) q) j ≡ is_used p j
    used j = ground (
      arith,
      at,
      is_used-free_page (pfn * page_size) q j g.consistent le taken,
      g.others j,
      g.was_free,
    )

    q1 : Pmm
    q1 = freed (addr_to_pfn (pfn * page_size)) q

    count : (free_page (pfn * page_size) q).free_pages ≡ p.free_pages
    count =
        ap (λ (r : Pmm). r.free_pages) (free_page-freed (pfn * page_size) q le taken)
        ∙ (give_page-keeps (addr_to_node (pfn * page_size) q1) q1).1
        ∙ omega (
          arith,
          g.one_less,
          g.consistent.total,
          g.consistent.fits,
          clear_in-le (is_used q) 0 (q.highest_page + 1),
        )

-- Every page that `alloc_page` grants, of whatever node, can be freed: the pages that are in use,
-- and the number of free pages, are then what they were before the allocation.
pub free_page-alloc_page :
    (node : ℕ) (p : Pmm)
    → IsConsistent p
    → (node ≡ 0) ⊎ (node ≡ 1) ⊎ (node ≡ numa_node_any)
    → (alloc_page node p).0 ≢ 0
    → let (addr, q) = alloc_page node p in
      let q' = free_page addr q in
      ((j : ℕ) → is_used q' j ≡ is_used p j) × (q'.free_pages ≡ p.free_pages)
free_page-alloc_page node p h which some_page = elim which [
  | inl e ↦ rw e (
      undone p.node0 p.node1 (alloc_page 0 p) (subst (λ n. (alloc_page n p).0 ≢ 0) e some_page)
        (alloc_page-Outcome p h).0)
  | inr (inl e) ↦ rw e (
      undone p.node1 p.node0 (alloc_page 1 p) (subst (λ n. (alloc_page n p).0 ≢ 0) e some_page)
        (alloc_page-Outcome p h).1)
  | inr (inr e) ↦ rw e (
      undone p.node0 p.node1 (alloc_page numa_node_any p)
        (subst (λ n. (alloc_page n p).0 ≢ 0) e some_page) (alloc_page-Outcome p h).2)
]
  where
    undone :
        (first second : NumaNode) (r : ℕ × Pmm)
        → r.0 ≢ 0
        → Outcome p first second r
        → ((j : ℕ) → is_used (free_page r.0 r.1) j ≡ is_used p j)
          × ((free_page r.0 r.1).free_pages ≡ p.free_pages)
    undone first second r ne (local pfn e le lt g) = rw e (free_page-Granted p pfn r.1 g)
    undone first second r ne (remote pfn e ex le lt g) = rw e (free_page-Granted p pfn r.1 g)
    undone first second r ne (out_of_memory e ex ex' same) = absurd (ne e)

-- Below the first page of node 0 a page in use is freed all the same, and is counted for node 0,
-- though its range has no page more that is free: the accounts are wrong from then on.
free_page_low :
    (addr : ℕ) (p : Pmm)
    → IsConsistent p
    → addr_to_pfn addr < p.node0.start_pfn
    → is_used p (addr_to_pfn addr) ≡ true
    → ¬ IsConsistent (free_page addr p)
free_page_low addr p h low used bad = ground (
  arith,
  wrong,
  given p pfn h used le p.node0.start_pfn n0,
  h.counted0.free,
  clear_in-le (is_used p) p.node0.start_pfn n0,
  h.fits,
  h.joined,
  h.top,
  h.counted1.ordered,
)
  where
    pfn : ℕ
    pfn = addr_to_pfn addr

    n0 : ℕ
    n0 = p.node0.end_pfn - p.node0.start_pfn

    le : pfn ≤ p.highest_page
    le = omega (arith, h.joined, h.top, h.counted0.ordered, h.counted1.ordered)

    first : addr_to_node addr (freed pfn p) ≡ 0
    first = ground (arith, addr_to_node_cases addr p h le)

    same : free_page addr p ≡ give_page 0 (freed pfn p)
    same = free_page-freed addr p le used ∙ ap (λ node. give_page node (freed pfn p)) first

    bad' : IsConsistent (give_page 0 (freed pfn p))
    bad' = subst IsConsistent same bad

    wrong : u32 (p.node0.free_pages + 1) ≡ clear_in (is_used (freed pfn p)) p.node0.start_pfn n0
    wrong = ground (arith, bad'.counted0.free, h.two)
