-- ===== src/Pmm/Free.antt =====
-- `pmm_free_page` keeps the accounts.
pub mod Undo
use mathlib.Core.Path.{subst}
use zenedge.Common.{
  ℕ, ◌+◌, ◌*◌, ◌-◌, ◌<◌, ◌≤◌, ◌≡◌, ◌≢◌, ◌⊎◌, refl, sym, ap, ◌∙◌, true, false, ◌&&◌, arith, inl, inr,
  Bool-cases, if◌then◌else◌, ◌==◌, leb, ltb, u32, lt→ltb, le→ltb_false, ==_refl,
}
use zenedge.Bitmap.{
  bitmap_test, clear-IsBitmap, clear_in, clear_in-le, clear_in-clear, test-clear, inside,
}
use zenedge.Pmm.State.{
  Pmm, NumaNode, is_used, pmm_max_pages, page_size, addr_to_pfn, mark_free, numa_node_any,
}
use zenedge.Pmm.Ops.{node_of, addr_to_node, give_page, alloc_page, free_page}
use zenedge.Pmm.Nodes.{IsConsistent}
use zenedge.Pmm.Alloc.{Granted}
use zenedge.Pmm.Alloc.Page.{Outcome, local, remote, out_of_memory, alloc_page-Outcome}

-- Page `pfn` marked free, and counted.
abbrev pub freed : ℕ → Pmm → Pmm
freed pfn p = mark_free pfn (record p { free_pages = u32 (p.free_pages + 1) })

node_of_two :
    (pfn count : ℕ) (p : Pmm)
    → count ≡ 2
    → node_of pfn count 0 p ≡ (
        if leb p.node0.start_pfn pfn && ltb pfn p.node0.end_pfn
        then 0
        else if leb p.node1.start_pfn pfn && ltb pfn p.node1.end_pfn
        then 1
        else 0)
unfolding node_of
node_of_two pfn count p e = rw e refl

module _ (p : Pmm) (pfn : ℕ) (h : IsConsistent p) (used : is_used p pfn ≡ true)
    (high : pfn ≤ p.highest_page) where
  -- One clear bit more in each range that the page lies in.
  pub given :
      (lo n : ℕ)
      → clear_in (is_used (freed pfn p)) lo n
        ≡ clear_in (is_used p) lo n + (if inside pfn lo n then 1 else 0)
  given lo n =
      clear_in-clear pmm_max_pages p.page_bitmap pfn lo n h.bitmap used (omega (arith, h.fits))

  bounded : (lo n : ℕ) → clear_in (is_used (freed pfn p)) lo n ≤ n
  bounded lo n = clear_in-le (is_used (freed pfn p)) lo n

  give_page0-IsConsistent :
      p.node0.start_pfn ≤ pfn → pfn < p.node0.end_pfn → IsConsistent (give_page 0 (freed pfn p))
  give_page0-IsConsistent le lt =
      let n0 = p.node0.end_pfn - p.node0.start_pfn in
      let n1 = p.node1.end_pfn - p.node1.start_pfn in
      rw (lt→ltb 0 p.numa_node_count (omega (arith, h.two))) (record {
        bitmap = clear-IsBitmap pmm_max_pages p.page_bitmap pfn h.bitmap;
        two = h.two;
        low = h.low;
        joined = h.joined;
        top = h.top;
        fits = h.fits;
        counted0 = record {
          ordered = h.counted0.ordered;
          free = ground (arith, given p.node0.start_pfn n0, bounded p.node0.start_pfn n0);
          shared = ground (arith, given p.node0.start_pfn n0, bounded p.node0.start_pfn n0);
        };
        counted1 = record {
          ordered = h.counted1.ordered;
          free = ground (arith, given p.node1.start_pfn n1);
          shared = h.counted1.shared;
        };
        total = ground (arith, given 0 (p.highest_page + 1), bounded 0 (p.highest_page + 1));
      })

  give_page1-IsConsistent :
      p.node1.start_pfn ≤ pfn → pfn < p.node1.end_pfn → IsConsistent (give_page 1 (freed pfn p))
  give_page1-IsConsistent le lt =
      let n0 = p.node0.end_pfn - p.node0.start_pfn in
      let n1 = p.node1.end_pfn - p.node1.start_pfn in
      rw (lt→ltb 1 p.numa_node_count (omega (arith, h.two))) (record {
        bitmap = clear-IsBitmap pmm_max_pages p.page_bitmap pfn h.bitmap;
        two = h.two;
        low = h.low;
        joined = h.joined;
        top = h.top;
        fits = h.fits;
        counted0 = record {
          ordered = h.counted0.ordered;
          free = ground (arith, given p.node0.start_pfn n0);
          shared = h.counted0.shared;
        };
        counted1 = record {
          ordered = h.counted1.ordered;
          free = ground (arith, given p.node1.start_pfn n1, bounded p.node1.start_pfn n1);
          shared = ground (arith, given p.node1.start_pfn n1, bounded p.node1.start_pfn n1);
        };
        total = ground (arith, given 0 (p.highest_page + 1), bounded 0 (p.highest_page + 1));
      })

-- The node that a page's address leads to: node 0 also for a page of neither.
pub addr_to_node_cases :
    (addr : ℕ) (p : Pmm)
    → IsConsistent p
    → addr_to_pfn addr ≤ p.highest_page
    → let pfn = addr_to_pfn addr in
      ((addr_to_node addr (freed pfn p) ≡ 0) × (pfn < p.node0.end_pfn))
      ⊎ ((addr_to_node addr (freed pfn p) ≡ 1)
          × (p.node1.start_pfn ≤ pfn)
          × (pfn < p.node1.end_pfn))
unfolding addr_to_node
addr_to_node_cases addr p h le =
    ground
      (arith, node_of_two (addr_to_pfn addr) p.numa_node_count (freed (addr_to_pfn addr) p) h.two)

given_back :
    (addr : ℕ) (p : Pmm)
    → IsConsistent p
    → p.node0.start_pfn ≤ addr_to_pfn addr
    → addr_to_pfn addr ≤ p.highest_page
    → is_used p (addr_to_pfn addr) ≡ true
    → let p1 = freed (addr_to_pfn addr) p in IsConsistent (give_page (addr_to_node addr p1) p1)
given_back addr p h low le used = elim (addr_to_node_cases addr p h le) [
  | inl c ↦ rw c.0 (give_page0-IsConsistent p (addr_to_pfn addr) h used le low c.1)
  | inr c ↦ rw c.0 (give_page1-IsConsistent p (addr_to_pfn addr) h used le c.1 c.2)
]

module _ (addr : ℕ) (p : Pmm) where
  pub free_page-freed :
      addr_to_pfn addr ≤ p.highest_page
      → is_used p (addr_to_pfn addr) ≡ true
      → free_page addr p
        ≡ (let p1 = freed (addr_to_pfn addr) p in give_page (addr_to_node addr p1) p1)
  unfolding free_page
  free_page-freed le used = rw (used, le→ltb_false p.highest_page (addr_to_pfn addr) le) refl

  pub free_page_kept :
      (p.highest_page < addr_to_pfn addr) ⊎ (is_used p (addr_to_pfn addr) ≡ false)
      → free_page addr p ≡ p
  unfolding free_page
  free_page_kept c = ground arith

-- Freeing keeps the accounts, at every address from the first page of node 0 on.
pub free_page-IsConsistent :
    (addr : ℕ) (p : Pmm)
    → IsConsistent p
    → p.node0.start_pfn ≤ addr_to_pfn addr
    → IsConsistent (free_page addr p)
free_page-IsConsistent addr p h low = elim (Bool-cases (ltb p.highest_page (addr_to_pfn addr))) [
  | inl e ↦ subst IsConsistent (sym (free_page_kept addr p (inl (ground arith)))) h
  | inr e ↦ elim (Bool-cases (is_used p (addr_to_pfn addr))) [
    | inr u ↦ subst IsConsistent (sym (free_page_kept addr p (inr u))) h
    | inl u ↦
        subst IsConsistent (sym (free_page-freed addr p (ground arith) u))
          (given_back addr p h low (ground arith) u)
  ]
]
