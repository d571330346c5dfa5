-- ===== src/Pmm/Alloc.antt =====
-- `pmm_alloc_page`: what it grants, and when it fails.
pub mod Page
use mathlib.Core.Path.{subst}
use zenedge.Common.{
  ℕ, zero, suc, ◌+◌, ◌*◌, ◌-◌, ◌^◌, ◌<◌, ◌≤◌, ◌≡◌, ◌≢◌, ◌⊎◌, refl, sym, ap, ◌∙◌, Bool, true, false,
  Option, none, some, arith, inl, inr, Bool-cases, Option-cases, if◌then◌else◌, ◌==◌, leb, sub32,
  List,
}
use zenedge.Bitmap.{
  IsBitmap, bitmap_test, bitmap_set, clear_in, clear_in-le, clear_in-set, test-set, inside,
}
use zenedge.Pmm.State.{
  Pmm, NumaNode, is_used, pmm_max_pages, page_size, pfn_to_addr, mark_used, node_at, set_node,
  numa_node_any, note,
}
use zenedge.Pmm.Ops.{
  first_free, take_page, alloc_from_node, alloc_any, alloc_preferred, try_others, alloc_page,
}
use zenedge.Pmm.Nodes.{
  IsCounted, IsConsistent, first_free-none, first_free-some, take_page0-IsConsistent,
  take_page1-IsConsistent,
}

-- Page `pfn` was free and is taken; nothing else of the bitmap changes, and the accounts hold.
pub record Granted (p : Pmm) (pfn : ℕ) (p' : Pmm) : Type 0 where
  pub above : 256 ≤ pfn
  pub below : pfn ≤ p.highest_page
  pub was_free : is_used p pfn ≡ false
  pub others : (j : ℕ) → is_used p' j ≡ (if pfn == j then true else is_used p j)
  pub one_less : p'.free_pages + 1 ≡ p.free_pages
  pub same_top : p'.highest_page ≡ p.highest_page
  pub consistent : IsConsistent p'

-- A node's range has no free page.
abbrev pub IsExhausted : Pmm → NumaNode → Type 0
IsExhausted p n = clear_in (is_used p) n.start_pfn (n.end_pfn - n.start_pfn) ≡ 0

module _ (p : Pmm) (h : IsConsistent p) (pfn : ℕ) (free : is_used p pfn ≡ false) where
  one_less_free : 256 ≤ pfn → pfn ≤ p.highest_page → sub32 p.free_pages 1 + 1 ≡ p.free_pages
  one_less_free le le' = ground (
    arith,
    clear_in-set pmm_max_pages p.page_bitmap pfn 0 (p.highest_page + 1) h.bitmap free,
    clear_in-le (is_used p) 0 (p.highest_page + 1),
    h.total,
    h.fits,
  )

  take_page0-Granted :
      p.node0.start_pfn ≤ pfn → pfn < p.node0.end_pfn → Granted p pfn (take_page 0 pfn p)
  take_page0-Granted le lt = record {
    above = omega (arith, h.low);
    below = omega (arith, h.joined, h.top, h.counted1.ordered);
    was_free = free;
    others = λ j. test-set pmm_max_pages p.page_bitmap pfn j h.bitmap;
    one_less =
        one_less_free (omega (arith, h.low)) (omega (arith, h.joined, h.top, h.counted1.ordered));
    same_top = refl;
    consistent = take_page0-IsConsistent p pfn h free le lt;
  }

  take_page1-Granted :
      p.node1.start_pfn ≤ pfn → pfn < p.node1.end_pfn → Granted p pfn (take_page 1 pfn p)
  take_page1-Granted le lt = record {
    above = omega (arith, h.low, h.joined, h.counted0.ordered);
    below = omega (arith, h.top);
    was_free = free;
    others = λ j. test-set pmm_max_pages p.page_bitmap pfn j h.bitmap;
    one_less =
        one_less_free (omega (arith, h.low, h.joined, h.counted0.ordered)) (omega (arith, h.top));
    same_top = refl;
    consistent = take_page1-IsConsistent p pfn h free le lt;
  }

-- What an allocation from one node comes to.
pub data FromNode (p : Pmm) (n : NumaNode) (r : ℕ × Pmm) : Type 0 where
  denied : r ≡ (0, p) → IsExhausted p n → FromNode p n r
  granted :
      (pfn : ℕ)
      → r.0 ≡ pfn * page_size
      → n.start_pfn ≤ pfn
      → pfn < n.end_pfn
      → Granted p pfn r.1
      → FromNode p n r

le→leb_false : {count : ℕ} (node : ℕ) → node < count → leb count node ≡ false
le→leb_false node lt = ground arith

module _ (p : Pmm) (node : ℕ) (known : node < p.numa_node_count) where
  alloc_from_node-none :
      let n = node_at node p in
      first_free p (n.end_pfn - n.start_pfn) n.start_pfn ≡ none → alloc_from_node node p ≡ (0, p)
  unfolding alloc_from_node
  alloc_from_node-none e = rw (e, alloc_from_node) (ground arith)

  alloc_from_node-some :
      (pfn : ℕ)
      → let n = node_at node p in
        first_free p (n.end_pfn - n.start_pfn) n.start_pfn ≡ some pfn
        → alloc_from_node node p ≡ (pfn_to_addr pfn, take_page node pfn p)
  unfolding alloc_from_node
  alloc_from_node-some pfn e = rw (e, alloc_from_node, le→leb_false node known) refl

addr_exact : (pfn top : ℕ) → pfn ≤ top → top < pmm_max_pages → pfn_to_addr pfn ≡ pfn * page_size
addr_exact pfn top le lt = omega arith

module _ (p : Pmm) (h : IsConsistent p) where
  pub alloc0 : FromNode p p.node0 (alloc_from_node 0 p)
  alloc0 = elim (Option-cases (first_free p (n.end_pfn - n.start_pfn) n.start_pfn)) [
    | inl e ↦
        denied (alloc_from_node-none p 0 known e)
          (first_free-none p (n.end_pfn - n.start_pfn) n.start_pfn e)
    | inr (pfn, e) ↦
        let (le, lt, free, before) =
          first_free-some p (n.end_pfn - n.start_pfn) n.start_pfn pfn e in
        let g = take_page0-Granted p h pfn free le (omega (arith, h.counted0.ordered)) in
        subst (FromNode p n) (sym (alloc_from_node-some p 0 known pfn e)) (
          granted pfn (addr_exact pfn p.highest_page g.below h.fits) le
            (omega (arith, h.counted0.ordered)) g)
  ]
    where
      n : NumaNode
      n = p.node0

      known : 0 < p.numa_node_count
      known = omega (arith, h.two)

  pub alloc1 : FromNode p p.node1 (alloc_from_node 1 p)
  alloc1 = elim (Option-cases (first_free p (n.end_pfn - n.start_pfn) n.start_pfn)) [
    | inl e ↦
        denied (alloc_from_node-none p 1 known e)
          (first_free-none p (n.end_pfn - n.start_pfn) n.start_pfn e)
    | inr (pfn, e) ↦
        let (le, lt, free, before) =
          first_free-some p (n.end_pfn - n.start_pfn) n.start_pfn pfn e in
        let g = take_page1-Granted p h pfn free le (omega (arith, h.counted1.ordered)) in
        subst (FromNode p n) (sym (alloc_from_node-some p 1 known pfn e)) (
          granted pfn (addr_exact pfn p.highest_page g.below h.fits) le
            (omega (arith, h.counted1.ordered)) g)
  ]
    where
      n : NumaNode
      n = p.node1

      known : 1 < p.numa_node_count
      known = omega (arith, h.two)
