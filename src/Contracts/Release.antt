-- ===== src/Contracts/Release.antt =====
-- `contract_free_page`: what it undoes, and what a double free does to the account.
use zenedge.Common.{
  ◌-◌, ◌∙◌, ◌≢◌, ◌^◌, ℕ, ◌+◌, ◌*◌, ◌^◌, ◌<◌, ◌≤◌, ◌≡◌, refl, ap, true, false, leb, ◌==◌, u32, arith,
  inl, inr,
}
use zenedge.Pmm.Free.Undo.{free_page-Granted}
use zenedge.Pmm.{addr_to_pfn, is_used, free_page, Pmm, page_size}
use zenedge.Bitmap.{bitmap_test}
use zenedge.Pmm.{pmm_max_pages}
use zenedge.Pmm.Nodes.{IsConsistent}
use zenedge.Zalloc.{Zalloc, zenedge_free_page}
use zenedge.Contracts.State.{TaskContract}
use zenedge.Contracts.Ops.{contract_alloc_page, contract_free_page, page_kb}
use zenedge.Contracts.Pages.{
  PageOutcome, in_safe_mode, over_budget, no_page, page, contract_alloc_page-PageOutcome,
}
use zenedge.Pmm.Free.{free_page_kept}
use zenedge.Pmm.Free.Undo.{free_page_done}

-- What `contract_free_page` leaves of the contract and of the pages.
contract_free_page_lem :
    (addr : ℕ) (c : TaskContract) (z : Zalloc)
    → (addr == 0) ≡ false
    → page_kb ≤ c.mem_used_kb
    → ((contract_free_page addr c z).0 ≡ record c { mem_used_kb = c.mem_used_kb - page_kb })
      × ((contract_free_page addr c z).1.pmm.page_bitmap ≡ (free_page (u32 addr) z.pmm).page_bitmap)
      × ((contract_free_page addr c z).1.pmm.free_pages ≡ (free_page (u32 addr) z.pmm).free_pages)
      × ((contract_free_page addr c z).1.pmm.highest_page
          ≡ (free_page (u32 addr) z.pmm).highest_page)
unfolding contract_free_page zenedge_free_page
contract_free_page_lem addr c z e le =
    let charged : leb page_kb c.mem_used_kb ≡ true = ground arith in
    (rw (e, charged) refl, rw e refl, rw e refl, rw e refl)

module _ (c : TaskContract) (z : Zalloc) (h : IsConsistent z.pmm)
    (small : c.mem_used_kb + page_kb < 2 ^ 32) where
  -- Where the allocator's accounts hold and charging a page fits 32 bits: a page that the contract was
  -- granted can be freed, and the contract is then what it was, and so are the pages in use and the
  -- number of free pages.
  pub contract_free_page-contract_alloc_page :
      (contract_alloc_page c z).0 ≢ 0
      → let (addr, (c1, z1)) = contract_alloc_page c z in
        let (c2, z2) = contract_free_page addr c1 z1 in
        (c2 ≡ c)
        × ((j : ℕ) → is_used z2.pmm j ≡ is_used z.pmm j)
        × (z2.pmm.free_pages ≡ z.pmm.free_pages)
  contract_free_page-contract_alloc_page some_page =
      undone (contract_alloc_page c z) some_page (contract_alloc_page-PageOutcome c z h small)
    where
      Undone : ℕ → TaskContract × Zalloc → Type 0
      Undone addr s =
          ((contract_free_page addr s.0 s.1).0 ≡ c)
          × ((j : ℕ) → is_used (contract_free_page addr s.0 s.1).1.pmm j ≡ is_used z.pmm j)
          × ((contract_free_page addr s.0 s.1).1.pmm.free_pages ≡ z.pmm.free_pages)

      undone : (r : ℕ × (TaskContract × Zalloc)) → r.0 ≢ 0 → PageOutcome c z r → Undone r.0 r.1
      undone r ne (in_safe_mode e e0 ec same) = absurd (ne e0)
      undone r ne (over_budget on lt e0 eu ev same) = absurd (ne e0)
      undone r ne (no_page on fits ex ex' e0 ec same) = absurd (ne e0)
      undone r ne (page on pfn e ec le g) =
          let nonzero : (r.0 == 0) ≡ false = ground arith in
          let exact : u32 r.0 ≡ pfn * page_size = omega (arith, g.below, h.fits) in
          let charged : r.1.0.mem_used_kb ≡ c.mem_used_kb + page_kb = ap (λ x. x.mem_used_kb) ec in
          let back : r.1.0.mem_used_kb - page_kb ≡ c.mem_used_kb = omega arith in
          let (contract, bitmap, count, top) =
            contract_free_page_lem r.0 r.1.0 r.1.1 nonzero (omega arith) in
          let (used, free) = free_page-Granted z.pmm pfn r.1.1.pmm g in
          (
            contract
                ∙ ap (λ kb. record r.1.0 { mem_used_kb = kb }) back
                ∙ ap (λ (x : TaskContract). record x { mem_used_kb = c.mem_used_kb }) ec,
            (λ j.
                ap (λ bm. bitmap_test pmm_max_pages bm j) bitmap
                ∙ ap (λ a. is_used (free_page a r.1.1.pmm) j) exact
                ∙ used j),
            count ∙ ap (λ a. (free_page a r.1.1.pmm).free_pages) exact ∙ free,
          )

-- Where the allocator's accounts hold and two pages are on the account, freeing an address that is not 0
-- twice through a contract takes two pages off the account, though the second time the bitmap and the
-- number of free pages stay as they are.
pub contract_free_page_twice :
    (addr : ℕ) (c : TaskContract) (z : Zalloc)
    → IsConsistent z.pmm
    → addr ≢ 0
    → 2 * page_kb ≤ c.mem_used_kb
    → let (c1, z1) = contract_free_page addr c z in
      let (c2, z2) = contract_free_page addr c1 z1 in
      (c2.mem_used_kb + 2 * page_kb ≡ c.mem_used_kb)
      × (z2.pmm.page_bitmap ≡ z1.pmm.page_bitmap)
      × (z2.pmm.free_pages ≡ z1.pmm.free_pages)
contract_free_page_twice addr c z h ne le = (
  ap (λ (x : TaskContract). x.mem_used_kb + 2 * page_kb) second.0 ∙ omega (arith, charged),
  second.1 ∙ ap (λ (p : Pmm). p.page_bitmap) kept,
  second.2 ∙ ap (λ (p : Pmm). p.free_pages) kept,
)
  where
    nonzero : (addr == 0) ≡ false
    nonzero = ground arith

    s1 : TaskContract × Zalloc
    s1 = contract_free_page addr c z

    first :
        (s1.0 ≡ record c { mem_used_kb = c.mem_used_kb - page_kb })
        × (s1.1.pmm.page_bitmap ≡ (free_page (u32 addr) z.pmm).page_bitmap)
        × (s1.1.pmm.free_pages ≡ (free_page (u32 addr) z.pmm).free_pages)
        × (s1.1.pmm.highest_page ≡ (free_page (u32 addr) z.pmm).highest_page)
    first = contract_free_page_lem addr c z nonzero (omega arith)

    charged : s1.0.mem_used_kb ≡ c.mem_used_kb - page_kb
    charged = ap (λ (x : TaskContract). x.mem_used_kb) first.0

    second :
        ((contract_free_page addr s1.0 s1.1).0
          ≡ record s1.0 { mem_used_kb = s1.0.mem_used_kb - page_kb })
        × ((contract_free_page addr s1.0 s1.1).1.pmm.page_bitmap
            ≡ (free_page (u32 addr) s1.1.pmm).page_bitmap)
        × ((contract_free_page addr s1.0 s1.1).1.pmm.free_pages
            ≡ (free_page (u32 addr) s1.1.pmm).free_pages)
        × ((contract_free_page addr s1.0 s1.1).1.pmm.highest_page
            ≡ (free_page (u32 addr) s1.1.pmm).highest_page)
    second = contract_free_page_lem addr s1.0 s1.1 nonzero (omega (arith, charged))

    kept : free_page (u32 addr) s1.1.pmm ≡ s1.1.pmm
    kept = free_page_kept (u32 addr) s1.1.pmm (elim (free_page_done (u32 addr) z.pmm h) [
      | inl above ↦ inl (omega (arith, first.3))
      | inr clear ↦
          inr (ap (λ bm. bitmap_test pmm_max_pages bm (addr_to_pfn (u32 addr))) first.1 ∙ clear)
    ])
