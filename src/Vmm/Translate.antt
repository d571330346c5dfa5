-- ===== src/Vmm/Translate.antt =====
-- Mapping a page and translating its addresses, in vmm.c.
use mathlib.Core.Path.{subst}
use Prim.Native.Nat.{bit_or}
use zenedge.Common.{
  ℕ, ◌+◌, ◌*◌, ◌/◌, ◌%◌, ◌^◌, ◌<◌, ◌≡◌, ◌≢◌, refl, sym, ◌∙◌, ap, true, false, arith, inl, inr, ◌==◌,
  if◌then◌else◌, Bool-cases, clash, Status, ok, failed,
}
use zenedge.Pmm.{page_size, numa_node_local, alloc_page, is_used}
use zenedge.Pmm.Nodes.{IsConsistent}
use zenedge.Pmm.Alloc.{Granted, IsExhausted}
use zenedge.Pmm.Alloc.Page.{local, remote, out_of_memory, alloc_page-Outcome}
use zenedge.Vmm.{
  Vmm, active_pd, pde_index, pte_index, page_offset, pte_addr, make_pte, is_present, entry_at,
  set_entry, table_of, entry_of, ensure_table, install, write_mapping, map_page, unmap_page,
  virt_to_phys, zero_entries, page_entries,
}
use zenedge.Vmm.Entry.{
  or_low, make_pte-lt, pte_addr-make_pte, is_present-make_pte, entry_at-set_entry,
  entry_at-set_entry_ne,
}

-- The directory has a table for an address, and it is not the directory itself.
pub record HasTable (vaddr : ℕ) (v : Vmm) : Type 0 where
  pub present : is_present (entry_at v.memory (active_pd v) (pde_index vaddr)) ≡ true
  pub apart : table_of vaddr v ≢ active_pd v

module _ (vaddr e : ℕ) (v : Vmm) (h : HasTable vaddr v) (small : e < 2 ^ 32) where
  -- The state with the entry for the address written.
  with_entry : Vmm
  with_entry = record v { memory = set_entry (table_of vaddr v) (pte_index vaddr) e v.memory }

  pde-with_entry :
      entry_at with_entry.memory (active_pd v) (pde_index vaddr)
      ≡ entry_at v.memory (active_pd v) (pde_index vaddr)
  unfolding with_entry
  pde-with_entry =
      entry_at-set_entry_ne v.memory (table_of vaddr v) (active_pd v) (pte_index vaddr)
        (pde_index vaddr) e (omega arith) (omega arith) (omega arith) (omega arith) (inl h.apart)

  entry_of-with_entry : entry_of vaddr with_entry ≡ e
  unfolding with_entry
  entry_of-with_entry =
      rw (pde-with_entry, h.present)
        (entry_at-set_entry v.memory (table_of vaddr v) (pte_index vaddr) e small)

  HasTable-with_entry : HasTable vaddr with_entry
  unfolding with_entry
  HasTable-with_entry = record {
    present = rw pde-with_entry h.present;
    apart = rw pde-with_entry h.apart;
  }

module _ (vaddr : ℕ) (v : Vmm) where
  virt_to_phys-entry :
      (e : ℕ)
      → entry_of vaddr v ≡ e
      → is_present e ≡ true
      → virt_to_phys vaddr v ≡ pte_addr e + page_offset vaddr
  unfolding virt_to_phys
  virt_to_phys-entry e q p =
      ap (λ x. if is_present x then bit_or (pte_addr x) (page_offset vaddr) else 0) q
      ∙ ap (λ b. if b then bit_or (pte_addr e) (page_offset vaddr) else 0) p
      ∙ or_low e (page_offset vaddr) (omega arith)

-- A state after a failure for want of memory: there was no table for the address and no free page in
-- either node, and the memory and the directory are as they were.
pub record IsStarved (vaddr : ℕ) (v w : Vmm) : Type 0 where
  pub missing : is_present (entry_at v.memory (active_pd v) (pde_index vaddr)) ≡ false
  pub node0 : IsExhausted v.pmm v.pmm.node0
  pub node1 : IsExhausted v.pmm v.pmm.node1
  pub same_memory : w.memory ≡ v.memory
  pub same_cr3 : w.cr3 ≡ v.cr3

-- What `ensure_table` comes to.
data TableOutcome (vaddr : ℕ) (v : Vmm) (r : Status × Vmm) : Type 0 where
  no_table : (w : Vmm) → r ≡ (failed, w) → IsStarved vaddr v w → TableOutcome vaddr v r
  table : (w : Vmm) → r ≡ (ok, w) → HasTable vaddr w → w.cr3 ≡ v.cr3 → TableOutcome vaddr v r

module _ (vaddr : ℕ) (v : Vmm) (h : IsConsistent v.pmm)
    (in_use : is_used v.pmm (active_pd v / 4096) ≡ true)
    (own : is_present (entry_at v.memory (active_pd v) (pde_index vaddr)) ≡ true
      → table_of vaddr v ≢ active_pd v) where
  pub after_alloc : Vmm
  after_alloc = record v { pmm = (alloc_page numa_node_local v.pmm).1 }

  HasTable-install :
      (pfn : ℕ)
      → Granted v.pmm pfn (alloc_page numa_node_local v.pmm).1
      → HasTable vaddr (install (pde_index vaddr) (pfn * page_size) after_alloc)
  unfolding after_alloc
  HasTable-install pfn g =
      let pt = pfn * page_size in
      let small : pt < 2 ^ 32 = omega (arith, g.below, h.fits) in
      let here =
        entry_at-set_entry (zero_entries page_entries 0 pt v.memory) (active_pd v) (pde_index vaddr)
          (make_pte pt 7) (make_pte-lt pt 7 small (omega arith)) in
      let page : pte_addr (make_pte pt 7) ≡ pt =
        pte_addr-make_pte pt 7 small (omega arith) ∙ omega arith in
      let away : pt ≢ active_pd v = λ q.
        let at : active_pd v / 4096 ≡ pfn = omega arith in
        clash (ap (is_used v.pmm) (sym at) ∙ in_use) g.was_free in
      record {
        present = rw here (is_present-make_pte pt 7 small (omega arith) refl);
        apart = rw (here, page) away;
      }

  IsMissing : Type 0
  IsMissing = is_present (entry_at v.memory (active_pd v) (pde_index vaddr)) ≡ false

  new_table :
      (pfn : ℕ)
      → IsMissing
      → (alloc_page numa_node_local v.pmm).0 ≡ pfn * page_size
      → Granted v.pmm pfn (alloc_page numa_node_local v.pmm).1
      → TableOutcome vaddr v (ensure_table (pde_index vaddr) v)
  unfolding IsMissing ensure_table after_alloc
  new_table pfn m e g =
      let some : (pfn * page_size == 0) ≡ false = ground (arith, g.above) in
      table (install (pde_index vaddr) (pfn * page_size) after_alloc) (rw (m, e, some) refl)
        (HasTable-install pfn g) refl

  ensure_table-TableOutcome : TableOutcome vaddr v (ensure_table (pde_index vaddr) v)
  unfolding ensure_table IsMissing after_alloc
  ensure_table-TableOutcome =
      elim (Bool-cases (is_present (entry_at v.memory (active_pd v) (pde_index vaddr)))) [
        | inl p ↦ table v (rw p refl) (record { present = p; apart = own p }) refl
        | inr m ↦ elim (alloc_page-Outcome v.pmm h).0 [
          | local pfn e _ _ g ↦ new_table pfn m e g
          | remote pfn e _ _ _ g ↦ new_table pfn m e g
          | out_of_memory e ex ex' _ ↦
              no_table after_alloc (rw (m, e) refl) (record {
                missing = m;
                node0 = ex;
                node1 = ex';
                same_memory = refl;
                same_cr3 = refl;
              })
        ]
      ]

-- What mapping a page comes to.
pub data MapOutcome (vaddr paddr flags : ℕ) (v : Vmm) : Status × Vmm → Type 0 where
  no_memory : (w : Vmm) → IsStarved vaddr v w → MapOutcome vaddr paddr flags v (failed, w)
  mapped :
      (w : Vmm)
      → w.cr3 ≡ v.cr3
      → HasTable vaddr w
      → entry_of vaddr w ≡ make_pte paddr flags
      → virt_to_phys vaddr w ≡ pte_addr paddr + page_offset vaddr
      → MapOutcome vaddr paddr flags v (ok, w)

module _ (vaddr paddr flags : ℕ) (v : Vmm) (small : paddr < 2 ^ 32) (low : flags < 4096)
    (odd : flags % 2 ≡ 1) where
  write_mapping-MapOutcome :
      (r : Status × Vmm)
      → TableOutcome vaddr v r
      → MapOutcome vaddr paddr flags v (write_mapping vaddr paddr flags r)
  unfolding with_entry
  write_mapping-MapOutcome r (no_table w e starved) =
      subst (λ x. MapOutcome vaddr paddr flags v (write_mapping vaddr paddr flags x)) (sym e)
        (no_memory w starved)
  write_mapping-MapOutcome r (table w e h c) =
      let pte = make_pte paddr flags in
      let lt = make_pte-lt paddr flags small low in
      let there = entry_of-with_entry vaddr pte w h lt in
      let to =
        virt_to_phys-entry vaddr (with_entry vaddr pte w h lt) pte there
          (is_present-make_pte paddr flags small low odd)
        ∙ ap (λ a. a + page_offset vaddr) (pte_addr-make_pte paddr flags small low) in
      subst (λ x. MapOutcome vaddr paddr flags v (write_mapping vaddr paddr flags x)) (sym e)
        (mapped (with_entry vaddr pte w h lt) c (HasTable-with_entry vaddr pte w h lt) there to)

  -- Over a consistent page allocator in which the page of the active directory is in use, where the
  -- directory is not its own table for the address: mapping a page to an address of 32 bits with
  -- flags of 12 bits, the present one among them, either fails, where the directory has no table
  -- for the address and neither node of the allocator a free page, and leaves the memory as it was,
  -- or afterwards every address of the page translates to the same offset in the physical page.
  pub map_page-MapOutcome :
      IsConsistent v.pmm
      → is_used v.pmm (active_pd v / 4096) ≡ true
      → (is_present (entry_at v.memory (active_pd v) (pde_index vaddr)) ≡ true
          → table_of vaddr v ≢ active_pd v)
      → MapOutcome vaddr paddr flags v (map_page vaddr paddr flags v)
  unfolding map_page
  map_page-MapOutcome h in_use own =
      write_mapping-MapOutcome (ensure_table (pde_index vaddr) v)
        (ensure_table-TableOutcome vaddr v h in_use own)

module _ (vaddr : ℕ) (v : Vmm) (h : HasTable vaddr v)
    (p : is_present (entry_of vaddr v) ≡ true) where
  unmapped : Vmm
  unmapped = with_entry vaddr 0 v h (omega arith)

  unmap_page-present : unmap_page vaddr v ≡ (pte_addr (entry_of vaddr v), unmapped)
  unfolding unmap_page unmapped with_entry
  unmap_page-present = ap (λ b. if b then (pte_addr (entry_of vaddr v), unmapped) else (0, v)) p

  virt_to_phys-unmapped : virt_to_phys vaddr unmapped ≡ 0
  unfolding virt_to_phys unmapped
  virt_to_phys-unmapped =
      ap (λ x. if is_present x then bit_or (pte_addr x) (page_offset vaddr) else 0)
        (entry_of-with_entry vaddr 0 v h (omega arith))

  -- Where a page is mapped through a table of its directory, unmapping it gives the physical page, to
  -- which its addresses were translated with their offset, and they translate to 0 afterwards.
  pub unmap_page-virt_to_phys :
      (virt_to_phys vaddr v ≡ (unmap_page vaddr v).0 + page_offset vaddr)
      × (virt_to_phys vaddr (unmap_page vaddr v).1 ≡ 0)
  unmap_page-virt_to_phys = (
    virt_to_phys-entry vaddr v (entry_of vaddr v) refl p
        ∙ ap (λ r. r.0 + page_offset vaddr) (sym unmap_page-present),
    ap (λ r. virt_to_phys vaddr r.1) unmap_page-present ∙ virt_to_phys-unmapped,
  )
