-- ===== src/Vmm/Keep.antt =====
-- Mapping a page in vmm.c: the tables stay pages of their own, and other pages stay mapped as they were.
use mathlib.Core.Path.{subst}
use Prim.Native.Nat.{bit_or}
use zenedge.Common.{
  ℕ, ◌*◌, ◌<◌, ◌≡◌, ◌≢◌, ◌⊎◌, refl, sym, ◌∙◌, ap, true, false, arith, inl, inr, ◌==◌, if◌then◌else◌,
  Bool-cases, Status, ok, failed,
}
use zenedge.Pmm.{page_size, numa_node_local, alloc_page}
use zenedge.Pmm.Alloc.{Granted}
use zenedge.Pmm.Alloc.Page.{local, remote, out_of_memory, alloc_page-Outcome}
use zenedge.Vmm.{
  Vmm, pde_index, pte_index, page_offset, pte_addr, make_pte, is_present, entry_of, ensure_table,
  write_mapping, map_page, virt_to_phys,
}
use zenedge.Vmm.Tree.{
  pde_at, is_table, IsSmall, IsTree, IsTree-written, pde-written, entry_of-written, written,
}
use zenedge.Vmm.Grow.{
  page, grown, IsTree-grown, IsSmall-grown, pde-other, table-here, entry_of-grown,
}

-- What `ensure_table` keeps.
record Grows (vaddr : ℕ) (v w : Vmm) : Type 0 where
  tree : IsTree w
  same : (x : ℕ) → IsSmall v x → entry_of x w ≡ entry_of x v
  small : (x : ℕ) → IsSmall v x → IsSmall w x
  others : (i : ℕ) → i < 1024 → i ≢ pde_index vaddr → pde_at w i ≡ pde_at v i
  there : is_table (pde_at w (pde_index vaddr)) ≡ true

data Growth (vaddr : ℕ) (v : Vmm) (r : Status × Vmm) : Type 0 where
  stopped : (w : Vmm) → r ≡ (failed, w) → ((x : ℕ) → entry_of x w ≡ entry_of x v) → Growth vaddr v r
  grew : (w : Vmm) → r ≡ (ok, w) → Grows vaddr v w → Growth vaddr v r

module _ (vaddr : ℕ) (v : Vmm) (h : IsTree v) (flat : IsSmall v vaddr) where
  pde : ℕ
  pde = pde_index vaddr

  grow :
      (pfn : ℕ)
      → is_present (pde_at v pde) ≡ false
      → (alloc_page numa_node_local v.pmm).0 ≡ pfn * page_size
      → Granted v.pmm pfn (alloc_page numa_node_local v.pmm).1
      → Growth vaddr v (ensure_table pde v)
  unfolding ensure_table grown page pde
  grow pfn m e g =
      let some : (pfn * page_size == 0) ≡ false = ground (arith, g.above) in
      grew (grown pde pfn v h (omega arith) m g) (rw (m, e, some) refl) (record {
        tree = IsTree-grown pde pfn v h (omega arith) m g;
        same = entry_of-grown pde pfn v h (omega arith) m g;
        small = IsSmall-grown pde pfn v h (omega arith) m g;
        others = pde-other pde pfn v h (omega arith) m g;
        there = table-here pde pfn v h (omega arith) m g;
      })

  ensure_table-Growth : Growth vaddr v (ensure_table pde v)
  unfolding ensure_table pde
  ensure_table-Growth = elim (Bool-cases (is_present (pde_at v pde))) [
    | inl p ↦ grew v (rw p refl) (record {
      tree = h;
      same = λ x s. refl;
      small = λ x s. s;
      others = λ i lt ne. refl;
      there = rw (p, flat) refl;
    })
    | inr m ↦ elim (alloc_page-Outcome v.pmm h.pmm).0 [
      | local pfn e _ _ g ↦ grow pfn m e g
      | remote pfn e _ _ _ g ↦ grow pfn m e g
      | out_of_memory e _ _ _ ↦
          stopped (record v { pmm = (alloc_page numa_node_local v.pmm).1 }) (rw (m, e) refl)
            (λ x. refl)
    ]
  ]

-- Two addresses of different pages.
abbrev AreOther : ℕ → ℕ → Type 0
AreOther x vaddr = (pde_index x ≢ pde_index vaddr) ⊎ (pte_index x ≢ pte_index vaddr)

-- What a mapping keeps.
pub data MapKeeps (vaddr : ℕ) (v : Vmm) : Status × Vmm → Type 0 where
  failed_keeps :
      (w : Vmm) → ((x : ℕ) → virt_to_phys x w ≡ virt_to_phys x v) → MapKeeps vaddr v (failed, w)
  mapped_keeps :
      (w : Vmm)
      → IsTree w
      → ((x : ℕ) → IsSmall v x → AreOther x vaddr → virt_to_phys x w ≡ virt_to_phys x v)
      → ((i : ℕ) → i < 1024 → i ≢ pde_index vaddr → pde_at w i ≡ pde_at v i)
      → MapKeeps vaddr v (ok, w)

by_entry : (x : ℕ) (v w : Vmm) → entry_of x w ≡ entry_of x v → virt_to_phys x w ≡ virt_to_phys x v
unfolding virt_to_phys
by_entry x v w e = ap (λ y. if is_present y then bit_or (pte_addr y) (page_offset x) else 0) e

module _ (vaddr paddr flags : ℕ) (v : Vmm) where
  write_mapping-MapKeeps :
      (r : Status × Vmm) → Growth vaddr v r → MapKeeps vaddr v (write_mapping vaddr paddr flags r)
  unfolding written
  write_mapping-MapKeeps r (stopped w e same) =
      subst (λ x. MapKeeps vaddr v (write_mapping vaddr paddr flags x)) (sym e)
        (failed_keeps w (λ x. by_entry x v w (same x)))
  write_mapping-MapKeeps r (grew w e k) =
      let pte = make_pte paddr flags in
      let t = written vaddr pte w k.tree k.there in
      subst (λ x. MapKeeps vaddr v (write_mapping vaddr paddr flags x)) (sym e)
        (mapped_keeps t (IsTree-written vaddr pte w k.tree k.there)
          (λ x flat ne.
            by_entry x v t
              (entry_of-written vaddr pte w k.tree k.there x (k.small x flat) ne ∙ k.same x flat))
          (λ i lt ne. pde-written vaddr pte w k.tree k.there i lt ∙ k.others i lt ne))

  -- Where the page allocator's accounts hold and the active directory and the tables that it leads
  -- to are pages in use of their own, beside whatever large pages it has, mapping a page at an
  -- address in no large page leaves the translation of every other page's addresses that are in no
  -- large page as it was, with or without success. With success every other entry of the directory
  -- is as it was, and the directory and the tables are again pages in use of their own.
  pub map_page-MapKeeps :
      IsTree v → IsSmall v vaddr → MapKeeps vaddr v (map_page vaddr paddr flags v)
  unfolding map_page pde
  map_page-MapKeeps h flat =
      write_mapping-MapKeeps (ensure_table (pde_index vaddr) v) (ensure_table-Growth vaddr v h flat)
