-- ===== src/Vmm/Tests.antt =====
-- Runs of vmm.c over a small machine, and the theorems at them.
use zenedge.Common.{ℕ, ◌+◌, ◌≡◌, refl, true, false, arith, read32, write32, clash}
use zenedge.Bitmap.{bitmap_test}
use zenedge.Pmm.Sample.{small, small-IsConsistent}
use zenedge.Vmm.{Vmm, init, map_large, map_page, unmap_page, virt_to_phys, entry_of, is_present}
use zenedge.Vmm.Translate.{HasTable, MapOutcome, map_page-MapOutcome, unmap_page-virt_to_phys}
use zenedge.Vmm.Tree.{IsTree, IsSmall, pde_at}
use zenedge.Vmm.Kernel.{HasNoTable, set_large, init-IsTree}
use zenedge.Vmm.Keep.{MapKeeps, map_page-MapKeeps}

-- An empty directory in a page that is in use.
abbrev bare : Vmm
bare = record { cr3 = 0x100000; current_pd_phys = 0x100000; memory = λ a. 0; pmm = small }

no_entries : (i : ℕ) → is_present (pde_at bare i) ≡ false
unfolding read32
no_entries i = refl

map_page-MapOutcome_example :
    MapOutcome 0x400123 0x200000 3 bare (map_page 0x400123 0x200000 3 bare)
unfolding bitmap_test
map_page-MapOutcome_example =
    map_page-MapOutcome 0x400123 0x200000 3 bare (omega arith) (omega arith) refl small-IsConsistent
      refl (λ p. absurd (clash p (no_entries 1)))

-- The kernel's directory: the first 4 MB are mapped by the boot code, the rest by vmm_init.
abbrev booted : Vmm
booted = record bare { memory = write32 0x100000 0x83 (λ a. 0) }

abbrev kernel : Vmm
kernel = init booted

none_mapped : HasNoTable 0x100000 refl (λ a. 0)
unfolding read32
none_mapped j lt = refl

kernel-IsTree : IsTree kernel
unfolding bitmap_test
kernel-IsTree = init-IsTree booted small-IsConsistent refl (
    set_large 0x100000 refl 0 0 0x83 (λ a. 0) (omega arith) (omega arith) (omega arith)
      (omega arith) none_mapped)

-- Both 0 and the kernel's base are in large pages at physical address 0.
large_pages :
    (pde_at kernel 0 ≡ 0x83) × (pde_at kernel 768 ≡ 0x183) × (pde_at kernel 769 ≡ 0x400183)
unfolding init map_large read32 write32
large_pages = (refl, refl, refl)

kernel-IsSmall : IsSmall kernel 0x400123
unfolding init map_large read32 write32
kernel-IsSmall = refl

map_page-MapKeeps_example : MapKeeps 0x400123 kernel (map_page 0x400123 0x200000 3 kernel)
map_page-MapKeeps_example =
    map_page-MapKeeps 0x400123 0x200000 3 kernel kernel-IsTree kernel-IsSmall

-- The same page mapped through a table at 0x101000.
abbrev one_page : Vmm
one_page = record bare { memory = write32 0x100004 0x101007 (write32 0x101000 0x200003 (λ a. 0)) }

one_page-HasTable : HasTable 0x400123 one_page
unfolding read32 write32
one_page-HasTable = record { present = refl; apart = λ e. absurd (omega arith) }

one_page_present : is_present (entry_of 0x400123 one_page) ≡ true
unfolding read32 write32
one_page_present = refl

unmap_page-virt_to_phys_example :
    (virt_to_phys 0x400123 one_page ≡ (unmap_page 0x400123 one_page).0 + 0x123)
    × (virt_to_phys 0x400123 (unmap_page 0x400123 one_page).1 ≡ 0)
unmap_page-virt_to_phys_example =
    unmap_page-virt_to_phys 0x400123 one_page one_page-HasTable one_page_present

translated : virt_to_phys 0x400123 one_page ≡ 0x200123
unfolding virt_to_phys read32 write32
translated = refl
