-- ===== src/Vmm/Spaces.antt =====
-- kernel/mm/vmm.c: directories of processes, made and destroyed.
use zenedge.Common.{ℕ, zero, suc, ◌+◌, ◌-◌, not, ◌&&◌, ◌==◌, if◌then◌else◌, Memory}
use zenedge.Pmm.{Pmm, numa_node_local, alloc_page, free_page}
use zenedge.Vmm.{
  Vmm, kernel_vbase_pde, page_entries, entry_at, set_entry, zero_entries, has_bit, is_present,
  pte_addr,
}

-- `n` entries from entry `i` on are copied.
unfoldable copy_entries : ℕ → ℕ → ℕ → ℕ → Memory → Memory
copy_entries zero i to from m = m
copy_entries (suc n) i to from m =
    copy_entries n (i + 1) to from (set_entry to i (entry_at m from i) m)

abbrev fill_pd : ℕ → ℕ → Memory → Memory
fill_pd new kernel m =
    copy_entries (page_entries - kernel_vbase_pde) kernel_vbase_pde new kernel
      (copy_entries 1 0 new kernel (zero_entries (kernel_vbase_pde - 1) 1 new m))

unfoldable create_user_pd : Vmm → ℕ × Vmm
unfolding copy_entries
create_user_pd v =
    let r = alloc_page numa_node_local v.pmm in
    if r.0 == 0
    then (0, record v { pmm = r.1 })
    else (r.0, record v { pmm = r.1; memory = fill_pd r.0 v.current_pd_phys v.memory })

-- The pages of `n` entries from entry `i` on are freed.
unfoldable free_mapped : ℕ → ℕ → ℕ → Memory → Pmm → Pmm
free_mapped zero i pt m p = p
free_mapped (suc n) i pt m p =
    let e = entry_at m pt i in
    free_mapped n (i + 1) pt m (if is_present e then free_page (pte_addr e) p else p)

-- What is freed for one entry of the directory: nothing for a large page.
abbrev free_table : ℕ → Memory → Pmm → Pmm
free_table e m p =
    if is_present e && not (has_bit e 7)
    then free_page (pte_addr e) (free_mapped page_entries 0 (pte_addr e) m p)
    else p

unfoldable free_tables : ℕ → ℕ → ℕ → Memory → Pmm → Pmm
free_tables zero i pd m p = p
free_tables (suc n) i pd m p = free_tables n (i + 1) pd m (free_table (entry_at m pd i) m p)

unfoldable destroy_user_pd : ℕ → Vmm → Vmm
destroy_user_pd pd_phys v = record v {
  pmm = free_page pd_phys (free_tables kernel_vbase_pde 0 pd_phys v.memory v.pmm);
}
