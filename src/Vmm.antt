-- ===== src/Vmm.antt =====
-- kernel/mm/vmm.c and vmm.h: page directories and page tables in physical memory, named without vmm_.
-- The memory is bytes by physical address; the code reaches it at KERNEL_VBASE above. CR3 is a field,
-- and what invlpg and a reload of CR3 do to the TLB is not modelled.
pub mod Spaces
pub mod Entry
pub mod Translate
pub mod Tree
pub mod Grow
pub mod Keep
pub mod Kernel
pub mod Tests
use Prim.Native.Nat.{bit_or}
use zenedge.Common.{
  ℕ, zero, suc, ◌+◌, ◌-◌, ◌*◌, ◌/◌, ◌%◌, ◌^◌, Bool, true, false, not, ◌==◌, if◌then◌else◌, u32,
  Memory, read32, write32, Status, ok, failed,
}
use zenedge.Pmm.{Pmm, page_size, numa_node_local, alloc_page, note}
use zenedge.FlightRec.{boot}

abbrev pub kernel_vbase : ℕ
kernel_vbase = 0xC0000000

abbrev pub kernel_vbase_pde : ℕ
kernel_vbase_pde = 768

abbrev pub page_entries : ℕ
page_entries = 1024

abbrev pte_present : ℕ
pte_present = 1

abbrev pte_writable : ℕ
pte_writable = 2

abbrev pte_user : ℕ
pte_user = 4

abbrev pte_pse : ℕ
pte_pse = 128

abbrev pte_global : ℕ
pte_global = 256

abbrev pub pde_index : ℕ → ℕ
pde_index vaddr = vaddr / 2 ^ 22 % 1024

abbrev pub pte_index : ℕ → ℕ
pte_index vaddr = vaddr / 2 ^ 12 % 1024

abbrev pub page_offset : ℕ → ℕ
page_offset vaddr = vaddr % 4096

-- `entry & 0xFFFFF000`
abbrev pub pte_addr : ℕ → ℕ
pte_addr entry = entry / 4096 * 4096

abbrev pub make_pte : ℕ → ℕ → ℕ
make_pte paddr flags = bit_or (pte_addr paddr) flags

-- The flag of bit `k`, PTE_PRESENT is bit 0 and PTE_PSE is bit 7.
abbrev pub has_bit : ℕ → ℕ → Bool
has_bit entry k = entry / 2 ^ k % 2 == 1

abbrev pub is_present : ℕ → Bool
is_present entry = has_bit entry 0

abbrev phys_to_virt : ℕ → ℕ
phys_to_virt paddr = u32 (paddr + kernel_vbase)

-- `vaddr - KERNEL_VBASE` in 32 bits.
abbrev virt_to_phys_linear : ℕ → ℕ
virt_to_phys_linear vaddr = u32 (vaddr + 2 ^ 32 - kernel_vbase)

pub record Vmm : Type 0 where
  pub cr3 : ℕ
  pub current_pd_phys : ℕ
  pub memory : Memory
  pub pmm : Pmm

-- Entry `i` of the directory or the table at a physical address.
abbrev pub entry_at : Memory → ℕ → ℕ → ℕ
entry_at m table i = read32 m (table + 4 * i)

abbrev pub set_entry : ℕ → ℕ → ℕ → Memory → Memory
set_entry table i e m = write32 (table + 4 * i) e m

abbrev pub active_pd : Vmm → ℕ
active_pd v = pte_addr v.cr3

-- The large pages of the kernel, `n` of them from page `i` on.
unfoldable pub map_large : ℕ → ℕ → ℕ → Memory → Memory
map_large zero i pd m = m
map_large (suc n) i pd m = map_large n (i + 1) pd (
    set_entry pd (kernel_vbase_pde + i)
      (make_pte (i * 0x400000)
        (bit_or (bit_or (bit_or pte_present pte_writable) pte_pse) pte_global))
      m)

unfoldable pub init : Vmm → Vmm
unfolding map_large
init v =
    let pd = active_pd v in
    record v {
      current_pd_phys = pd;
      memory = map_large 32 0 pd v.memory;
      pmm = note boot 0 0 0xC0DE v.pmm;
    }

abbrev get_current_pd : Vmm → ℕ
get_current_pd v = v.current_pd_phys

abbrev switch_pd : ℕ → Vmm → Vmm
switch_pd pd_phys v = record v { current_pd_phys = pd_phys; cr3 = pd_phys }

-- `n` entries from entry `i` on become 0.
unfoldable pub zero_entries : ℕ → ℕ → ℕ → Memory → Memory
zero_entries zero i table m = m
zero_entries (suc n) i table m = zero_entries n (i + 1) table (set_entry table i 0 m)

-- The table at `pt` is cleared and installed in the directory.
abbrev pub install : ℕ → ℕ → Vmm → Vmm
install pde pt v = record v {
  memory =
      set_entry (active_pd v) pde (make_pte pt (bit_or (bit_or pte_present pte_writable) pte_user))
        (zero_entries page_entries 0 pt v.memory);
}

-- The page table for an entry of the directory, with a new one where there is none.
unfoldable pub ensure_table : ℕ → Vmm → Status × Vmm
ensure_table pde v =
    let r = alloc_page numa_node_local v.pmm in
    let v1 : Vmm = record v { pmm = r.1 } in
    if is_present (entry_at v.memory (active_pd v) pde)
    then (ok, v)
    else if r.0 == 0
    then (failed, v1)
    else (ok, install pde r.0 v1)

abbrev pub table_of : ℕ → Vmm → ℕ
table_of vaddr v = pte_addr (entry_at v.memory (active_pd v) (pde_index vaddr))

-- The entry is written whether there was one or not; the code warns where it changes the page.
abbrev pub write_mapping : ℕ → ℕ → ℕ → Status × Vmm → Status × Vmm
write_mapping vaddr paddr flags (failed, v) = (failed, v)
write_mapping vaddr paddr flags (ok, v) = (
  ok,
  record v {
    memory = set_entry (table_of vaddr v) (pte_index vaddr) (make_pte paddr flags) v.memory;
  },
)

unfoldable pub map_page : ℕ → ℕ → ℕ → Vmm → Status × Vmm
map_page vaddr paddr flags v = write_mapping vaddr paddr flags (ensure_table (pde_index vaddr) v)

abbrev and_then : Status × Vmm → (Vmm → Status × Vmm) → Status × Vmm
and_then (failed, v) k = (failed, v)
and_then (ok, v) k = k v

-- `n` pages are left.
unfoldable map_pages : ℕ → ℕ → ℕ → ℕ → Vmm → Status × Vmm
map_pages zero va pa flags v = (ok, v)
map_pages (suc n) va pa flags v =
    and_then (map_page va pa flags v)
      (map_pages n (u32 (va + page_size)) (u32 (pa + page_size)) flags)

unfoldable map_range : ℕ → ℕ → ℕ → ℕ → Vmm → Status × Vmm
map_range vaddr paddr size flags v =
    map_pages (u32 (size + page_size - 1) / page_size) (pte_addr vaddr) (pte_addr paddr) flags v

-- The entry for a virtual address, and 0 where the directory has no table.
abbrev pub entry_of : ℕ → Vmm → ℕ
entry_of vaddr v =
    if is_present (entry_at v.memory (active_pd v) (pde_index vaddr))
    then entry_at v.memory (table_of vaddr v) (pte_index vaddr)
    else 0

unfoldable pub unmap_page : ℕ → Vmm → ℕ × Vmm
unmap_page vaddr v =
    let e = entry_of vaddr v in
    if is_present e
    then (
      pte_addr e,
      record v { memory = set_entry (table_of vaddr v) (pte_index vaddr) 0 v.memory },
    )
    else (0, v)

unfoldable pub virt_to_phys : ℕ → Vmm → ℕ
virt_to_phys vaddr v =
    let e = entry_of vaddr v in if is_present e then bit_or (pte_addr e) (page_offset vaddr) else 0

abbrev is_mapped : ℕ → Vmm → Bool
is_mapped vaddr v = not (virt_to_phys vaddr v == 0)
