-- ===== src/Pmm/State.antt =====
-- kernel/mm/pmm.h and the statics of pmm.c: pages, NUMA nodes, memory regions. The array
-- `numa_nodes` of two is the fields `node0` and `node1`; the bootloader's memory map, which is walked
-- by pointers, is the list of its entries.
use zenedge.Common.{ℕ, ◌+◌, ◌-◌, ◌*◌, ◌/◌, ◌%◌, ◌^◌, Bool, List, ◌==◌, if◌then◌else◌, u32}
use zenedge.Bitmap.{bitmap_test, bitmap_set, bitmap_clear}
use zenedge.FlightRec.{Recorder, EventType, log}

abbrev pub page_size : ℕ
page_size = 4096

abbrev pub pmm_max_pages : ℕ
pmm_max_pages = 65536

abbrev pub numa_node_any : ℕ
numa_node_any = 0xFF

abbrev pub numa_node_local : ℕ
numa_node_local = 0

abbrev pub numa_node_remote : ℕ
numa_node_remote = 1

abbrev pub max_mem_regions : ℕ
max_mem_regions = 32

-- MEM_REGION_AVAILABLE
abbrev pub available : ℕ
available = 1

pub record MemRegion : Type 0 where
  pub base : ℕ
  pub length : ℕ
  pub type : ℕ

pub record NumaNode : Type 0 where
  pub node_id : ℕ
  pub base_addr : ℕ
  pub start_pfn : ℕ
  pub end_pfn : ℕ
  pub total_pages : ℕ
  pub free_pages : ℕ
  pub used_pages : ℕ

-- The statics of pmm.c, and the flight recorder that it logs to.
pub record Pmm : Type 0 where
  pub page_bitmap : List ℕ
  pub mem_regions : List MemRegion
  pub node0 : NumaNode
  pub node1 : NumaNode
  pub numa_node_count : ℕ
  pub total_pages : ℕ
  pub free_pages : ℕ
  pub highest_page : ℕ
  pub node_boundary_pfn : ℕ
  pub recorder : Recorder

abbrev pub addr_to_pfn : ℕ → ℕ
addr_to_pfn addr = addr / 2 ^ 12

abbrev pub pfn_to_addr : ℕ → ℕ
pfn_to_addr pfn = u32 (pfn * 2 ^ 12)

-- `addr & ~(PAGE_SIZE - 1)`
abbrev pub page_align_down : ℕ → ℕ
page_align_down addr = addr / page_size * page_size

abbrev pub page_align_up : ℕ → ℕ
page_align_up addr = page_align_down (u32 (addr + page_size - 1))

abbrev pub is_used : Pmm → ℕ → Bool
is_used p pfn = bitmap_test pmm_max_pages p.page_bitmap pfn

abbrev pub mark_used : ℕ → Pmm → Pmm
mark_used pfn p = record p { page_bitmap = bitmap_set pmm_max_pages p.page_bitmap pfn }

abbrev pub mark_free : ℕ → Pmm → Pmm
mark_free pfn p = record p { page_bitmap = bitmap_clear pmm_max_pages p.page_bitmap pfn }

abbrev pub note : EventType → ℕ → ℕ → ℕ → Pmm → Pmm
note type job_id step_id extra p = record p { recorder = log type job_id step_id extra p.recorder }

-- `numa_nodes[i]`
abbrev pub node_at : ℕ → Pmm → NumaNode
node_at i p = if i == 0 then p.node0 else p.node1

abbrev pub set_node : ℕ → NumaNode → Pmm → Pmm
set_node i n p = if i == 0 then record p { node0 = n } else record p { node1 = n }

pub record MmapEntry : Type 0 where
  pub base_addr : ℕ
  pub length : ℕ
  pub type : ℕ

pub record MultibootInfo : Type 0 where
  pub flags : ℕ
  pub mem_lower : ℕ
  pub mem_upper : ℕ
  pub mmap : List MmapEntry

abbrev pub has_flag : ℕ → ℕ → Bool
has_flag flags k = flags / 2 ^ k % 2 == 1
