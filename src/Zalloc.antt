-- ===== src/Zalloc.antt =====
-- kernel/zenedge_alloc.h and zenedge_alloc.c: the portable allocation layer over the page allocator,
-- with its counters. `zenedge_alloc`, which writes zeros to the memory it was given, is not modelled.
use zenedge.Common.{◌||◌, Option, none, some, ℕ, ◌+◌, ◌*◌, ◌==◌, if◌then◌else◌, u32, u64}
use zenedge.FlightRec.{EventType}
use zenedge.Pmm.{
  Pmm, alloc_pages, free_pages, alloc_page, free_page, addr_to_node, numa_node_any, numa_node_local,
  numa_node_remote, page_size, note, get_stats,
}

abbrev pub znode_local : ℕ
znode_local = 0

abbrev pub znode_remote : ℕ
znode_remote = 1

abbrev pub znode_any : ℕ
znode_any = 0xFF

-- The statics of zenedge_alloc.c, and the page allocator below.
pub record Zalloc : Type 0 where
  pub pmm : Pmm
  pub total_allocated : ℕ
  pub total_freed : ℕ

pub record ZallocResult : Type 0 where
  pub addr : ℕ
  pub node : ℕ
  pub size_bytes : ℕ

abbrev pub init : Zalloc → Zalloc
init z = record z { total_allocated = 0; total_freed = 0 }

-- The switch from a portable node preference to a node of the page allocator.
abbrev pub pmm_node : ℕ → ℕ
pmm_node node_pref =
    if node_pref == znode_local
    then numa_node_local
    else if node_pref == znode_remote
    then numa_node_remote
    else numa_node_any

abbrev platform_alloc_page : ℕ → Pmm → ℕ × Pmm
platform_alloc_page node_pref p = alloc_page (pmm_node node_pref) p

-- Addresses are cut to 32 bits where they reach the page allocator.
abbrev platform_free_page : ℕ → Pmm → Pmm
platform_free_page addr p = free_page (u32 addr) p

abbrev platform_get_node : ℕ → Pmm → ℕ
platform_get_node addr p = addr_to_node (u32 addr) p

unfoldable pub zenedge_alloc_page : ℕ → Zalloc → ZallocResult × Zalloc
zenedge_alloc_page node_pref z =
    let (addr, p) = platform_alloc_page node_pref z.pmm in
    if addr == 0
    then (record { addr = addr; node = 0; size_bytes = 0 }, record z { pmm = p })
    else (
      record { addr = addr; node = platform_get_node addr p; size_bytes = page_size },
      record z { pmm = p; total_allocated = u64 (z.total_allocated + page_size) },
    )

unfoldable pub zenedge_free_page : ℕ → Zalloc → Zalloc
zenedge_free_page addr z = if addr == 0 then z else record z {
  pmm = platform_free_page addr z.pmm;
  total_freed = u64 (z.total_freed + page_size);
}

-- `none` is a call of the page allocator that is still running.
unfoldable zenedge_alloc_pages : ℕ → ℕ → ℕ → Zalloc → Option (ZallocResult × Zalloc)
zenedge_alloc_pages fuel count node_pref z =
    elim (alloc_pages fuel count (pmm_node node_pref) z.pmm) [
      | none ↦ none
      | some r ↦
          let size = u32 (count * page_size) in
          if r.0 == 0
          then some (record { addr = 0; node = 0; size_bytes = 0 }, record z { pmm = r.1 })
          else some (
            record { addr = r.0; node = platform_get_node r.0 r.1; size_bytes = size },
            record z { pmm = r.1; total_allocated = u64 (z.total_allocated + size) },
          )
    ]

unfoldable zenedge_free_pages : ℕ → ℕ → Zalloc → Zalloc
zenedge_free_pages addr count z = if addr == 0 || count == 0 then z else record z {
  pmm = free_pages (u32 addr) count z.pmm;
  total_freed = u64 (z.total_freed + u32 (count * page_size));
}

abbrev pub zenedge_get_node : ℕ → Zalloc → ℕ
zenedge_get_node addr z = platform_get_node addr z.pmm

pub record ZallocStats : Type 0 where
  pub total_bytes : ℕ
  pub free_bytes : ℕ
  pub num_nodes : ℕ

unfoldable zenedge_alloc_stats : Zalloc → ZallocStats
zenedge_alloc_stats z =
    let s = get_stats z.pmm in
    record {
      total_bytes = s.total_memory_kb * 1024;
      free_bytes = s.free_memory_kb * 1024;
      num_nodes = s.num_nodes;
    }

-- A record in the flight recorder, which the layers share.
abbrev pub trace : EventType → ℕ → ℕ → ℕ → Zalloc → Zalloc
trace type job_id step_id extra z = record z { pmm = note type job_id step_id extra z.pmm }
