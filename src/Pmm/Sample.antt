-- ===== src/Pmm/Sample.antt =====
-- A machine of 260 pages, for the tests.
use zenedge.Common.{
  ℕ, ◌<◌, refl, false, arith, List, [], ◌∷◌, ◌++◌, replicate, length-append, length-replicate,
  All-append,
}
use zenedge.Bitmap.{IsBitmap, full_bytes, bitmap_test}
use zenedge.FlightRec.{Recorder, blank, no_span}
use zenedge.Pmm.{Pmm, pmm_max_pages}
use zenedge.Pmm.Nodes.{IsConsistent}

abbrev pub power_on : Recorder
power_on = record {
  time = record { cpu_mhz = 0; cycles_per_usec = 0; boot_tsc = 0; tsc = λ n. n; reads = 0 };
  buf = replicate 256 blank;
  head = 0;
  initialized = false;
  spans = replicate 16 no_span;
  next_span_handle = 0;
}

-- 260 pages: 256 to 259 are two nodes of two pages, all free but the first.
abbrev small_bitmap : List ℕ
small_bitmap = replicate 32 0xFF ++ (0xF1 ∷ replicate 8159 0xFF)

small_bitmap-IsBitmap : IsBitmap pmm_max_pages small_bitmap
small_bitmap-IsBitmap = record {
  room = omega (
    arith,
    length-append {A = ℕ} (replicate 32 0xFF) (0xF1 ∷ replicate 8159 0xFF),
    length-replicate {A = ℕ} 8159 0xFF,
    length-replicate {A = ℕ} 32 0xFF,
  );
  bytes =
      All-append (λ b. b < 256) (replicate 32 0xFF) (0xF1 ∷ replicate 8159 0xFF) (full_bytes 32)
        (omega arith, full_bytes 8159);
}

abbrev pub small : Pmm
small = record {
  page_bitmap = small_bitmap;
  mem_regions = [];
  node0 = record {
    node_id = 0;
    base_addr = 0x100000;
    start_pfn = 256;
    end_pfn = 258;
    total_pages = 2;
    free_pages = 1;
    used_pages = 1;
  };
  node1 = record {
    node_id = 1;
    base_addr = 0x102000;
    start_pfn = 258;
    end_pfn = 260;
    total_pages = 2;
    free_pages = 2;
    used_pages = 0;
  };
  numa_node_count = 2;
  total_pages = 260;
  free_pages = 3;
  highest_page = 259;
  node_boundary_pfn = 258;
  recorder = power_on;
}

pub small-IsConsistent : IsConsistent small
unfolding bitmap_test
small-IsConsistent = record {
  bitmap = small_bitmap-IsBitmap;
  two = refl;
  low = omega arith;
  joined = refl;
  top = refl;
  fits = omega arith;
  counted0 = record { ordered = omega arith; free = refl; shared = refl };
  counted1 = record { ordered = omega arith; free = refl; shared = refl };
  total = refl;
}
