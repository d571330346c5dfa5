-- ===== src/Pmm/Nodes.antt =====
-- The accounts of pmm.c: each counter is the number of clear bits that it stands for.
use zenedge.Common.{
  ℕ, zero, suc, ◌+◌, ◌-◌, ◌<◌, ◌≤◌, ◌≡◌, refl, false, none, some, arith, inl, inr, Bool-cases,
  if◌then◌else◌,
}
use zenedge.Bitmap.{IsBitmap, set-IsBitmap, clear_in, inside, clear_in-set, clear_in-le}
use zenedge.Pmm.State.{Pmm, NumaNode, is_used, pmm_max_pages, mark_used}
use zenedge.Pmm.Ops.{first_free, take_page}

-- A node's range has the pages that its counters say.
pub record IsCounted (p : Pmm) (n : NumaNode) : Type 0 where
  pub ordered : n.start_pfn ≤ n.end_pfn
  pub free : n.free_pages ≡ clear_in (is_used p) n.start_pfn (n.end_pfn - n.start_pfn)
  pub shared : n.free_pages + n.used_pages ≡ n.end_pfn - n.start_pfn

pub record IsConsistent (p : Pmm) : Type 0 where
  pub bitmap : IsBitmap pmm_max_pages p.page_bitmap
  pub two : p.numa_node_count ≡ 2
  pub low : 256 ≤ p.node0.start_pfn
  pub joined : p.node1.start_pfn ≡ p.node0.end_pfn
  pub top : p.node1.end_pfn ≡ p.highest_page + 1
  pub fits : p.highest_page < pmm_max_pages
  pub counted0 : IsCounted p p.node0
  pub counted1 : IsCounted p p.node1
  pub total : p.free_pages ≡ clear_in (is_used p) 0 (p.highest_page + 1)

pub first_free-none :
    (p : Pmm) (n lo : ℕ) → first_free p n lo ≡ none → clear_in (is_used p) lo n ≡ 0
unfolding first_free
first_free-none p zero lo e = refl
first_free-none p (suc n) lo e = ground (arith, first_free-none p n (lo + 1))

pub first_free-some :
    (p : Pmm) (n lo k : ℕ)
    → first_free p n lo ≡ some k
    → (lo ≤ k) × (k < lo + n) × (is_used p k ≡ false) × (clear_in (is_used p) lo (k - lo) ≡ 0)
unfolding first_free
first_free-some p zero lo k e = absurd (ground arith)
first_free-some p (suc n) lo k e = elim (Bool-cases (is_used p lo)) [
  | inl u ↦
      let (le, lt, free, none_before) = first_free-some p n (lo + 1) k (ground arith) in
      let q : k - lo ≡ suc (k - (lo + 1)) = omega arith in
      (omega arith, omega arith, free, rw (q, u) (omega (arith, none_before)))
  | inr u ↦
      let same : k ≡ lo = ground arith in
      let q : k - lo ≡ 0 = omega arith in (omega arith, omega arith, ground arith, rw q refl)
]

module _ (p : Pmm) (pfn : ℕ) (h : IsConsistent p) (free : is_used p pfn ≡ false) where
  -- One clear bit less in each range that the page lies in.
  taken :
      (lo n : ℕ)
      → clear_in (is_used (mark_used pfn p)) lo n + (if inside pfn lo n then 1 else 0)
        ≡ clear_in (is_used p) lo n
  taken lo n = clear_in-set pmm_max_pages p.page_bitmap pfn lo n h.bitmap free

  bounded : (lo n : ℕ) → clear_in (is_used p) lo n ≤ n
  bounded lo n = clear_in-le (is_used p) lo n

  pub take_page0-IsConsistent :
      p.node0.start_pfn ≤ pfn → pfn < p.node0.end_pfn → IsConsistent (take_page 0 pfn p)
  take_page0-IsConsistent le lt =
      let n0 = p.node0.end_pfn - p.node0.start_pfn in
      let n1 = p.node1.end_pfn - p.node1.start_pfn in
      record {
        bitmap = set-IsBitmap pmm_max_pages p.page_bitmap pfn h.bitmap;
        two = h.two;
        low = h.low;
        joined = h.joined;
        top = h.top;
        fits = h.fits;
        counted0 = record {
          ordered = h.counted0.ordered;
          free = ground (arith, taken p.node0.start_pfn n0, bounded p.node0.start_pfn n0);
          shared = ground (arith, taken p.node0.start_pfn n0, bounded p.node0.start_pfn n0);
        };
        counted1 = record {
          ordered = h.counted1.ordered;
          free = ground (arith, taken p.node1.start_pfn n1);
          shared = h.counted1.shared;
        };
        total = ground (arith, taken 0 (p.highest_page + 1), bounded 0 (p.highest_page + 1));
      }

  pub take_page1-IsConsistent :
      p.node1.start_pfn ≤ pfn → pfn < p.node1.end_pfn → IsConsistent (take_page 1 pfn p)
  take_page1-IsConsistent le lt =
      let n0 = p.node0.end_pfn - p.node0.start_pfn in
      let n1 = p.node1.end_pfn - p.node1.start_pfn in
      record {
        bitmap = set-IsBitmap pmm_max_pages p.page_bitmap pfn h.bitmap;
        two = h.two;
        low = h.low;
        joined = h.joined;
        top = h.top;
        fits = h.fits;
        counted0 = record {
          ordered = h.counted0.ordered;
          free = ground (arith, taken p.node0.start_pfn n0);
          shared = h.counted0.shared;
        };
        counted1 = record {
          ordered = h.counted1.ordered;
          free = ground (arith, taken p.node1.start_pfn n1, bounded p.node1.start_pfn n1);
          shared = ground (arith, taken p.node1.start_pfn n1, bounded p.node1.start_pfn n1);
        };
        total = ground (arith, taken 0 (p.highest_page + 1), bounded 0 (p.highest_page + 1));
      }
