-- ===== src/Pmm/Init/Split.antt =====
-- `setup_numa_nodes`: the pages from 1 MB on are split into two nodes, and each node's are counted.
use mathlib.Core.Path.{subst}
use zenedge.Common.{
  ℕ, zero, suc, ◌+◌, ◌-◌, ◌/◌, ◌^◌, ◌<◌, ◌≤◌, ◌≡◌, refl, sym, ◌∙◌, ap, arith, inl, inr, lt→ltb,
  le→ltb_false, Bool-cases, u32, sub32,
}
use zenedge.Bitmap.{clear_in, clear_in-le}
use zenedge.Pmm.State.{Pmm, is_used, pmm_max_pages}
use zenedge.Pmm.Boot.{count_page, count_run, setup_numa_nodes, new_node, with_used}
use zenedge.Pmm.Nodes.{IsConsistent}
use zenedge.Pmm.Init.Track.{IsTracked}

-- `k` free pages more in a node.
abbrev more0 : ℕ → Pmm → Pmm
more0 k p = record p { node0 = record p.node0 { free_pages = p.node0.free_pages + k } }

abbrev more1 : ℕ → Pmm → Pmm
more1 k p = record p { node1 = record p.node1 { free_pages = p.node1.free_pages + k } }

more0_zero : (p : Pmm) → more0 0 p ≡ p
more0_zero p = ap (λ k. record p { node0 = record p.node0 { free_pages = k } }) (omega arith)

more1_zero : (p : Pmm) → more1 0 p ≡ p
more1_zero p = ap (λ k. record p { node1 = record p.node1 { free_pages = k } }) (omega arith)

count_run0 :
    (n lo : ℕ) (p : Pmm)
    → lo + n ≤ p.node_boundary_pfn
    → p.node0.free_pages + n < 2 ^ 32
    → count_run n lo p ≡ more0 (clear_in (is_used p) lo n) p
unfolding count_run
count_run0 zero lo p le small = sym (more0_zero p)
count_run0 (suc n) lo p le small =
    rw (lt→ltb lo p.node_boundary_pfn (omega arith)) (elim (Bool-cases (is_used p lo)) [
      | inl u ↦
          rw u (
            count_run0 n (lo + 1) p (omega arith) (omega arith) ∙ ap (λ k. more0 k p) (omega arith))
      | inr u ↦ rw u (
          ap (λ k. count_run n (lo + 1) (record p { node0 = record p.node0 { free_pages = k } }))
            (omega arith)
          ∙ count_run0 n (lo + 1) (more0 1 p) (omega arith) (omega arith)
          ∙ ap (λ k. record p { node0 = record p.node0 { free_pages = k } }) (omega arith))
    ])

count_run1 :
    (n lo : ℕ) (p : Pmm)
    → p.node_boundary_pfn ≤ lo
    → p.node1.free_pages + n < 2 ^ 32
    → count_run n lo p ≡ more1 (clear_in (is_used p) lo n) p
unfolding count_run
count_run1 zero lo p le small = sym (more1_zero p)
count_run1 (suc n) lo p le small =
    rw (le→ltb_false lo p.node_boundary_pfn (omega arith)) (elim (Bool-cases (is_used p lo)) [
      | inl u ↦
          rw u (
            count_run1 n (lo + 1) p (omega arith) (omega arith) ∙ ap (λ k. more1 k p) (omega arith))
      | inr u ↦ rw u (
          ap (λ k. count_run n (lo + 1) (record p { node1 = record p.node1 { free_pages = k } }))
            (omega arith)
          ∙ count_run1 n (lo + 1) (more1 1 p) (omega arith) (omega arith)
          ∙ ap (λ k. record p { node1 = record p.node1 { free_pages = k } }) (omega arith))
    ])

count_run_split :
    (a b lo : ℕ) (p : Pmm) → count_run (a + b) lo p ≡ count_run b (lo + a) (count_run a lo p)
unfolding count_run
count_run_split zero b lo p =
    let left : zero + b ≡ b = omega arith in
    let right : lo ≡ lo + 0 = omega arith in
    ap (λ n. count_run n lo p) left ∙ ap (λ l. count_run b l p) right
count_run_split (suc a) b lo p =
    let left : suc a + b ≡ suc (a + b) = omega arith in
    let right : lo + 1 + a ≡ lo + suc a = omega arith in
    ap (λ n. count_run n lo p) left
    ∙ count_run_split a b (lo + 1) (count_page lo p)
    ∙ ap (λ l. count_run b l (count_run a (lo + 1) (count_page lo p))) right

count_run-bitmap : (n lo : ℕ) (p : Pmm) → (count_run n lo p).page_bitmap ≡ p.page_bitmap
unfolding count_run
count_run-bitmap zero lo p = refl
count_run-bitmap (suc n) lo p = count_run-bitmap n (lo + 1) (count_page lo p) ∙ ground arith

-- What `setup_numa_nodes` starts from, with the nodes meeting at `middle`.
abbrev start : ℕ → Pmm → Pmm
start middle p = record p {
  node_boundary_pfn = middle;
  node0 = new_node 0 256 middle;
  node1 = new_node 1 middle (u32 (p.highest_page + 1));
  numa_node_count = 2;
}

abbrev finish : Pmm → Pmm
finish p = record p { node0 = with_used p.node0; node1 = with_used p.node1 }

module _ (p : Pmm) (middle : ℕ) (low : 256 ≤ middle) (high : middle ≤ p.highest_page + 1)
    (fits : p.highest_page < pmm_max_pages) where
  free0 : ℕ
  free0 = clear_in (is_used p) 256 (middle - 256)

  free1 : ℕ
  free1 = clear_in (is_used p) middle (p.highest_page + 1 - middle)

  counted :
      count_run (p.highest_page + 1 - 256) 256 (start middle p)
      ≡ more1 free1 (more0 free0 (start middle p))
  unfolding free0 free1
  counted =
      let parts : p.highest_page + 1 - 256 ≡ (middle - 256) + (p.highest_page + 1 - middle) =
        omega arith in
      let there : 256 + (middle - 256) ≡ middle = omega arith in
      ap (λ n. count_run n 256 (start middle p)) parts
      ∙ count_run_split (middle - 256) (p.highest_page + 1 - middle) 256 (start middle p)
      ∙ ap
          (λ l.
            count_run (p.highest_page + 1 - middle) l
              (count_run (middle - 256) 256 (start middle p)))
          there
      ∙ ap (count_run (p.highest_page + 1 - middle) middle)
          (count_run0 (middle - 256) 256 (start middle p) (omega arith) (omega arith))
      ∙ count_run1 (p.highest_page + 1 - middle) middle (more0 free0 (start middle p)) (omega arith)
          (omega arith)

  finish-IsConsistent :
      IsTracked p → IsConsistent (finish (more1 free1 (more0 free0 (start middle p))))
  unfolding free0 free1
  finish-IsConsistent h = record {
    bitmap = h.bitmap;
    two = refl;
    low = omega arith;
    joined = refl;
    top = omega arith;
    fits = fits;
    counted0 = record {
      ordered = omega arith;
      free = omega arith;
      shared = omega (arith, clear_in-le (is_used p) 256 (middle - 256));
    };
    counted1 = record {
      ordered = omega arith;
      free =
          let none_else : 0 + free1 ≡ free1 = omega arith in
          let same_length : p.highest_page + 1 - middle ≡ u32 (p.highest_page + 1) - middle =
            omega arith in
          none_else ∙ ap (clear_in (is_used p) middle) same_length;
      shared = omega (arith, clear_in-le (is_used p) middle (p.highest_page + 1 - middle));
    };
    total = h.total (p.highest_page + 1) (omega arith) (omega arith);
  }

pub setup_numa_nodes-IsConsistent :
    (p : Pmm) → IsTracked p → 256 ≤ p.highest_page → IsConsistent (setup_numa_nodes p)
unfolding setup_numa_nodes
setup_numa_nodes-IsConsistent p h high =
    let middle = u32 (256 + u32 (sub32 p.highest_page 256 + 1) / 2) in
    let low : 256 ≤ middle = omega (arith, h.fits) in
    let le : middle ≤ p.highest_page + 1 = omega (arith, h.fits) in
    subst IsConsistent (ap finish (sym (counted p middle low le h.fits)))
      (finish-IsConsistent p middle low le h.fits h)

-- Splitting the memory reads the bitmap and leaves it.
pub setup_numa_nodes-bitmap : (p : Pmm) → (setup_numa_nodes p).page_bitmap ≡ p.page_bitmap
unfolding setup_numa_nodes
setup_numa_nodes-bitmap p = count_run-bitmap (p.highest_page + 1 - 256) 256 _
