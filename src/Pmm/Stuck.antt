-- ===== src/Pmm/Stuck.antt =====
-- `pmm_alloc_pages` where neither node has a run.
use zenedge.Common.{
  ℕ, zero, suc, ◌^◌, ◌<◌, ◌≤◌, ◌≡◌, refl, ◌∙◌, true, false, Option, none, arith, ◌==◌, ltb, ◌||◌,
}
use zenedge.Pmm.State.{Pmm, node_at, numa_node_any}
use zenedge.Pmm.Runs.{find_run, fall_back, alloc_run, alloc_pages}

-- The search of a node's range finds no run of `count` free pages.
abbrev HasNoRun : Pmm → ℕ → ℕ → Type 0
HasNoRun p count node =
    let n = node_at node p in find_run (2 ^ 32) p count n.end_pfn n.start_pfn ≡ none

module _ (call : ℕ → Pmm → Option (ℕ × Pmm)) (count : ℕ) (p : Pmm)
    (two : p.numa_node_count ≡ 2) where
  fall_back0 : call 1 p ≡ none → (nodes : ℕ) → nodes ≡ 2 → fall_back call 0 count nodes 0 p ≡ none
  unfolding fall_back
  fall_back0 e nodes n = rw (n, e, fall_back) refl

  fall_back1 : call 0 p ≡ none → (nodes : ℕ) → nodes ≡ 2 → fall_back call 1 count nodes 0 p ≡ none
  unfolding fall_back
  fall_back1 e nodes n = rw (n, e, fall_back) refl

  alloc_run0 : call 1 p ≡ none → HasNoRun p count 0 → alloc_run call count 0 p ≡ none
  unfolding alloc_run
  alloc_run0 e no_run = rw (no_run, alloc_run) (fall_back0 e p.numa_node_count two)

  alloc_run1 : call 0 p ≡ none → HasNoRun p count 1 → alloc_run call count 1 p ≡ none
  unfolding alloc_run
  alloc_run1 e no_run = rw (no_run, alloc_run) (fall_back1 e p.numa_node_count two)

-- The call for `node`, one of the two, with fuel left is its search.
alloc_pages_run :
    (fuel count node : ℕ) (p : Pmm)
    → node < 2
    → p.numa_node_count ≡ 2
    → 2 ≤ count
    → alloc_pages (suc fuel) count node p ≡ alloc_run (alloc_pages fuel count) count node p
unfolding alloc_pages
alloc_pages_run fuel count node p lt two many =
    let known : (node == numa_node_any || ltb node p.numa_node_count) ≡ true = ground arith in
    let some_pages : (count == 0) ≡ false = ground arith in
    let several : (count == 1) ≡ false = ground arith in rw (some_pages, several, known) refl

-- Where neither node has a run of as many pages as are asked for, two or more, the calls at the two nodes
-- call each other for ever: no fuel is enough.
pub alloc_pages_stuck :
    (fuel count : ℕ) (p : Pmm)
    → p.numa_node_count ≡ 2
    → 2 ≤ count
    → HasNoRun p count 0
    → HasNoRun p count 1
    → (alloc_pages fuel count 0 p ≡ none) × (alloc_pages fuel count 1 p ≡ none)
unfolding alloc_pages
alloc_pages_stuck zero count p two many none0 none1 = (refl, refl)
alloc_pages_stuck (suc fuel) count p two many none0 none1 =
    let (stuck0, stuck1) = alloc_pages_stuck fuel count p two many none0 none1 in
    (
      alloc_pages_run fuel count 0 p (omega arith) two many
          ∙ alloc_run0 (alloc_pages fuel count) count p two stuck1 none0,
      alloc_pages_run fuel count 1 p (omega arith) two many
          ∙ alloc_run1 (alloc_pages fuel count) count p two stuck0 none1,
    )
