-- ===== src/Contracts/Pages.antt =====
-- Pages through a contract: `contract_alloc_page` and `contract_free_page` over the page allocator.
use mathlib.Core.Path.{subst}
use zenedge.Common.{
  ◌^◌, ℕ, ◌+◌, ◌*◌, ◌^◌, ◌<◌, ◌≤◌, ◌≡◌, ◌≢◌, refl, sym, ap, Bool, true, false, leb, ltb, ◌==◌, u32,
  u64, arith, inl, inr, Bool-cases,
}
use zenedge.FlightRec.{mem_alloc, contract_exceed}
use zenedge.Pmm.{
  Pmm, alloc_page, numa_node_any, numa_node_local, numa_node_remote, page_size, addr_to_node,
}
use zenedge.Pmm.Nodes.{IsConsistent}
use zenedge.Pmm.Alloc.{Granted, IsExhausted}
use zenedge.Pmm.Alloc.Page.{Outcome, local, remote, out_of_memory, alloc_page-Outcome, note-Granted}
use zenedge.Zalloc.{Zalloc, trace, zenedge_alloc_page, pmm_node}
use zenedge.Contracts.State.{
  ContractState, state_ok, state_warned, state_safe_mode, state_code, TaskContract,
}
use zenedge.Contracts.Grades.{escalate_lem}
use zenedge.Contracts.Ops.{
  escalate, deny_page, node_pref, charge_page, alloc_allowed, alloc_page_in, contract_alloc_page,
  page_kb,
}

-- Nothing of the page allocator changes but the flight recorder.
abbrev SamePages : Zalloc → Zalloc → Type 0
SamePages z z' = z'.pmm ≡ record z.pmm { recorder = z'.pmm.recorder }

-- What a request for a page comes to: the address, the contract and the allocator afterwards.
pub data PageOutcome (c : TaskContract) (z : Zalloc) (r : ℕ × (TaskContract × Zalloc))
    : Type 0 where
  in_safe_mode :
      c.state ≡ state_safe_mode → r.0 ≡ 0 → r.1.0 ≡ c → SamePages z r.1.1 → PageOutcome c z r
  over_budget :
      c.state ≢ state_safe_mode
      → c.memory_kb < c.mem_used_kb + page_kb
      → r.0 ≡ 0
      → r.1.0.mem_used_kb ≡ c.mem_used_kb
      → r.1.0.mem_violations ≡ u32 (c.mem_violations + 1)
      → SamePages z r.1.1
      → PageOutcome c z r
  no_page :
      c.state ≢ state_safe_mode
      → c.mem_used_kb + page_kb ≤ c.memory_kb
      → IsExhausted z.pmm z.pmm.node0
      → IsExhausted z.pmm z.pmm.node1
      → r.0 ≡ 0
      → r.1.0 ≡ c
      → SamePages z r.1.1
      → PageOutcome c z r
  page :
      c.state ≢ state_safe_mode
      → (pfn : ℕ) → r.0 ≡ pfn * page_size
      → r.1.0 ≡ record c { mem_used_kb = c.mem_used_kb + page_kb }
      → r.1.0.mem_used_kb ≤ c.memory_kb
      → Granted z.pmm pfn r.1.1.pmm
      → PageOutcome c z r

-- What the allocator comes to, whichever node is preferred.
pub data Found (p : Pmm) (r : ℕ × Pmm) : Type 0 where
  found : (pfn : ℕ) → r.0 ≡ pfn * page_size → Granted p pfn r.1 → Found p r
  nothing :
      r.0 ≡ 0
      → IsExhausted p p.node0
      → IsExhausted p p.node1
      → r.1 ≡ record p { recorder = r.1.recorder }
      → Found p r

first_local : (p : Pmm) (r : ℕ × Pmm) → Outcome p p.node0 p.node1 r → Found p r
first_local p r (local pfn e le lt g) = found pfn e g
first_local p r (remote pfn e ex le lt g) = found pfn e g
first_local p r (out_of_memory e ex ex' same) = nothing e ex ex' same

first_remote : (p : Pmm) (r : ℕ × Pmm) → Outcome p p.node1 p.node0 r → Found p r
first_remote p r (local pfn e le lt g) = found pfn e g
first_remote p r (remote pfn e ex le lt g) = found pfn e g
first_remote p r (out_of_memory e ex ex' same) = nothing e ex' ex same

alloc_page-Found :
    (p : Pmm) (c : TaskContract) → IsConsistent p → Found p (alloc_page (pmm_node (node_pref c)) p)
alloc_page-Found p c h = elim (Bool-cases (c.preferred_node == numa_node_local)) [
  | inl e ↦ rw e (first_local p (alloc_page 0 p) (alloc_page-Outcome p h).0)
  | inr e ↦ elim (Bool-cases (c.preferred_node == numa_node_remote)) [
    | inl e' ↦ rw (e, e') (first_remote p (alloc_page 1 p) (alloc_page-Outcome p h).1)
    | inr e' ↦ rw (e, e') (first_local p (alloc_page numa_node_any p) (alloc_page-Outcome p h).2)
  ]
]

module _ (c : TaskContract) (z : Zalloc) where
  -- The address that the allocator answers with, and what it leaves.
  asked : ℕ × Pmm
  asked = alloc_page (pmm_node (node_pref c)) z.pmm

  charge_page-none : asked.0 ≡ 0 → charge_page c z ≡ (0, (c, record z { pmm = asked.1 }))
  unfolding charge_page zenedge_alloc_page asked
  charge_page-none e = rw e refl

  -- The allocation as the contract records it.
  abbrev recorded : Zalloc
  recorded =
      trace mem_alloc c.job_id (addr_to_node (u32 asked.0) asked.1) 1
        (record z { pmm = asked.1; total_allocated = u64 (z.total_allocated + page_size) })

  charge_page-some :
      (asked.0 == 0) ≡ false
      → charge_page c z
        ≡ (u32 asked.0, (record c { mem_used_kb = u32 (c.mem_used_kb + page_kb) }, recorded))
  unfolding charge_page zenedge_alloc_page asked
  charge_page-some e = rw e (rw e refl)

-- The state machine touches no page.
escalate-SamePages :
    (state : ContractState) (again : Bool) (c : TaskContract) (z : Zalloc)
    → SamePages z (escalate state again c z).1
escalate-SamePages state_ok again c z = elim (Bool-cases (state_code c.state == 1)) [
  | inl e ↦ rw e refl
  | inr e ↦ rw e refl
]
escalate-SamePages state_warned false c z = refl
escalate-SamePages state_warned true c z = elim (Bool-cases (state_code c.state == 2)) [
  | inl e ↦ rw e refl
  | inr e ↦ rw e refl
]
escalate-SamePages state_safe_mode again c z = refl

module _ (c : TaskContract) (z : Zalloc) (h : IsConsistent z.pmm)
    (small : c.mem_used_kb + page_kb < 2 ^ 32) where
  Running : Type 0
  Running = c.state ≢ state_safe_mode

  charge_page-Outcome :
      Running → c.mem_used_kb + page_kb ≤ c.memory_kb → PageOutcome c z (charge_page c z)
  unfolding asked Running
  charge_page-Outcome on le = go (alloc_page-Found z.pmm c h)
    where
      no_wrap : u32 (c.mem_used_kb + page_kb) ≡ c.mem_used_kb + page_kb
      no_wrap = omega arith

      go : Found z.pmm (asked c z) → PageOutcome c z (charge_page c z)
      go (nothing e ex ex' same) =
          subst (PageOutcome c z) (sym (charge_page-none c z e))
            (no_page on le ex ex' refl refl same)
      go (found pfn e g) =
          subst (PageOutcome c z) (sym (charge_page-some c z (ground (arith, g.above)))) (
            page on pfn (omega (arith, g.below, h.fits))
              (ap (λ kb. record c { mem_used_kb = kb }) no_wrap) (omega arith)
              (note-Granted mem_alloc c.job_id (addr_to_node (u32 (asked c z).0) (asked c z).1) 1
                z.pmm pfn (asked c z).1 g))

  deny_page-Outcome :
      Running → c.memory_kb < c.mem_used_kb + page_kb → PageOutcome c z (0, deny_page c z)
  unfolding Running
  deny_page-Outcome on lt =
      let c1 = record c { mem_violations = u32 (c.mem_violations + 1) } in
      let z1 = trace contract_exceed c.job_id 0 (u32 (c.mem_used_kb + page_kb)) z in
      let q = escalate_lem c.state (leb 2 c1.mem_violations) c1 z1 refl in
      over_budget on lt refl (ap (λ x. x.mem_used_kb) q) (ap (λ x. x.mem_violations) q)
        (escalate-SamePages c.state (leb 2 c1.mem_violations) c1 z1)

  alloc_allowed-Outcome : Running → PageOutcome c z (alloc_allowed c z)
  alloc_allowed-Outcome on = elim (Bool-cases (ltb c.memory_kb (u32 (c.mem_used_kb + page_kb)))) [
    | inl e ↦ rw e (deny_page-Outcome on (ground arith))
    | inr e ↦ rw e (charge_page-Outcome on (ground arith))
  ]

  alloc_page_in-Outcome :
      (state : ContractState) → c.state ≡ state → PageOutcome c z (alloc_page_in state c z)
  unfolding alloc_page_in Running
  alloc_page_in-Outcome state_ok e = alloc_allowed-Outcome (λ q. absurd (ground arith))
  alloc_page_in-Outcome state_warned e = alloc_allowed-Outcome (λ q. absurd (ground arith))
  alloc_page_in-Outcome state_safe_mode e = in_safe_mode e refl refl refl

  -- Where the allocator's accounts hold and charging a page fits 32 bits, a request for a page is
  -- refused in SAFE_MODE. In the other states it is refused and counted as a violation where it would
  -- exceed the memory budget, refused where no node has a free page, and else a page that was free is
  -- granted and charged, within the budget.
  pub contract_alloc_page-PageOutcome : PageOutcome c z (contract_alloc_page c z)
  unfolding contract_alloc_page
  contract_alloc_page-PageOutcome = alloc_page_in-Outcome c.state refl
