-- ===== src/Contracts/Ops.antt =====
-- kernel/contracts.c: charging a contract, its state machine, and pages through a contract.
use zenedge.Common.{ℕ, ◌+◌, ◌-◌, ◌/◌, Bool, true, false, leb, ltb, ◌==◌, if◌then◌else◌, u32}
use zenedge.FlightRec.{
  budget_exceed, contract_exceed, state_change, safe_mode, mem_alloc, mem_free, mem_alloc_fail,
}
use zenedge.Pmm.{numa_node_local, numa_node_remote, page_size}
use zenedge.Zalloc.{
  Zalloc, trace, znode_local, znode_remote, znode_any, zenedge_alloc_page, zenedge_free_page,
  zenedge_get_node,
}
use zenedge.Contracts.State.{
  ContractState, state_ok, state_warned, state_safe_mode, state_code, TaskContract,
}

-- `PAGE_SIZE / 1024`
abbrev pub page_kb : ℕ
page_kb = page_size / 1024

-- What `contract_set_state` traces besides the change.
abbrev trace_entry : ContractState → TaskContract → Zalloc → Zalloc
trace_entry state_ok c z = z
trace_entry state_warned c z = z
trace_entry state_safe_mode c z =
    trace safe_mode c.job_id 0 (u32 (c.cpu_violations + c.mem_violations)) z

abbrev set_state : ContractState → TaskContract → Zalloc → TaskContract × Zalloc
set_state new_state c z = if state_code c.state == state_code new_state then (c, z) else (
  record c { state = new_state },
  trace_entry new_state c
      (trace state_change c.job_id (state_code c.state) (state_code new_state) z),
)

-- The transition on a violation: `again` is the test that leads from WARNED on.
abbrev pub escalate : ContractState → Bool → TaskContract → Zalloc → TaskContract × Zalloc
escalate state_ok again c z = set_state state_warned c z
escalate state_warned again c z = if again then set_state state_safe_mode c z else (c, z)
escalate state_safe_mode again c z = (c, z)

-- A charge returns 1 for a violation, 0 for none.
unfoldable pub charge_cpu : ℕ → TaskContract → Zalloc → ℕ × (TaskContract × Zalloc)
charge_cpu usec c z =
    let c1 = record c { cpu_used_us = u32 (c.cpu_used_us + usec) } in
    let c2 = record c1 { cpu_violations = u32 (c.cpu_violations + 1) } in
    if ltb c1.cpu_budget_us c1.cpu_used_us
    then (
      1,
      escalate c2.state (leb 3 c2.cpu_violations) c2
          (trace budget_exceed c.job_id 0 c2.cpu_used_us z),
    )
    else (0, (c1, z))

unfoldable pub charge_memory : ℕ → TaskContract → Zalloc → ℕ × (TaskContract × Zalloc)
charge_memory kb c z =
    let c1 = record c { mem_used_kb = u32 (c.mem_used_kb + kb) } in
    let c2 = record c1 { mem_violations = u32 (c.mem_violations + 1) } in
    if ltb c1.memory_kb c1.mem_used_kb
    then (
      1,
      escalate c2.state (leb 2 c2.mem_violations) c2
          (trace contract_exceed c.job_id 0 c2.mem_used_kb z),
    )
    else (0, (c1, z))

-- A page refused because the budget would be exceeded.
abbrev pub deny_page : TaskContract → Zalloc → TaskContract × Zalloc
deny_page c z =
    let c1 = record c { mem_violations = u32 (c.mem_violations + 1) } in
    escalate c1.state (leb 2 c1.mem_violations) c1
      (trace contract_exceed c.job_id 0 (u32 (c.mem_used_kb + page_kb)) z)

abbrev pub node_pref : TaskContract → ℕ
node_pref c =
    if c.preferred_node == numa_node_local
    then znode_local
    else if c.preferred_node == numa_node_remote
    then znode_remote
    else znode_any

-- A page within the budget: the contract is charged if the allocator has one.
unfoldable pub charge_page : TaskContract → Zalloc → ℕ × (TaskContract × Zalloc)
charge_page c z =
    let (result, z1) = zenedge_alloc_page (node_pref c) z in
    if result.addr == 0 then (0, (c, z1)) else (
      u32 result.addr,
      (
        record c { mem_used_kb = u32 (c.mem_used_kb + page_kb) },
        trace mem_alloc c.job_id result.node 1 z1,
      ),
    )

abbrev pub alloc_allowed : TaskContract → Zalloc → ℕ × (TaskContract × Zalloc)
alloc_allowed c z =
    if ltb c.memory_kb (u32 (c.mem_used_kb + page_kb)) then (0, deny_page c z) else charge_page c z

-- `contract_alloc_page` returns an address, 0 for none.
unfoldable pub alloc_page_in : ContractState → TaskContract → Zalloc → ℕ × (TaskContract × Zalloc)
alloc_page_in state_safe_mode c z = (0, (c, trace mem_alloc_fail c.job_id 0 0 z))
alloc_page_in state_ok c z = alloc_allowed c z
alloc_page_in state_warned c z = alloc_allowed c z

unfoldable pub contract_alloc_page : TaskContract → Zalloc → ℕ × (TaskContract × Zalloc)
contract_alloc_page c z = alloc_page_in c.state c z

unfoldable pub contract_free_page : ℕ → TaskContract → Zalloc → TaskContract × Zalloc
contract_free_page addr c z =
    let node = zenedge_get_node addr z in
    if addr == 0 then (c, z) else (
      (if leb page_kb c.mem_used_kb then record c { mem_used_kb = c.mem_used_kb - page_kb } else c),
      trace mem_free c.job_id node 1 (zenedge_free_page addr z),
    )

unfoldable pub can_continue : TaskContract → Bool
can_continue c = if state_code c.state == 2 then false else true
