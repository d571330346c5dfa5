-- ===== src/Contracts/Oracle.antt =====
-- kernel/api/contract_registry.c and oracle.c, `contract_apply`, and `contract_admit_job`: what other
-- parts of the kernel ask of a contract.
use zenedge.Common.{
  ℕ, ◌+◌, Option, none, some, ltb, ◌==◌, if◌then◌else◌, u32, sub32, List, [], ◌∷◌, ◌++◌, length,
}
use zenedge.FlightRec.{contract_apply, job_reject, job_admit, budget_warn}
use zenedge.JobGraph.{JobGraph, JobStep, StepType, compute, collective, io, control}
use zenedge.Pmm.{numa_node_local, numa_node_remote}
use zenedge.Zalloc.{Zalloc, trace}
use zenedge.Contracts.State.{
  ContractPriority, priority_low, priority_normal, priority_high, priority_realtime, ContractState,
  state_ok, state_warned, state_safe_mode, TaskContract, AdmitResult, admit_ok, reject_memory,
  reject_no_resources, admit_code, Verdict, pass, throttle, kill, System,
}

abbrev pub contract_registry_max : ℕ
contract_registry_max = 64

-- The loop that replaces the pointer to a contract of the same job; `none` where there is none.
unfoldable pub replace_entry : (ℕ → TaskContract) → ℕ → List ℕ → Option (List ℕ)
replace_entry contracts ptr [] = none
replace_entry contracts ptr (entry ∷ entries) =
    if (contracts entry).job_id == (contracts ptr).job_id
    then some (ptr ∷ entries)
    else elim (replace_entry contracts ptr entries) [
      | none ↦ none
      | some replaced ↦ some (entry ∷ replaced)
    ]

-- `contract_register` of a pointer that is not null.
unfoldable pub contract_register : ℕ → System → System
contract_register ptr s = elim (replace_entry s.contracts ptr s.registry) [
  | some replaced ↦ record s { registry = replaced }
  | none ↦
      if ltb (length s.registry) contract_registry_max
      then record s { registry = s.registry ++ (ptr ∷ []) }
      else s
]

-- The loop of `contract_lookup`.
unfoldable pub lookup_entry : (ℕ → TaskContract) → ℕ → List ℕ → Option ℕ
lookup_entry contracts job_id [] = none
lookup_entry contracts job_id (entry ∷ entries) =
    if (contracts entry).job_id == job_id then some entry else lookup_entry contracts job_id entries

unfoldable pub contract_lookup : ℕ → System → Option ℕ
contract_lookup job_id s = lookup_entry s.contracts job_id s.registry

abbrev pub verdict_of : ContractState → Verdict
verdict_of state_ok = pass
verdict_of state_warned = throttle
verdict_of state_safe_mode = kill

-- The job id is cut to 32 bits.
unfoldable pub get_job_verdict : ℕ → System → Verdict
get_job_verdict job_id s = elim (contract_lookup (u32 job_id) s) [
  | none ↦ pass
  | some ptr ↦ verdict_of (s.contracts ptr).state
]

-- A write to the contract at a pointer.
abbrev pub write_contract : ℕ → TaskContract → System → System
write_contract ptr c s = record s {
  contracts = λ other. if other == ptr then c else s.contracts other;
}

abbrev pub node_for : ContractPriority → ℕ
node_for priority_realtime = numa_node_local
node_for priority_low = numa_node_remote
node_for priority_normal = numa_node_remote
node_for priority_high = numa_node_remote

-- The contract with its accounts at 0.
abbrev pub fresh : TaskContract → TaskContract
fresh c = record c {
  cpu_used_us = 0;
  mem_used_kb = 0;
  cpu_violations = 0;
  mem_violations = 0;
  state = state_ok;
}

unfoldable pub apply : ℕ → System → System
apply ptr s =
    let s1 = contract_register ptr (write_contract ptr (fresh (s.contracts ptr)) s) in
    let c = s1.contracts ptr in
    let s2 = write_contract ptr (record c { preferred_node = node_for c.prio }) s1 in
    record s2 { zalloc = trace contract_apply c.job_id 0 c.cpu_budget_us s2.zalloc }

abbrev step_cost : StepType → ℕ
step_cost compute = 1000
step_cost collective = 3000
step_cost io = 2000
step_cost control = 100

-- The loop that estimates the processor time of the steps.
unfoldable pub estimate : List JobStep → ℕ → ℕ
estimate [] us = us
estimate (s ∷ steps) us = estimate steps (u32 (us + step_cost s.type))

unfoldable pub admit_job : TaskContract → JobGraph → Zalloc → AdmitResult × Zalloc
admit_job c job z =
    let available_kb = sub32 c.memory_kb c.mem_used_kb in
    let estimated_us = estimate job.steps 0 in
    if ltb c.memory_kb job.peak_memory_kb
    then (reject_memory, trace job_reject job.id (admit_code reject_memory) job.peak_memory_kb z)
    else if ltb c.memory_kb job.pinned_memory_kb
    then (reject_memory, trace job_reject job.id (admit_code reject_memory) job.pinned_memory_kb z)
    else if ltb available_kb job.peak_memory_kb
    then (
      reject_no_resources,
      trace job_reject job.id (admit_code reject_no_resources) available_kb z,
    )
    else (
      admit_ok,
      trace job_admit job.id job.peak_memory_kb estimated_us (
          if ltb c.cpu_budget_us estimated_us
          then trace budget_warn job.id 0 estimated_us z
          else z),
    )
