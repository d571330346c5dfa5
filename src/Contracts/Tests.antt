-- ===== src/Contracts/Tests.antt =====
-- Runs of contracts.c at a concrete contract, and the theorems at them.
use zenedge.Common.{
  ℕ, ◌+◌, ◌*◌, ◌≤◌, ◌≡◌, ◌↔◌, refl, false, ◌==◌, if◌then◌else◌, List, [], ◌∷◌, arith, inl,
}
use zenedge.JobGraph.{JobGraph}
use zenedge.Bitmap.{bitmap_test}
use zenedge.Pmm.{is_used, alloc_page, alloc_preferred, alloc_from_node, first_free}
use zenedge.Pmm.Sample.{small, small-IsConsistent}
use zenedge.Zalloc.{Zalloc, trace, zenedge_alloc_page}
use zenedge.FlightRec.{mem_alloc_fail}
use zenedge.Contracts.State.{
  TaskContract, System, state_ok, state_safe_mode, priority_realtime, tier_ddr, admit_ok,
}
use zenedge.Contracts.Ops.{
  charge_page, alloc_page_in, charge_cpu, charge_memory, contract_alloc_page, contract_free_page,
  can_continue, page_kb,
}
use zenedge.Contracts.Oracle.{get_job_verdict, verdict_of, admit_job, apply}
use zenedge.Contracts.Grades.{
  Call, charge_cpu_call, charge_memory_call, run_call, run_calls, grade, IsGraded,
  run_calls-IsGraded, run_calls-safe_mode,
}
use zenedge.Contracts.Pages.{PageOutcome, contract_alloc_page-PageOutcome}
use zenedge.Contracts.Release.{contract_free_page-contract_alloc_page, contract_free_page_twice}
use zenedge.Contracts.Registry.Follow.{run_job, get_job_verdict-run_job}
use zenedge.Contracts.Admit.{admit_job-charge_memory, admit_job_overdrawn}

-- 100 us of processor time and 16 KB.
abbrev contract : TaskContract
contract = record {
  cpu_budget_us = 100;
  memory_kb = 16;
  accel_slots = 0;
  prio = priority_realtime;
  preferred_node = 0;
  tier_hint = tier_ddr;
  cpu_used_us = 0;
  mem_used_kb = 0;
  cpu_violations = 0;
  mem_violations = 0;
  state = state_ok;
  job_id = 7;
}

abbrev layer : Zalloc
layer = record { pmm = small; total_allocated = 0; total_freed = 0 }

-- One violation of each budget, then two more of the processor's.
abbrev burst : List Call
burst =
    charge_cpu_call 60
    ∷ charge_cpu_call 60
    ∷ charge_memory_call 20
    ∷ charge_cpu_call 1
    ∷ charge_cpu_call 1
    ∷ []

burst_state : (run_calls burst (contract, layer)).0.state ≡ state_safe_mode
unfolding run_calls run_call charge_cpu charge_memory
burst_state = refl

run_calls-IsGraded_example : IsGraded (run_calls burst (contract, layer)).0
run_calls-IsGraded_example = run_calls-IsGraded burst (contract, layer) refl (omega arith)

abbrev stopped : TaskContract
stopped = record contract { state = state_safe_mode; cpu_violations = 3 }

run_calls-safe_mode_example :
    let s = run_calls burst (stopped, layer) in
    (s.0.state ≡ state_safe_mode)
    × (can_continue s.0 ≡ false)
    × (((contract_alloc_page s.0 s.1).0 ≡ 0)
        × ((contract_alloc_page s.0 s.1).1 ≡ (s.0, trace mem_alloc_fail s.0.job_id 0 0 s.1)))
run_calls-safe_mode_example = run_calls-safe_mode burst (stopped, layer) refl

contract_alloc_page-PageOutcome_example :
    PageOutcome contract layer (contract_alloc_page contract layer)
contract_alloc_page-PageOutcome_example =
    contract_alloc_page-PageOutcome contract layer small-IsConsistent (omega arith)

abbrev charged : TaskContract
charged = record contract { mem_used_kb = 8 }

contract_free_page_twice_example :
    let (c1, z1) = contract_free_page 0x100000 charged layer in
    let (c2, z2) = contract_free_page 0x100000 c1 z1 in
    (c2.mem_used_kb + 2 * page_kb ≡ charged.mem_used_kb)
    × (z2.pmm.page_bitmap ≡ z1.pmm.page_bitmap)
    × (z2.pmm.free_pages ≡ z1.pmm.free_pages)
contract_free_page_twice_example =
    contract_free_page_twice 0x100000 charged layer small-IsConsistent (omega arith) (omega arith)

-- The contract of job 7 is at pointer 1, and every other pointer leads to one of job 8.
abbrev system : List ℕ → System
system entries = record {
  contracts = λ ptr. if ptr == 1 then contract else record contract { job_id = 8 };
  registry = entries;
  zalloc = layer;
}

get_job_verdict-run_job_example :
    let s = run_job 1 burst (apply 1 (system (2 ∷ []))) in
    get_job_verdict 7 s
    ≡ verdict_of (grade (s.contracts 1).cpu_violations (s.contracts 1).mem_violations)
get_job_verdict-run_job_example =
    get_job_verdict-run_job 1 burst (system (2 ∷ [])) (omega arith) (inl (omega arith))
      (omega arith)

abbrev job : JobGraph
job = record {
  id = 7;
  steps = [];
  tensors = [];
  total_memory_kb = 12;
  peak_memory_kb = 12;
  pinned_memory_kb = 4;
}

admit_job-charge_memory_example :
    ((admit_job contract job layer).0 ≡ admit_ok)
    ↔ (((charge_memory 12 contract layer).0 ≡ 0) × (job.pinned_memory_kb ≤ contract.memory_kb))
admit_job-charge_memory_example =
    admit_job-charge_memory contract job layer (omega arith) (omega arith) (omega arith)

abbrev overdrawn : TaskContract
overdrawn = record contract { mem_used_kb = 20 }

admit_job_overdrawn_example :
    ((admit_job overdrawn job layer).0 ≡ admit_ok) × ((charge_memory 12 overdrawn layer).0 ≡ 1)
admit_job_overdrawn_example =
    admit_job_overdrawn overdrawn job layer (omega arith) (omega arith) (omega arith) (omega arith)
      (omega arith)

contract_free_page-contract_alloc_page_example :
    let (addr, (c1, z1)) = contract_alloc_page contract layer in
    let (c2, z2) = contract_free_page addr c1 z1 in
    (c2 ≡ contract)
    × ((j : ℕ) → is_used z2.pmm j ≡ is_used small j)
    × (z2.pmm.free_pages ≡ small.free_pages)
unfolding contract_alloc_page alloc_page_in charge_page zenedge_alloc_page alloc_page
    alloc_preferred alloc_from_node first_free bitmap_test
contract_free_page-contract_alloc_page_example =
    contract_free_page-contract_alloc_page contract layer small-IsConsistent (omega arith)
      (omega arith)
