-- ===== src/Contracts/Admit.antt =====
-- `contract_admit_job` against `contract_charge_memory`: a job is admitted if its peak can be charged,
-- except where the contract is overdrawn already.
use zenedge.Common.{
  ℕ, ◌+◌, ◌^◌, ◌<◌, ◌≤◌, ◌≡◌, ◌↔◌, refl, sym, ◌∙◌, ltb, if◌then◌else◌, u32, sub32, arith, inl, inr,
  Bool-cases,
}
use zenedge.JobGraph.{JobGraph}
use zenedge.Zalloc.{Zalloc}
use zenedge.Contracts.State.{
  TaskContract, AdmitResult, admit_ok, reject_memory, reject_no_resources,
}
use zenedge.Contracts.Ops.{charge_memory}
use zenedge.Contracts.Oracle.{admit_job}

-- What `admit_job` answers, without what it traces.
abbrev answer : TaskContract → JobGraph → AdmitResult
answer c job =
    if ltb c.memory_kb job.peak_memory_kb
    then reject_memory
    else if ltb c.memory_kb job.pinned_memory_kb
    then reject_memory
    else if ltb (sub32 c.memory_kb c.mem_used_kb) job.peak_memory_kb
    then reject_no_resources
    else admit_ok

-- What `charge_memory` answers for the job's peak.
abbrev violation : TaskContract → JobGraph → ℕ
violation c job = if ltb c.memory_kb (u32 (c.mem_used_kb + job.peak_memory_kb)) then 1 else 0

module _ (c : TaskContract) (job : JobGraph) (z : Zalloc) where
  admit_job-answer : (admit_job c job z).0 ≡ answer c job
  unfolding admit_job
  admit_job-answer = elim (Bool-cases (ltb c.memory_kb job.peak_memory_kb)) [
    | inl e ↦ rw e refl
    | inr e ↦ elim (Bool-cases (ltb c.memory_kb job.pinned_memory_kb)) [
      | inl e' ↦ rw (e, e') refl
      | inr e' ↦ elim (Bool-cases (ltb (sub32 c.memory_kb c.mem_used_kb) job.peak_memory_kb)) [
        | inl e'' ↦ rw (e, e', e'') refl
        | inr e'' ↦ rw (e, e', e'') refl
      ]
    ]
  ]

  charge_memory-violation : (charge_memory job.peak_memory_kb c z).0 ≡ violation c job
  unfolding charge_memory
  charge_memory-violation =
      elim (Bool-cases (ltb c.memory_kb (u32 (c.mem_used_kb + job.peak_memory_kb)))) [
        | inl e ↦ rw e refl
        | inr e ↦ rw e refl
      ]

admitted :
    (c : TaskContract) (job : JobGraph)
    → c.memory_kb < 2 ^ 32
    → answer c job ≡ admit_ok
    → (job.peak_memory_kb ≤ c.memory_kb)
      × (job.pinned_memory_kb ≤ c.memory_kb)
      × (job.peak_memory_kb ≤ sub32 c.memory_kb c.mem_used_kb)
admitted c job small e = ground arith

admits :
    (c : TaskContract) (job : JobGraph)
    → job.peak_memory_kb ≤ c.memory_kb
    → job.pinned_memory_kb ≤ c.memory_kb
    → job.peak_memory_kb ≤ sub32 c.memory_kb c.mem_used_kb
    → answer c job ≡ admit_ok
admits c job peak pinned rest = ground arith

module _ (c : TaskContract) (job : JobGraph) (z : Zalloc) (small : c.memory_kb < 2 ^ 32)
    (no_wrap : c.mem_used_kb + job.peak_memory_kb < 2 ^ 32) where
  -- Where the budget fits 32 bits, and so does what is used together with the job's peak: a contract that
  -- is within its memory budget admits the job exactly if the job's peak could be charged without a
  -- violation, and its pinned tensors alone fit the budget.
  pub admit_job-charge_memory :
      c.mem_used_kb ≤ c.memory_kb
      → ((admit_job c job z).0 ≡ admit_ok)
        ↔ (((charge_memory job.peak_memory_kb c z).0 ≡ 0) × (job.pinned_memory_kb ≤ c.memory_kb))
  admit_job-charge_memory within = (
    (λ ok.
        let (peak, pinned, rest) = admitted c job small (sym (admit_job-answer c job z) ∙ ok) in
        (charge_memory-violation c job z ∙ ground arith, pinned)),
    λ fits.
        let peak : c.mem_used_kb + job.peak_memory_kb ≤ c.memory_kb =
          no_violation (sym (charge_memory-violation c job z) ∙ fits.0) in
        admit_job-answer c job z ∙ admits c job (omega arith) fits.1 (omega arith),
  )
    where
      no_violation : violation c job ≡ 0 → c.mem_used_kb + job.peak_memory_kb ≤ c.memory_kb
      no_violation e = ground arith

  -- Where the budget fits 32 bits, and so does what is used together with the job's peak: a contract that
  -- is over its memory budget admits the job if its peak and its pinned tensors alone fit the budget,
  -- though charging the peak is a violation.
  pub admit_job_overdrawn :
      c.memory_kb < c.mem_used_kb
      → job.peak_memory_kb ≤ c.memory_kb
      → job.pinned_memory_kb ≤ c.memory_kb
      → ((admit_job c job z).0 ≡ admit_ok) × ((charge_memory job.peak_memory_kb c z).0 ≡ 1)
  admit_job_overdrawn over peak pinned = (
    admit_job-answer c job z ∙ admits c job peak pinned (omega arith),
    charge_memory-violation c job z ∙ ground arith,
  )
