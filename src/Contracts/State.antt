-- ===== src/Contracts/State.antt =====
-- kernel/contracts.h and kernel/include/oracle.h: contracts, their states, and the verdicts on a job.
use zenedge.Common.{ℕ, List}
use zenedge.Zalloc.{Zalloc}

pub data ContractPriority : Type 0 where
  priority_low priority_normal priority_high priority_realtime : ContractPriority

pub data ContractState : Type 0 where
  state_ok state_warned state_safe_mode : ContractState

-- The value of `contract_state_t`, which is traced.
abbrev pub state_code : ContractState → ℕ
state_code state_ok = 0
state_code state_warned = 1
state_code state_safe_mode = 2

pub data MemTier : Type 0 where
  tier_ddr tier_hbm tier_device : MemTier

pub record TaskContract : Type 0 where
  pub cpu_budget_us : ℕ
  pub memory_kb : ℕ
  pub accel_slots : ℕ
  pub prio : ContractPriority
  pub preferred_node : ℕ
  pub tier_hint : MemTier
  pub cpu_used_us : ℕ
  pub mem_used_kb : ℕ
  pub cpu_violations : ℕ
  pub mem_violations : ℕ
  pub state : ContractState
  pub job_id : ℕ

pub data AdmitResult : Type 0 where
  admit_ok reject_memory reject_cpu reject_priority reject_no_resources : AdmitResult

abbrev pub admit_code : AdmitResult → ℕ
admit_code admit_ok = 0
admit_code reject_memory = 1
admit_code reject_cpu = 2
admit_code reject_priority = 3
admit_code reject_no_resources = 4

pub data Verdict : Type 0 where
  pass throttle kill : Verdict

-- What a contract's pointer leads to, the registry of pointers, and the layers below. A pointer is a
-- number; contracts that are passed around are shared through `contracts`.
pub record System : Type 0 where
  pub contracts : ℕ → TaskContract
  pub registry : List ℕ
  pub zalloc : Zalloc
