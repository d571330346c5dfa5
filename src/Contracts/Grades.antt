-- ===== src/Contracts/Grades.antt =====
-- The state machine of a contract under the calls of a running job.
use zenedge.Common.{
  ℕ, ◌+◌, ◌^◌, ◌<◌, ◌≤◌, ◌≡◌, refl, ◌∙◌, ap, Bool, true, false, ◌&&◌, ◌||◌, leb, ltb, ◌==◌,
  if◌then◌else◌, u32, List, [], ◌∷◌, length, arith, inl, inr, Bool-cases,
}
use zenedge.FlightRec.{budget_exceed, contract_exceed, mem_alloc_fail}
use zenedge.Zalloc.{Zalloc, trace, zenedge_alloc_page}
use zenedge.Contracts.State.{ContractState, state_ok, state_warned, state_safe_mode, TaskContract}
use zenedge.Contracts.Ops.{
  escalate, charge_cpu, charge_memory, charge_page, node_pref, alloc_allowed, alloc_page_in,
  contract_alloc_page, contract_free_page, page_kb, can_continue,
}

-- The calls that a running job makes on its contract.
pub data Call : Type 0 where
  charge_cpu_call : (usec : ℕ) → Call
  charge_memory_call : (kb : ℕ) → Call
  alloc_page_call : Call
  free_page_call : (addr : ℕ) → Call

unfoldable pub run_call : Call → TaskContract × Zalloc → TaskContract × Zalloc
run_call (charge_cpu_call usec) (c, z) = (charge_cpu usec c z).1
run_call (charge_memory_call kb) (c, z) = (charge_memory kb c z).1
run_call alloc_page_call (c, z) = (contract_alloc_page c z).1
run_call (free_page_call addr) (c, z) = contract_free_page addr c z

unfoldable pub run_calls : List Call → TaskContract × Zalloc → TaskContract × Zalloc
run_calls [] s = s
run_calls (call ∷ calls) s = run_calls calls (run_call call s)

-- OK without a violation; SAFE_MODE from three violations of the processor budget or two of the memory
-- budget on; WARNED in between.
abbrev pub grade : ℕ → ℕ → ContractState
grade cpu mem =
    if cpu == 0 && mem == 0
    then state_ok
    else if leb 3 cpu || leb 2 mem
    then state_safe_mode
    else state_warned

abbrev pub IsGraded : TaskContract → Type 0
IsGraded c = c.state ≡ grade c.cpu_violations c.mem_violations

-- The state after a violation, whatever is traced.
unfoldable pub escalated : ContractState → Bool → ContractState
escalated state_ok again = state_warned
escalated state_warned again = if again then state_safe_mode else state_warned
escalated state_safe_mode again = state_safe_mode

pub escalate_lem :
    (state : ContractState) (again : Bool) (c : TaskContract) (z : Zalloc)
    → c.state ≡ state
    → (escalate state again c z).0 ≡ record c { state = escalated state again }
unfolding escalated
escalate_lem state_ok again c z e = rw e refl
escalate_lem state_warned true c z e = rw e refl
escalate_lem state_warned false c z e = ap (λ s. record c { state = s }) e
escalate_lem state_safe_mode again c z e = ap (λ s. record c { state = s }) e

-- A step of one counter keeps to the grades.
grade_cpu : (cpu mem : ℕ) → escalated (grade cpu mem) (leb 3 (cpu + 1)) ≡ grade (cpu + 1) mem
unfolding escalated
grade_cpu cpu mem = ground arith

grade_mem : (cpu mem : ℕ) → escalated (grade cpu mem) (leb 2 (mem + 1)) ≡ grade cpu (mem + 1)
unfolding escalated
grade_mem cpu mem = ground arith

-- What a call does to the counts and the state.
data Change (c c' : TaskContract) : Type 0 where
  unchanged :
      c'.state ≡ c.state
      → c'.cpu_violations ≡ c.cpu_violations
      → c'.mem_violations ≡ c.mem_violations
      → c'.job_id ≡ c.job_id
      → Change c c'
  cpu_violated :
      c'.state ≡ escalated c.state (leb 3 (u32 (c.cpu_violations + 1)))
      → c'.cpu_violations ≡ u32 (c.cpu_violations + 1)
      → c'.mem_violations ≡ c.mem_violations
      → c'.job_id ≡ c.job_id
      → Change c c'
  mem_violated :
      c'.state ≡ escalated c.state (leb 2 (u32 (c.mem_violations + 1)))
      → c'.cpu_violations ≡ c.cpu_violations
      → c'.mem_violations ≡ u32 (c.mem_violations + 1)
      → c'.job_id ≡ c.job_id
      → Change c c'

charge_cpu-Change : (usec : ℕ) (c : TaskContract) (z : Zalloc) → Change c (charge_cpu usec c z).1.0
unfolding charge_cpu
charge_cpu-Change usec c z = elim (Bool-cases (ltb c.cpu_budget_us (u32 (c.cpu_used_us + usec)))) [
  | inr e ↦ rw e (unchanged refl refl refl refl)
  | inl e ↦
      let c2 = record c {
        cpu_used_us = u32 (c.cpu_used_us + usec);
        cpu_violations = u32 (c.cpu_violations + 1);
      } in
      let q =
        escalate_lem c.state (leb 3 c2.cpu_violations) c2
          (trace budget_exceed c.job_id 0 c2.cpu_used_us z) refl in
      rw e (
        cpu_violated (ap (λ x. x.state) q) (ap (λ x. x.cpu_violations) q)
          (ap (λ x. x.mem_violations) q) (ap (λ x. x.job_id) q))
]

charge_memory-Change :
    (kb : ℕ) (c : TaskContract) (z : Zalloc) → Change c (charge_memory kb c z).1.0
unfolding charge_memory
charge_memory-Change kb c z = elim (Bool-cases (ltb c.memory_kb (u32 (c.mem_used_kb + kb)))) [
  | inr e ↦ rw e (unchanged refl refl refl refl)
  | inl e ↦
      let c2 = record c {
        mem_used_kb = u32 (c.mem_used_kb + kb);
        mem_violations = u32 (c.mem_violations + 1);
      } in
      let q =
        escalate_lem c.state (leb 2 c2.mem_violations) c2
          (trace contract_exceed c.job_id 0 c2.mem_used_kb z) refl in
      rw e (
        mem_violated (ap (λ x. x.state) q) (ap (λ x. x.cpu_violations) q)
          (ap (λ x. x.mem_violations) q) (ap (λ x. x.job_id) q))
]

charge_page-Change : (c : TaskContract) (z : Zalloc) → Change c (charge_page c z).1.0
unfolding charge_page
charge_page-Change c z = elim (Bool-cases ((zenedge_alloc_page (node_pref c) z).0.addr == 0)) [
  | inl e ↦ rw e (unchanged refl refl refl refl)
  | inr e ↦ rw e (unchanged refl refl refl refl)
]

alloc_allowed-Change : (c : TaskContract) (z : Zalloc) → Change c (alloc_allowed c z).1.0
alloc_allowed-Change c z = elim (Bool-cases (ltb c.memory_kb (u32 (c.mem_used_kb + page_kb)))) [
  | inr e ↦ rw e (charge_page-Change c z)
  | inl e ↦
      let c2 = record c { mem_violations = u32 (c.mem_violations + 1) } in
      let q =
        escalate_lem c.state (leb 2 c2.mem_violations) c2
          (trace contract_exceed c.job_id 0 (u32 (c.mem_used_kb + page_kb)) z) refl in
      rw e (
        mem_violated (ap (λ x. x.state) q) (ap (λ x. x.cpu_violations) q)
          (ap (λ x. x.mem_violations) q) (ap (λ x. x.job_id) q))
]

alloc_page_in-Change :
    (state : ContractState) (c : TaskContract) (z : Zalloc) → Change c (alloc_page_in state c z).1.0
unfolding alloc_page_in
alloc_page_in-Change state_ok c z = alloc_allowed-Change c z
alloc_page_in-Change state_warned c z = alloc_allowed-Change c z
alloc_page_in-Change state_safe_mode c z = unchanged refl refl refl refl

run_call-Change : (call : Call) (s : TaskContract × Zalloc) → Change s.0 (run_call call s).0
unfolding run_call contract_alloc_page contract_free_page
run_call-Change (charge_cpu_call usec) (c, z) = charge_cpu-Change usec c z
run_call-Change (charge_memory_call kb) (c, z) = charge_memory-Change kb c z
run_call-Change alloc_page_call (c, z) = alloc_page_in-Change c.state c z
run_call-Change (free_page_call addr) (c, z) = elim (Bool-cases (addr == 0)) [
  | inl e ↦ rw e (unchanged refl refl refl refl)
  | inr e ↦ elim (Bool-cases (leb page_kb c.mem_used_kb)) [
    | inl e' ↦ rw (e, e') (unchanged refl refl refl refl)
    | inr e' ↦ rw (e, e') (unchanged refl refl refl refl)
  ]
]

Change-IsGraded :
    (c c' : TaskContract)
    → Change c c'
    → IsGraded c
    → c.cpu_violations + c.mem_violations + 1 < 2 ^ 32
    → IsGraded c'
      × (c'.cpu_violations + c'.mem_violations ≤ c.cpu_violations + c.mem_violations + 1)
Change-IsGraded c c' (unchanged e ec em ej) h lt = (e ∙ h ∙ rw (ec, em) refl, omega arith)
Change-IsGraded c c' (cpu_violated e ec em ej) h lt =
    let small : u32 (c.cpu_violations + 1) ≡ c.cpu_violations + 1 = omega arith in
    (e ∙ rw (small, h, ec, small, em) (grade_cpu c.cpu_violations c.mem_violations), omega arith)
Change-IsGraded c c' (mem_violated e ec em ej) h lt =
    let small : u32 (c.mem_violations + 1) ≡ c.mem_violations + 1 = omega arith in
    (e ∙ rw (small, h, ec, em, small) (grade_mem c.cpu_violations c.mem_violations), omega arith)

-- After every sequence of calls, the state is the grade of the violation counts, if it was before and
-- the counts cannot wrap around.
pub run_calls-IsGraded :
    (calls : List Call) (s : TaskContract × Zalloc)
    → IsGraded s.0
    → s.0.cpu_violations + s.0.mem_violations + length calls < 2 ^ 32
    → IsGraded (run_calls calls s).0
unfolding run_calls
run_calls-IsGraded [] s h lt = h
run_calls-IsGraded (call ∷ calls) s h lt =
    let (h', le) =
      Change-IsGraded s.0 (run_call call s).0 (run_call-Change call s) h (omega arith) in
    run_calls-IsGraded calls (run_call call s) h' (omega arith)

Change-safe_mode :
    (c c' : TaskContract) → Change c c' → c.state ≡ state_safe_mode → c'.state ≡ state_safe_mode
unfolding escalated
Change-safe_mode c c' (unchanged e ec em ej) h = e ∙ h
Change-safe_mode c c' (cpu_violated e ec em ej) h = e ∙ rw h refl
Change-safe_mode c c' (mem_violated e ec em ej) h = e ∙ rw h refl

-- What a page request comes to in SAFE_MODE: nothing but a record in the flight recorder.
abbrev IsDenied : TaskContract × Zalloc → Type 0
IsDenied (c, z) =
    ((contract_alloc_page c z).0 ≡ 0)
    × ((contract_alloc_page c z).1 ≡ (c, trace mem_alloc_fail c.job_id 0 0 z))

-- As long as a job only charges its contract and requests and frees pages, SAFE_MODE is final: after
-- every sequence of these four calls the state is SAFE_MODE still, the job may not continue, and every
-- request for a page is refused, with nothing changed but the flight recorder. Applying the contract
-- again and setting its state directly are not among the calls.
pub run_calls-safe_mode :
    (calls : List Call) (s : TaskContract × Zalloc)
    → s.0.state ≡ state_safe_mode
    → let s' = run_calls calls s in
      (s'.0.state ≡ state_safe_mode) × (can_continue s'.0 ≡ false) × IsDenied s'
unfolding run_calls can_continue contract_alloc_page alloc_page_in
run_calls-safe_mode [] s h = (h, rw h refl, (rw h refl, rw h refl))
run_calls-safe_mode (call ∷ calls) s h =
    run_calls-safe_mode calls (run_call call s)
      (Change-safe_mode s.0 (run_call call s).0 (run_call-Change call s) h)

Change-job_id : (c c' : TaskContract) → Change c c' → c'.job_id ≡ c.job_id
Change-job_id c c' (unchanged e ec em ej) = ej
Change-job_id c c' (cpu_violated e ec em ej) = ej
Change-job_id c c' (mem_violated e ec em ej) = ej

pub run_calls-job_id :
    (calls : List Call) (s : TaskContract × Zalloc) → (run_calls calls s).0.job_id ≡ s.0.job_id
unfolding run_calls
run_calls-job_id [] s = refl
run_calls-job_id (call ∷ calls) s =
    run_calls-job_id calls (run_call call s)
    ∙ Change-job_id s.0 (run_call call s).0 (run_call-Change call s)
