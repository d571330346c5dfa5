-- ===== src/Contracts/Registry/Follow.antt =====
-- The oracle's verdict on a job follows the contract that was applied.
use mathlib.Core.Path.{subst}
use zenedge.Common.{
  ℕ, ◌+◌, ◌^◌, ◌<◌, ◌≤◌, ◌≡◌, refl, sym, ◌∙◌, ap, ltb, ◌==◌, u32, List, length, none, some, arith,
  inl, inr, Bool-cases, Option-cases, ==_refl,
}
use zenedge.Zalloc.{Zalloc}
use zenedge.Contracts.State.{TaskContract, System, pass}
use zenedge.Contracts.Oracle.{
  replace_entry, contract_register, contract_lookup, verdict_of, get_job_verdict, write_contract,
  fresh, apply, node_for, contract_registry_max,
}
use zenedge.Contracts.Grades.{
  Call, run_calls, grade, IsGraded, run_calls-IsGraded, run_calls-job_id,
}
use zenedge.Contracts.Registry.{
  HasRoom, lookup_entry-cong, contract_lookup-contract_register, contract_register_full,
}

-- The calls that a job makes on the contract at `ptr`, which the registry shares.
unfoldable pub run_job : ℕ → List Call → System → System
run_job ptr calls s =
    let (c, z) = run_calls calls (s.contracts ptr, s.zalloc) in
    write_contract ptr c (record s { zalloc = z })

write_contract_self :
    (ptr : ℕ) (c : TaskContract) (s : System) → (write_contract ptr c s).contracts ptr ≡ c
write_contract_self ptr c s = rw (==_refl ptr) refl

-- A write that keeps the job leaves every lookup as it is.
contract_lookup-write_contract :
    (job ptr : ℕ) (c : TaskContract) (s : System)
    → c.job_id ≡ (s.contracts ptr).job_id
    → contract_lookup job (write_contract ptr c s) ≡ contract_lookup job s
unfolding contract_lookup
contract_lookup-write_contract job ptr c s e =
    lookup_entry-cong (write_contract ptr c s).contracts s.contracts job same s.registry
  where
    same : (p : ℕ) → ((write_contract ptr c s).contracts p).job_id ≡ (s.contracts p).job_id
    same p = elim (Bool-cases (p == ptr)) [
      | inl q ↦ let p_ptr : p ≡ ptr = ground arith in rw (q, p_ptr) e
      | inr q ↦ rw q refl
    ]

contract_register-contracts :
    (ptr : ℕ) (s : System) → (contract_register ptr s).contracts ≡ s.contracts
unfolding contract_register
contract_register-contracts ptr s = elim (Option-cases (replace_entry s.contracts ptr s.registry)) [
  | inr (r, e) ↦ rw (e, contract_register) refl
  | inl e ↦ elim (Bool-cases (ltb (length s.registry) contract_registry_max)) [
    | inl lt ↦ rw (e, contract_register, lt) refl
    | inr ge ↦ rw (e, contract_register, ge) refl
  ]
]

-- The contract after `contract_apply`.
abbrev assigned : TaskContract → TaskContract
assigned c = record c { preferred_node = node_for c.prio }

abbrev applied : TaskContract → TaskContract
applied c = assigned (fresh c)

module _ (ptr : ℕ) (s : System) where
  s0 : System
  s0 = write_contract ptr (fresh (s.contracts ptr)) s

  s1 : System
  s1 = contract_register ptr s0

  s1_at : s1.contracts ptr ≡ fresh (s.contracts ptr)
  unfolding s1 s0
  s1_at =
      ap (λ f. f ptr) (contract_register-contracts ptr s0)
      ∙ write_contract_self ptr (fresh (s.contracts ptr)) s

  apply_at : (apply ptr s).contracts ptr ≡ applied (s.contracts ptr)
  unfolding apply s1 s0
  apply_at =
      write_contract_self ptr
        (record (s1.contracts ptr) { preferred_node = node_for (s1.contracts ptr).prio }) s1
      ∙ ap assigned s1_at

  apply_lookup : HasRoom ptr s → contract_lookup (s.contracts ptr).job_id (apply ptr s) ≡ some ptr
  unfolding apply s1 s0 contract_lookup
  apply_lookup room =
      contract_lookup-write_contract (s.contracts ptr).job_id ptr (assigned (s1.contracts ptr)) s1
        refl
      ∙ ap (λ job. contract_lookup job s1) (sym job)
      ∙ (contract_lookup-contract_register ptr s0 room0).0
    where
      job : (s0.contracts ptr).job_id ≡ (s.contracts ptr).job_id
      job = ap (λ c. c.job_id) (write_contract_self ptr (fresh (s.contracts ptr)) s)

      room0 : HasRoom ptr s0
      room0 = elim room [
        | inl lt ↦ inl lt
        | inr there ↦ inr (λ absent. there (
            sym (
              contract_lookup-write_contract (s.contracts ptr).job_id ptr (fresh (s.contracts ptr))
                s refl)
            ∙ ap (λ j. contract_lookup j s0) (sym job)
            ∙ absent))
      ]

  apply_lookup_full :
      contract_registry_max ≤ length s.registry
      → contract_lookup (s.contracts ptr).job_id s ≡ none
      → contract_lookup (s.contracts ptr).job_id (apply ptr s) ≡ none
  unfolding apply s1 s0 contract_lookup
  apply_lookup_full full absent =
      contract_lookup-write_contract (s.contracts ptr).job_id ptr (assigned (s1.contracts ptr)) s1
        refl
      ∙ ap (contract_lookup (s.contracts ptr).job_id) (contract_register_full ptr s0 full absent0)
      ∙ contract_lookup-write_contract (s.contracts ptr).job_id ptr (fresh (s.contracts ptr)) s refl
      ∙ absent
    where
      absent0 : contract_lookup (s0.contracts ptr).job_id s0 ≡ none
      absent0 =
          ap (λ c. contract_lookup c.job_id s0)
            (write_contract_self ptr (fresh (s.contracts ptr)) s)
          ∙ contract_lookup-write_contract (s.contracts ptr).job_id ptr (fresh (s.contracts ptr)) s
              refl
          ∙ absent

get_job_verdict-found :
    (job ptr : ℕ) (s : System)
    → contract_lookup (u32 job) s ≡ some ptr
    → get_job_verdict job s ≡ verdict_of (s.contracts ptr).state
unfolding get_job_verdict
get_job_verdict-found job ptr s e = rw (e, get_job_verdict) refl

module _ (ptr : ℕ) (calls : List Call) (s : System) where
  run_job_at : (run_job ptr calls s).contracts ptr ≡ (run_calls calls (s.contracts ptr, s.zalloc)).0
  unfolding run_job
  run_job_at = write_contract_self ptr (run_calls calls (s.contracts ptr, s.zalloc)).0 s

contract_lookup-run_job :
    (job ptr : ℕ) (calls : List Call) (s : System)
    → contract_lookup job (run_job ptr calls s) ≡ contract_lookup job s
unfolding run_job contract_lookup
contract_lookup-run_job job ptr calls s =
    contract_lookup-write_contract job ptr (run_calls calls (s.contracts ptr, s.zalloc)).0 s
      (run_calls-job_id calls (s.contracts ptr, s.zalloc))

-- Once a contract is applied, and the registry has room for it, the oracle's verdict on its job
-- follows what the job does: after every sequence of calls it is PASS if there was no violation, KILL
-- from three violations of the processor budget or two of the memory budget on, THROTTLE in between.
pub get_job_verdict-run_job :
    (ptr : ℕ) (calls : List Call) (s : System)
    → (s.contracts ptr).job_id < 2 ^ 32
    → HasRoom ptr s
    → length calls < 2 ^ 32
    → let s' = run_job ptr calls (apply ptr s) in
      let c = s'.contracts ptr in
      get_job_verdict (s.contracts ptr).job_id s'
      ≡ verdict_of (grade c.cpu_violations c.mem_violations)
get_job_verdict-run_job ptr calls s small room few =
    get_job_verdict-found (s.contracts ptr).job_id ptr (run_job ptr calls (apply ptr s)) lookup
    ∙ ap verdict_of graded
  where
    same_id : u32 (s.contracts ptr).job_id ≡ (s.contracts ptr).job_id
    same_id = omega arith

    lookup :
        contract_lookup (u32 (s.contracts ptr).job_id) (run_job ptr calls (apply ptr s)) ≡ some ptr
    lookup =
        ap (λ job. contract_lookup job (run_job ptr calls (apply ptr s))) same_id
        ∙ contract_lookup-run_job (s.contracts ptr).job_id ptr calls (apply ptr s)
        ∙ apply_lookup ptr s room

    start : TaskContract × Zalloc
    start = ((apply ptr s).contracts ptr, (apply ptr s).zalloc)

    none_yet : start.0.cpu_violations + start.0.mem_violations ≡ 0
    none_yet = ap (λ c. c.cpu_violations + c.mem_violations) (apply_at ptr s)

    graded : IsGraded ((run_job ptr calls (apply ptr s)).contracts ptr)
    graded = subst IsGraded (sym (run_job_at ptr calls (apply ptr s))) (
        run_calls-IsGraded calls start (subst IsGraded (sym (apply_at ptr s)) refl)
          (omega (arith, none_yet)))

-- Where the registry is full of other jobs, applying a contract leaves its job unknown, and the
-- oracle's verdict on it is PASS whatever the job does.
get_job_verdict_full :
    (ptr : ℕ) (calls : List Call) (s : System)
    → (s.contracts ptr).job_id < 2 ^ 32
    → contract_registry_max ≤ length s.registry
    → contract_lookup (s.contracts ptr).job_id s ≡ none
    → get_job_verdict (s.contracts ptr).job_id (run_job ptr calls (apply ptr s)) ≡ pass
get_job_verdict_full ptr calls s small full absent =
    unfold get_job_verdict in rw (lookup, get_job_verdict) refl
  where
    same_id : u32 (s.contracts ptr).job_id ≡ (s.contracts ptr).job_id
    same_id = omega arith

    lookup : contract_lookup (u32 (s.contracts ptr).job_id) (run_job ptr calls (apply ptr s)) ≡ none
    lookup =
        ap (λ job. contract_lookup job (run_job ptr calls (apply ptr s))) same_id
        ∙ contract_lookup-run_job (s.contracts ptr).job_id ptr calls (apply ptr s)
        ∙ apply_lookup_full ptr s full absent
