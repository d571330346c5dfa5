-- ===== src/Contracts/Registry.antt =====
-- The registry of contracts: what is registered is found.
pub mod Follow
use mathlib.Core.Path.{subst}
use zenedge.Common.{
  ℕ, zero, suc, ◌+◌, ◌-◌, ◌*◌, ◌/◌, ◌%◌, ◌^◌, ◌<◌, ◌≤◌, ◌≡◌, ◌≢◌, ◌⊎◌, refl, sym, ◌∙◌, ap, Bool,
  true, false, leb, ltb, ◌==◌, if◌then◌else◌, u32, List, [], ◌∷◌, ◌++◌, length, Option, none, some,
  arith, inl, inr, Bool-cases, Option-cases, ==_refl, ==_ne, lt→ltb, le→ltb_false,
}
use zenedge.Zalloc.{Zalloc}
use zenedge.Contracts.State.{
  ContractState, state_ok, state_warned, state_safe_mode, TaskContract, System, Verdict, pass,
}
use zenedge.Contracts.Oracle.{
  replace_entry, contract_register, lookup_entry, contract_lookup, verdict_of, get_job_verdict,
  write_contract, fresh, apply, node_for, contract_registry_max,
}
use zenedge.Contracts.Grades.{
  Call, run_calls, grade, IsGraded, run_calls-IsGraded, run_calls-job_id,
}

module _ (f : ℕ → TaskContract) (ptr : ℕ) where
  lookup_entry-replace :
      (entries replaced : List ℕ)
      → replace_entry f ptr entries ≡ some replaced
      → (lookup_entry f (f ptr).job_id replaced ≡ some ptr)
        × ((job : ℕ)
            → job ≢ (f ptr).job_id
            → lookup_entry f job replaced ≡ lookup_entry f job entries)
  unfolding replace_entry lookup_entry
  lookup_entry-replace [] replaced e = absurd (ground arith)
  lookup_entry-replace (entry ∷ entries) replaced e =
      elim (Bool-cases ((f entry).job_id == (f ptr).job_id)) [
        | inl same ↦
            let q : ptr ∷ entries ≡ replaced = ground arith in
            subst Goal q (rw (==_refl (f ptr).job_id) refl, λ job ne. ground arith)
        | inr other ↦ elim (Option-cases (replace_entry f ptr entries)) [
          | inl e' ↦ absurd (ground arith)
          | inr (r, e') ↦
              let q : entry ∷ r ≡ replaced = ground arith in
              let (found, kept) = lookup_entry-replace entries r e' in
              subst Goal q (rw other found, λ job ne. rw (kept job ne) refl)
        ]
      ]
    where
      Goal : List ℕ → Type 0
      Goal l =
          (lookup_entry f (f ptr).job_id l ≡ some ptr)
          × ((job : ℕ)
              → job ≢ (f ptr).job_id
              → lookup_entry f job l ≡ lookup_entry f job (entry ∷ entries))

  -- Where no entry was replaced, the job is not in the registry.
  lookup_entry-append :
      (entries : List ℕ)
      → replace_entry f ptr entries ≡ none
      → (lookup_entry f (f ptr).job_id entries ≡ none)
        × (lookup_entry f (f ptr).job_id (entries ++ (ptr ∷ [])) ≡ some ptr)
        × ((job : ℕ)
            → job ≢ (f ptr).job_id
            → lookup_entry f job (entries ++ (ptr ∷ [])) ≡ lookup_entry f job entries)
  unfolding replace_entry lookup_entry
  lookup_entry-append [] e = (
    refl,
    rw (==_refl (f ptr).job_id) refl,
    λ job ne. rw (==_ne (f ptr).job_id job (λ q. ne (sym q))) refl,
  )
  lookup_entry-append (entry ∷ entries) e = elim (Bool-cases ((f entry).job_id == (f ptr).job_id)) [
    | inl same ↦ absurd (ground arith)
    | inr other ↦ elim (Option-cases (replace_entry f ptr entries)) [
      | inr (r, e') ↦ absurd (ground arith)
      | inl e' ↦
          let (absent, found, kept) = lookup_entry-append entries e' in
          (rw other absent, rw other found, λ job ne. rw (kept job ne) refl)
    ]
  ]

pub lookup_entry-cong :
    (f g : ℕ → TaskContract) (job : ℕ)
    → ((p : ℕ) → (f p).job_id ≡ (g p).job_id)
    → (entries : List ℕ) → lookup_entry f job entries ≡ lookup_entry g job entries
unfolding lookup_entry
lookup_entry-cong f g job same [] = refl
lookup_entry-cong f g job same (entry ∷ entries) =
    rw (same entry, lookup_entry-cong f g job same entries) refl

replaced_found :
    (f : ℕ → TaskContract) (ptr : ℕ) (entries replaced : List ℕ)
    → replace_entry f ptr entries ≡ some replaced
    → lookup_entry f (f ptr).job_id entries ≢ none
unfolding replace_entry lookup_entry
replaced_found f ptr [] replaced e absent = absurd (ground arith)
replaced_found f ptr (entry ∷ entries) replaced e absent =
    elim (Bool-cases ((f entry).job_id == (f ptr).job_id)) [
      | inl same ↦ absurd (ground arith)
      | inr other ↦ elim (Option-cases (replace_entry f ptr entries)) [
        | inl e' ↦ absurd (ground arith)
        | inr (r, e') ↦ replaced_found f ptr entries r e' (ground arith)
      ]
    ]

-- A contract can be registered where there is room, or an entry of the same job to replace.
abbrev pub HasRoom : ℕ → System → Type 0
HasRoom ptr s =
    (length s.registry < contract_registry_max)
    ⊎ (contract_lookup (s.contracts ptr).job_id s ≢ none)

module _ (ptr : ℕ) (s : System) where
  -- A registered contract is the one that its job's lookup finds; every other job's lookup finds what
  -- it found before.
  pub contract_lookup-contract_register :
      HasRoom ptr s
      → (contract_lookup (s.contracts ptr).job_id (contract_register ptr s) ≡ some ptr)
        × ((job : ℕ)
            → job ≢ (s.contracts ptr).job_id
            → contract_lookup job (contract_register ptr s) ≡ contract_lookup job s)
  unfolding contract_lookup contract_register
  contract_lookup-contract_register room =
      elim (Option-cases (replace_entry s.contracts ptr s.registry)) [
        | inr (r, e) ↦
            rw (e, contract_register) (lookup_entry-replace s.contracts ptr s.registry r e)
        | inl e ↦
            let (absent, found, kept) = lookup_entry-append s.contracts ptr s.registry e in
            elim room [
              | inl lt ↦
                  rw (e, contract_register, lt→ltb (length s.registry) contract_registry_max lt)
                    (found, kept)
              | inr there ↦ absurd (there absent)
            ]
      ]

  -- A contract of a new job is dropped where the registry is full.
  pub contract_register_full :
      contract_registry_max ≤ length s.registry
      → contract_lookup (s.contracts ptr).job_id s ≡ none
      → contract_register ptr s ≡ s
  unfolding contract_lookup contract_register
  contract_register_full full absent =
      elim (Option-cases (replace_entry s.contracts ptr s.registry)) [
        | inr (r, e) ↦ absurd (replaced_found s.contracts ptr s.registry r e absent)
        | inl e ↦
            rw (e, contract_register, le→ltb_false (length s.registry) contract_registry_max full)
              refl
      ]
