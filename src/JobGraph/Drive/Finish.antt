-- ===== src/JobGraph/Drive/Finish.antt =====
-- The scheduler's rounds over a graph, and the graphs that they can run to the end.
use zenedge.Common.{
  ℕ, zero, suc, ◌^◌, ◌<◌, ◌≡◌, true, false, some, List, [], ◌∷◌, arith, inl, inr, leb,
  if◌then◌else◌, Bool-cases, All,
}
use zenedge.JobGraph.{
  JobStep, JobGraph, find_step, update_step, complete_step, wake, rescan, first_ready, next_ready,
  mark_completed, deps_done,
}
use zenedge.JobGraph.Lookup.{done, update_step-All}
use zenedge.JobGraph.Ready.{marked, IsSafe, IsAwake}
use zenedge.JobGraph.Drive.Count.{ids, Distinct, has}

-- The rounds of `sched_run_job`: the ids that it runs, and the graph that it leaves. The negative
-- ids, -1 among them, end it.
unfoldable pub drive : ℕ → JobGraph → List ℕ × JobGraph
drive zero job = ([], job)
drive (suc fuel) job =
    let rest = drive fuel (mark_completed job (next_ready job)) in
    if leb (2 ^ 31) (next_ready job) then ([], job) else (next_ready job ∷ rest.0, rest.1)

-- The order `is` runs steps of the table that were not completed, each with all its dependencies
-- completed when it is run.
pub data Executes : JobGraph → List ℕ → JobGraph → Type 0 where
  stop : {job : JobGraph} → Executes job [] job
  run :
      {job job' : JobGraph} {is : List ℕ} (i : ℕ) (s : JobStep)
      → find_step i job.steps ≡ some s
      → s.completed ≡ false
      → All (λ d. done job.steps d ≡ true) s.deps
      → Executes (mark_completed job i) is job'
      → Executes job (i ∷ is) job'

-- Every dependency is in the table, and lower in the order `rank`.
abbrev pub IsAcyclic : (ℕ → ℕ) → JobGraph → Type 0
IsAcyclic rank job =
    All (λ s. All (λ d. (has d (ids job.steps) ≡ true) × (rank d < rank s.id)) s.deps) job.steps

-- A graph that the scheduler can run to its end.
pub record IsRunnable (rank : ℕ → ℕ) (job : JobGraph) : Type 0 where
  pub distinct : Distinct (ids job.steps)
  pub positive : All (λ i. i < 2 ^ 31) (ids job.steps)
  pub safe : IsSafe job
  pub awake : IsAwake job
  pub acyclic : IsAcyclic rank job

pub steps-mark_completed :
    (job : JobGraph) (i : ℕ) (s : JobStep)
    → find_step i job.steps ≡ some s
    → (mark_completed job i).steps ≡ marked i job.steps
unfolding mark_completed
steps-mark_completed job i s e = rw (e, mark_completed)

module _ (R : ℕ → List ℕ → Type 0) where
  rescan-shape :
      (all ss : List JobStep)
      → All (λ s. R s.id s.deps) ss
      → All (λ s. R s.id s.deps) (rescan all ss)
  unfolding rescan
  rescan-shape all [] h = tt
  rescan-shape all (s ∷ ss) h = (go, rescan-shape all ss h.1)
    where
      go : R (wake all s).id (wake all s).deps
      go = elim (Bool-cases s.completed) [
        | inl c ↦ unfold wake in rw c h.0
        | inr c ↦ elim (Bool-cases (deps_done all s.deps)) [
          | inl d ↦ unfold wake in rw (c, d) h.0
          | inr d ↦ unfold wake in rw (c, d) h.0
        ]
      ]

  complete-shape :
      (i : ℕ) (ss : List JobStep)
      → All (λ s. R s.id s.deps) ss
      → All (λ s. R s.id s.deps) (update_step i complete_step ss)
  complete-shape i ss = update_step-All (λ s. R s.id s.deps) i complete_step ss (λ s h. h)

  pub marked-shape :
      (i : ℕ) (ss : List JobStep)
      → All (λ s. R s.id s.deps) ss
      → All (λ s. R s.id s.deps) (marked i ss)
  marked-shape i ss h =
      let all = update_step i complete_step ss in rescan-shape all all (complete-shape i ss h)

-- The first step that is ready and not completed is the one named; if none is, -1.
pub none_ready :
    (ss : List JobStep)
    → All (λ i. i < 2 ^ 31) (ids ss)
    → leb (2 ^ 31) (first_ready ss) ≡ true
    → All (λ s. s.ready ≡ true → s.completed ≡ true) ss
unfolding first_ready
none_ready [] p h = tt
none_ready (s ∷ ss) p h = (ground arith, none_ready ss p.1 (ground (arith, p.0)))
