-- ===== src/JobGraph/Drive/Total.antt =====
-- The scheduler's rounds over a well-formed graph end with every step run, once and in the order of
-- the dependencies.
use mathlib.Core.Path.{subst}
use zenedge.Common.{
  ℕ, zero, suc, ◌^◌, ◌<◌, ◌≡◌, refl, sym, ap, ◌∙◌, true, false, some, List, [], ◌∷◌, arith, inl,
  inr, leb, Bool-cases, All, All-map, All-zip, All-each, length,
}
use zenedge.JobGraph.{JobStep, JobGraph, find_step, first_ready, next_ready, mark_completed}
use zenedge.JobGraph.Lookup.{done, deps_done_iff, find_step-All, find_step-id}
use zenedge.JobGraph.Ready.{
  IsSafe, IsSafeStep, IsAwakeStep, mark_completed-IsSafe, mark_completed-IsAwake,
}
use zenedge.JobGraph.Drive.Count.{
  ids, Distinct, has, pending, ids-marked, find_step-has, find_step-first_ready, pending-marked,
}
use zenedge.JobGraph.Drive.Finish.{
  drive, Executes, stop, run, IsAcyclic, IsRunnable, steps-mark_completed, marked-shape, none_ready,
}

-- Marking a step that is found keeps the graph runnable.
mark_completed-IsRunnable :
    (rank : ℕ → ℕ) (job : JobGraph) (i : ℕ) (s : JobStep)
    → find_step i job.steps ≡ some s
    → IsRunnable rank job
    → IsRunnable rank (mark_completed job i)
mark_completed-IsRunnable rank job i s e h = record {
  distinct = subst Distinct (sym same) h.distinct;
  positive = subst (All (λ i. i < 2 ^ 31)) (sym same) h.positive;
  safe = mark_completed-IsSafe job i h.safe;
  awake = mark_completed-IsAwake job i h.awake;
  acyclic = acyclic;
}
  where
    same : ids (mark_completed job i).steps ≡ ids job.steps
    same = ap ids (steps-mark_completed job i s e) ∙ ids-marked i job.steps

    Shape : List ℕ → List JobStep → Type 0
    Shape is ss = All (λ s. All (λ d. (has d is ≡ true) × (rank d < rank s.id)) s.deps) ss

    acyclic : IsAcyclic rank (mark_completed job i)
    acyclic =
        subst (λ is. Shape is (mark_completed job i).steps) (sym same)
          (subst (Shape (ids job.steps)) (sym (steps-mark_completed job i s e)) (
            marked-shape
              (λ id deps. All (λ d. (has d (ids job.steps) ≡ true) × (rank d < rank id)) deps) i
              job.steps h.acyclic))

-- The dependencies of a step of an acyclic graph.
abbrev DepsBelow : (ℕ → ℕ) → List JobStep → JobStep → Type 0
DepsBelow rank all s = All (λ d. (has d (ids all) ≡ true) × (rank d < rank s.id)) s.deps

-- Every step below `n` is completed.
abbrev CompletedBelow : (ℕ → ℕ) → ℕ → JobStep → Type 0
CompletedBelow rank n s = rank s.id < n → s.completed ≡ true

abbrev IsIdleStep : JobStep → Type 0
IsIdleStep s = s.ready ≡ true → s.completed ≡ true

dep_done :
    (rank : ℕ → ℕ) (all : List JobStep) (n r d : ℕ)
    → All (CompletedBelow rank n) all
    → r < suc n
    → (has d (ids all) ≡ true) × (rank d < r)
    → done all d ≡ true
dep_done rank all n r d low lt (e, lt') =
    let (t, f) = find_step-has d all e in
    let small : rank t.id < n = rw (find_step-id d all t f) (omega arith) in
    rw (f, done) (find_step-All (CompletedBelow rank n) d all t low f small)

step_done :
    (rank : ℕ → ℕ) (all : List JobStep) (n : ℕ) (s : JobStep)
    → All (CompletedBelow rank n) all
    → IsAwakeStep all s
    → IsIdleStep s
    → DepsBelow rank all s
    → CompletedBelow rank (suc n) s
step_done rank all n s low awake idle deps lt = elim (Bool-cases s.completed) [
  | inl c ↦ c
  | inr c ↦
      let ready =
        (deps_done_iff all s.deps).1
          (All-map (λ d. dep_done rank all n (rank s.id) d low lt) s.deps deps) in
      idle (awake c ready)
]

-- When no step is ready, an acyclic graph whose `ready` flags are right has nothing left to do.
module _ (rank : ℕ → ℕ) (job : JobGraph) (h : IsRunnable rank job)
    (idle : All IsIdleStep job.steps) where
  completed_below : (n : ℕ) → All (CompletedBelow rank n) job.steps
  completed_below zero = All-each (CompletedBelow rank 0) (λ s lt. absurd (omega arith)) job.steps
  completed_below (suc n) =
      let low = completed_below n in
      All-map (λ s q. step_done rank job.steps n s low q.0.0 q.0.1 q.1) job.steps
        (All-zip _ _ job.steps (All-zip (IsAwakeStep job.steps) IsIdleStep job.steps h.awake idle)
          h.acyclic)

  -- Ranks have no bound, so each step is below the successor of its own.
  completed_each :
      (ss : List JobStep)
      → ((n : ℕ) → All (CompletedBelow rank n) ss)
      → All (λ s. s.completed ≡ true) ss
  completed_each [] low = tt
  completed_each (s ∷ ss) low =
      ((low (suc (rank s.id))).0 (omega arith), completed_each ss (λ n. (low n).1))

  pub idle-completed : All (λ s. s.completed ≡ true) job.steps
  idle-completed = completed_each job.steps completed_below

-- One round: what is run, and that the rest has one step less to do.
round_facts :
    (job : JobGraph)
    → Distinct (ids job.steps)
    → leb (2 ^ 31) (next_ready job) ≡ false
    → (s : JobStep) × (find_step (next_ready job) job.steps ≡ some s)
      × (s.ready ≡ true)
      × (s.completed ≡ false)
      × (suc (pending (mark_completed job (next_ready job)).steps) ≡ pending job.steps)
unfolding next_ready
round_facts job d h =
    let (s, f, r, c) = find_step-first_ready job.steps d h in
    let i = first_ready job.steps in
    (
      s,
      f,
      r,
      c,
      ap (λ ss. suc (pending ss)) (steps-mark_completed job i s f)
          ∙ pending-marked i job.steps s f c,
    )

-- What the rounds reach from a graph with less to do than the fuel.
pub record Finishes (job : JobGraph) (order : List ℕ) (job' : JobGraph) : Type 0 where
  pub executes : Executes job order job'
  pub all_completed : All (λ s. s.completed ≡ true) job'.steps
  pub count : length order ≡ pending job.steps

none_pending : (ss : List JobStep) → All (λ s. s.completed ≡ true) ss → pending ss ≡ 0
none_pending [] h = refl
none_pending (s ∷ ss) h = rw h.0 (none_pending ss h.1)

drive_stop :
    (fuel : ℕ) (job : JobGraph)
    → leb (2 ^ 31) (next_ready job) ≡ true
    → drive (suc fuel) job ≡ ([], job)
unfolding drive
drive_stop fuel job e = rw e

drive_run :
    (fuel : ℕ) (job : JobGraph)
    → leb (2 ^ 31) (next_ready job) ≡ false
    → let rest = drive fuel (mark_completed job (next_ready job)) in
      drive (suc fuel) job ≡ (next_ready job ∷ rest.0, rest.1)
unfolding drive
drive_run fuel job e = rw e

ready_done :
    (job : JobGraph) (i : ℕ) (s : JobStep)
    → IsSafe job
    → find_step i job.steps ≡ some s
    → s.ready ≡ true
    → All (λ d. done job.steps d ≡ true) s.deps
ready_done job i s safe f r =
    (deps_done_iff job.steps s.deps).0 (find_step-All (IsSafeStep job.steps) i job.steps s safe f r)

-- On a graph with distinct ids below 2 ^ 31, acyclic dependencies and right `ready` flags, the
-- scheduler's rounds stop by themselves; each run a step that was not completed, after all its
-- dependencies; as many are run as were not completed; and in the end every step is completed.
pub drive-Finishes :
    (rank : ℕ → ℕ) (fuel : ℕ) (job : JobGraph)
    → IsRunnable rank job
    → pending job.steps < fuel
    → Finishes job (drive fuel job).0 (drive fuel job).1
drive-Finishes rank zero job h lt = absurd (omega arith)
drive-Finishes rank (suc fuel) job h lt = elim (Bool-cases (leb (2 ^ 31) (next_ready job))) [
  | inl e ↦
      let done =
        idle-completed rank job h (none_ready job.steps h.positive (unfold next_ready in e)) in
      rw (drive_stop fuel job e) (record {
        executes = stop;
        all_completed = done;
        count = sym (none_pending job.steps done);
      })
  | inr e ↦
      let (s, f, r, c, less) = round_facts job h.distinct e in
      let i = next_ready job in
      let rest =
        drive-Finishes rank fuel (mark_completed job i) (mark_completed-IsRunnable rank job i s f h)
          (omega arith) in
      rw (drive_run fuel job e) (record {
        executes = run i s f c (ready_done job i s h.safe f r) rest.executes;
        all_completed = rest.all_completed;
        count = ap suc rest.count ∙ less;
      })
]
