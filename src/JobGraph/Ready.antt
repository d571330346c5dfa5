-- ===== src/JobGraph/Ready.antt =====
-- The `ready` flag of job_graph.c against the dependencies that it stands for.
use zenedge.Common.{
  ℕ, ◌≡◌, sym, ◌∙◌, true, false, List, [], ◌∷◌, ◌++◌, arith, inl, inr, Option-cases, All, All-map,
  All-append,
}
use zenedge.JobGraph.{
  StepType, JobStep, JobGraph, mark_completed, find_step, update_step, deps_done, wake, rescan,
  complete_step, new_step,
}
use zenedge.JobGraph.Lookup.{
  done, deps_done_mono, deps_done-congr, done-rescan, done-complete_step, done-update_step,
  find_step-append, update_step-All,
}

-- A step that is ready has every dependency completed.
abbrev pub IsSafeStep : List JobStep → JobStep → Type 0
IsSafeStep all s = s.ready ≡ true → deps_done all s.deps ≡ true

abbrev pub IsSafe : JobGraph → Type 0
IsSafe job = All (IsSafeStep job.steps) job.steps

-- A step that is not completed and has every dependency completed is ready.
abbrev pub IsAwakeStep : List JobStep → JobStep → Type 0
IsAwakeStep all s = s.completed ≡ false → deps_done all s.deps ≡ true → s.ready ≡ true

abbrev pub IsAwake : JobGraph → Type 0
IsAwake job = All (IsAwakeStep job.steps) job.steps

done-add_step :
    (ss : List JobStep) (id d : ℕ) (type : StepType)
    → done (ss ++ (new_step id type ∷ [])) d ≡ done ss d
done-add_step ss id d type = ground (arith, find_step-append d ss (new_step id type))

wake_safe : (all : List JobStep) (s : JobStep) → IsSafeStep all s → IsSafeStep all (wake all s)
unfolding wake
wake_safe all s h r = ground (arith, h)

wake_awake : (all : List JobStep) (s : JobStep) → IsAwakeStep all (wake all s)
unfolding wake
wake_awake all s = ground arith

rescan-All :
    (P Q : JobStep → Type 0) (all ss : List JobStep)
    → ((s : JobStep) → P s → Q (wake all s))
    → All P ss
    → All Q (rescan all ss)
unfolding rescan
rescan-All P Q all [] f h = tt
rescan-All P Q all (s ∷ ss) f h = (f s h.0, rescan-All P Q all ss f h.1)

rescan_each :
    (Q : JobStep → Type 0) (all ss : List JobStep)
    → ((s : JobStep) → Q (wake all s))
    → All Q (rescan all ss)
unfolding rescan
rescan_each Q all [] f = tt
rescan_each Q all (s ∷ ss) f = (f s, rescan_each Q all ss f)

abbrev pub marked : ℕ → List JobStep → List JobStep
marked i ss = let all = update_step i complete_step ss in rescan all all

done-marked : (i d : ℕ) (ss : List JobStep) → done ss d ≡ true → done (marked i ss) d ≡ true
done-marked i d ss h =
    let all = update_step i complete_step ss in
    ground (arith, done-rescan all all d, done-complete_step i d ss h)

marked_safe :
    (i : ℕ) (ss : List JobStep)
    → All (IsSafeStep ss) ss
    → All (IsSafeStep (marked i ss)) (marked i ss)
marked_safe i ss h =
    rescan-All (IsSafeStep all) (IsSafeStep (marked i ss)) all all keep
      (All-map later all (update_step-All (IsSafeStep ss) i complete_step ss (λ s p. p) h))
  where
    all : List JobStep
    all = update_step i complete_step ss

    later : (s : JobStep) → IsSafeStep ss s → IsSafeStep all s
    later s p r = deps_done_mono ss all s.deps (λ d. done-complete_step i d ss) (p r)

    same : (d : ℕ) → done all d ≡ done (rescan all all) d
    same d = sym (done-rescan all all d)

    keep : (s : JobStep) → IsSafeStep all s → IsSafeStep (marked i ss) (wake all s)
    keep s p r =
        sym (deps_done-congr all (marked i ss) (wake all s).deps same) ∙ wake_safe all s p r

marked_awake : (i : ℕ) (ss : List JobStep) → All (IsAwakeStep (marked i ss)) (marked i ss)
marked_awake i ss = rescan_each (IsAwakeStep (marked i ss)) all all keep
  where
    all : List JobStep
    all = update_step i complete_step ss

    keep : (s : JobStep) → IsAwakeStep (marked i ss) (wake all s)
    keep s c d =
        wake_awake all s c (
          deps_done-congr all (marked i ss) (wake all s).deps (λ e. sym (done-rescan all all e))
          ∙ d)

pub mark_completed-IsSafe : (job : JobGraph) (i : ℕ) → IsSafe job → IsSafe (mark_completed job i)
unfolding mark_completed
mark_completed-IsSafe job i h = elim (Option-cases (find_step i job.steps)) [
  | inl e ↦ rw (e, mark_completed) h
  | inr (s, e) ↦ rw (e, mark_completed) (marked_safe i job.steps h)
]

pub mark_completed-IsAwake : (job : JobGraph) (i : ℕ) → IsAwake job → IsAwake (mark_completed job i)
unfolding mark_completed
mark_completed-IsAwake job i h = elim (Option-cases (find_step i job.steps)) [
  | inl e ↦ rw (e, mark_completed) h
  | inr (s, e) ↦ rw (e, mark_completed) (marked_awake i job.steps)
]

-- Both predicates read the other steps through `done` alone, so a write that keeps `done` keeps them.
module _ (Q : List JobStep → JobStep → Type 0)
    (move : (all all' : List JobStep) (s : JobStep)
      → ((d : ℕ) → done all d ≡ done all' d)
      → Q all s
      → Q all' s) where
  pub update_keeps :
      (i : ℕ) (f : JobStep → JobStep) (ss : List JobStep)
      → ((s : JobStep) → (f s).id ≡ s.id)
      → ((s : JobStep) → (f s).completed ≡ s.completed)
      → ((s : JobStep) → Q ss s → Q ss (f s))
      → All (Q ss) ss
      → All (Q (update_step i f ss)) (update_step i f ss)
  update_keeps i f ss hi hc keep h =
      All-map (λ s. move ss (update_step i f ss) s (λ d. sym (done-update_step i d f ss hi hc)))
        (update_step i f ss) (update_step-All (Q ss) i f ss keep h)

  pub append_keeps :
      (id : ℕ) (type : StepType) (ss : List JobStep)
      → Q ss (new_step id type)
      → All (Q ss) ss
      → All (Q (ss ++ (new_step id type ∷ []))) (ss ++ (new_step id type ∷ []))
  append_keeps id type ss new h =
      All-map
        (λ s. move ss (ss ++ (new_step id type ∷ [])) s (λ d. sym (done-add_step ss id d type)))
        (ss ++ (new_step id type ∷ [])) (All-append (Q ss) ss (new_step id type ∷ []) h (new, tt))

pub move_safe :
    (all all' : List JobStep) (s : JobStep)
    → ((d : ℕ) → done all d ≡ done all' d)
    → IsSafeStep all s
    → IsSafeStep all' s
move_safe all all' s e h r = sym (deps_done-congr all all' s.deps e) ∙ h r

pub move_awake :
    (all all' : List JobStep) (s : JobStep)
    → ((d : ℕ) → done all d ≡ done all' d)
    → IsAwakeStep all s
    → IsAwakeStep all' s
move_awake all all' s e h c d = h c (deps_done-congr all all' s.deps e ∙ d)
