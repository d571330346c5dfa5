-- ===== src/JobGraph/Reach.antt =====
-- What holds of the `ready` flags of a job graph after any calls.
use mathlib.Core.Path.{subst}
use zenedge.Common.{
  ℕ, ◌≡◌, refl, sym, false, List, [], ◌∷◌, ◌++◌, arith, inl, inr, ◌⊎◌, All, All-map, Status, ok,
  failed,
}
use zenedge.JobGraph.{
  StepType, JobStep, JobGraph, init, add_step, add_dep, step_add_input, step_add_output,
  compute_memory, append_dep, append_input, append_output, new_step, deps_done, measure_steps,
}
use zenedge.JobGraph.Lookup.{done, deps_done-cons}
use zenedge.JobGraph.Ready.{
  IsSafeStep, IsSafe, IsAwakeStep, IsAwake, update_keeps, append_keeps, move_safe, move_awake,
  mark_completed-IsSafe, mark_completed-IsAwake,
}
use zenedge.JobGraph.Calls.{
  with_steps, add_step_outcome, add_dep_outcome, step_add_input_outcome, step_add_output_outcome,
  done-measure_steps, measure_steps-All, steps-add_tensor, Call, run_call, run_calls, add_step_call,
  add_dep_call, mark_completed_call, add_tensor_call, step_add_input_call, step_add_output_call,
  compute_memory_call,
}

-- A predicate that holds before a call and of what its success leaves holds after it.
keeps_outcome :
    (P : JobGraph → Type 0) {job : JobGraph} (r : JobGraph × Status) {ss : List JobStep}
    → (r ≡ (job, failed)) ⊎ (r ≡ (with_steps job ss, ok))
    → P job
    → P (with_steps job ss)
    → P r.0
keeps_outcome P r (inl e) old new = subst (λ q. P q.0) (sym e) old
keeps_outcome P r (inr e) old new = subst (λ q. P q.0) (sym e) new

keeps_add_step :
    (P : JobGraph → Type 0) (job : JobGraph) (id : ℕ) (type : StepType)
    → P job
    → P (with_steps job (job.steps ++ (new_step id type ∷ [])))
    → P (add_step job id type).0
keeps_add_step P job id type old new = elim (add_step_outcome job id type) [
  | inl full ↦ subst (λ q. P q.0) (sym full.1) old
  | inr room ↦ subst (λ q. P q.0) (sym room.1) new
]

compute_memory-keeps :
    (Q : List JobStep → JobStep → Type 0)
    → ((all all' : List JobStep) (s : JobStep)
        → ((d : ℕ) → done all d ≡ done all' d)
        → Q all s
        → Q all' s)
    → ((all : List JobStep) (s : JobStep) (w p : ℕ)
        → Q all s
        → Q all (record s { working_set_kb = w; peak_memory_kb = p }))
    → (job : JobGraph) → All (Q job.steps) job.steps
    → All (Q (compute_memory job).steps) (compute_memory job).steps
unfolding compute_memory
compute_memory-keeps Q move figures job h =
    let ss = (measure_steps job.tensors job.steps 0).0 in
    All-map (λ s. move job.steps ss s (λ d. sym (done-measure_steps job.tensors job.steps 0 d))) ss
      (measure_steps-All (Q job.steps) job.tensors job.steps 0 (figures job.steps) h)

-- After any call, a step that is ready has every dependency completed.
run_call-IsSafe : (c : Call) (job : JobGraph) → IsSafe job → IsSafe (run_call c job)
unfolding run_call
run_call-IsSafe (add_step_call id type) job h =
    keeps_add_step IsSafe job id type h
      (append_keeps IsSafeStep move_safe id type job.steps (λ r. unfold deps_done in refl) h)
run_call-IsSafe (add_dep_call s d) job h =
    keeps_outcome IsSafe (add_dep job s d) (add_dep_outcome job s d) h (
      update_keeps IsSafeStep move_safe s (append_dep d) job.steps (λ s. refl) (λ s. refl)
        (λ s p r. cc) h)
run_call-IsSafe (mark_completed_call s) job h = mark_completed-IsSafe job s h
run_call-IsSafe (add_tensor_call id dtype n pinned node) job h =
    subst (λ ss. All (IsSafeStep ss) ss) (sym (steps-add_tensor job id dtype n pinned node)) h
run_call-IsSafe (step_add_input_call s t) job h =
    keeps_outcome IsSafe (step_add_input job s t) (step_add_input_outcome job s t) h (
      update_keeps IsSafeStep move_safe s (append_input t) job.steps (λ s. refl) (λ s. refl)
        (λ s p. p) h)
run_call-IsSafe (step_add_output_call s t) job h =
    keeps_outcome IsSafe (step_add_output job s t) (step_add_output_outcome job s t) h (
      update_keeps IsSafeStep move_safe s (append_output t) job.steps (λ s. refl) (λ s. refl)
        (λ s p. p) h)
run_call-IsSafe compute_memory_call job h =
    compute_memory-keeps IsSafeStep move_safe (λ all s w p h. h) job h

run_calls_from-IsSafe : (cs : List Call) (job : JobGraph) → IsSafe job → IsSafe (run_calls cs job)
unfolding run_calls
run_calls_from-IsSafe [] job h = h
run_calls_from-IsSafe (c ∷ cs) job h =
    run_calls_from-IsSafe cs (run_call c job) (run_call-IsSafe c job h)

-- However a client builds and drives a job graph, whatever it names in its calls, a step that the
-- graph holds ready has every one of its dependencies in the table and completed.
pub run_calls-IsSafe : (cs : List Call) (id : ℕ) → IsSafe (run_calls cs (init id))
unfolding init
run_calls-IsSafe cs id = run_calls_from-IsSafe cs (init id) tt

-- `job_graph_add_dep` is called only with a dependency that is not completed yet.
abbrev IsTimely : Call → JobGraph → Type 0
IsTimely (add_dep_call s d) job = done job.steps d ≡ false
IsTimely _ job = Unit

abbrev AreTimely : List Call → JobGraph → Type 0
AreTimely [] job = Unit
AreTimely (c ∷ cs) job = IsTimely c job × AreTimely cs (run_call c job)

deps_done-snoc :
    (all : List JobStep) (ds : List ℕ) (d : ℕ)
    → done all d ≡ false
    → deps_done all (ds ++ (d ∷ [])) ≡ false
deps_done-snoc all [] d h = ground (arith, deps_done-cons all d [])
deps_done-snoc all (e ∷ ds) d h =
    ground (arith, deps_done-cons all e (ds ++ (d ∷ [])), deps_done-snoc all ds d h)

run_call-IsAwake :
    (c : Call) (job : JobGraph) → IsTimely c job → IsAwake job → IsAwake (run_call c job)
unfolding run_call
run_call-IsAwake (add_step_call id type) job t h =
    keeps_add_step IsAwake job id type h
      (append_keeps IsAwakeStep move_awake id type job.steps (λ c d. refl) h)
run_call-IsAwake (add_dep_call s d) job t h =
    keeps_outcome IsAwake (add_dep job s d) (add_dep_outcome job s d) h (
      update_keeps IsAwakeStep move_awake s (append_dep d) job.steps (λ s. refl) (λ s. refl)
        (λ s p c e. ground (arith, deps_done-snoc job.steps s.deps d t)) h)
run_call-IsAwake (mark_completed_call s) job t h = mark_completed-IsAwake job s h
run_call-IsAwake (add_tensor_call id dtype n pinned node) job t h =
    subst (λ ss. All (IsAwakeStep ss) ss) (sym (steps-add_tensor job id dtype n pinned node)) h
run_call-IsAwake (step_add_input_call s i) job t h =
    keeps_outcome IsAwake (step_add_input job s i) (step_add_input_outcome job s i) h (
      update_keeps IsAwakeStep move_awake s (append_input i) job.steps (λ s. refl) (λ s. refl)
        (λ s p. p) h)
run_call-IsAwake (step_add_output_call s i) job t h =
    keeps_outcome IsAwake (step_add_output job s i) (step_add_output_outcome job s i) h (
      update_keeps IsAwakeStep move_awake s (append_output i) job.steps (λ s. refl) (λ s. refl)
        (λ s p. p) h)
run_call-IsAwake compute_memory_call job t h =
    compute_memory-keeps IsAwakeStep move_awake (λ all s w p h. h) job h

run_calls_from-IsAwake :
    (cs : List Call) (job : JobGraph) → AreTimely cs job → IsAwake job → IsAwake (run_calls cs job)
unfolding run_calls
run_calls_from-IsAwake [] job t h = h
run_calls_from-IsAwake (c ∷ cs) job t h =
    run_calls_from-IsAwake cs (run_call c job) t.1 (run_call-IsAwake c job t.0 h)

-- If every call of `job_graph_add_dep` names a dependency that is not completed yet, then a step
-- that is not completed and has every dependency completed is held ready, after any calls.
pub run_calls-IsAwake :
    (cs : List Call) (id : ℕ) → AreTimely cs (init id) → IsAwake (run_calls cs (init id))
unfolding init
run_calls-IsAwake cs id t = run_calls_from-IsAwake cs (init id) t tt
