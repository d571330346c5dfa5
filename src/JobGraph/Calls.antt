-- ===== src/JobGraph/Calls.antt =====
-- The calls of job_graph.c in any order: what each leaves of the `ready` flags.
use zenedge.Common.{
  ℕ, ◌≡◌, refl, Bool, List, [], ◌∷◌, ◌++◌, arith, inl, inr, ◌⊎◌, ◌<◌, ◌≤◌, ltb, if◌then◌else◌,
  Bool-cases, Option-cases, leb, length, All, ok, failed,
}
use zenedge.JobGraph.{
  StepType, TensorDtype, TensorDesc, JobStep, JobGraph, add_step, add_dep, add_tensor,
  step_add_input, step_add_output, compute_memory, mark_completed, find_step, find_tensor,
  update_step, measure_steps, append_dep, append_input, append_output, new_step, step_memory,
  max_job_steps,
}
use zenedge.JobGraph.Lookup.{done}

-- A job with its steps replaced.
abbrev pub with_steps : JobGraph → List JobStep → JobGraph
with_steps job ss = record job { steps = ss }

-- `job_graph_add_step` succeeds exactly while the table has room, and then appends a ready step.
pub add_step_outcome :
    (job : JobGraph) (id : ℕ) (type : StepType)
    → ((max_job_steps ≤ length job.steps) × (add_step job id type ≡ (job, failed)))
      ⊎ ((length job.steps < max_job_steps)
          × (add_step job id type ≡ (with_steps job (job.steps ++ (new_step id type ∷ [])), ok)))
unfolding add_step
add_step_outcome job id type = elim (Bool-cases (leb 32 (length job.steps))) [
  | inl l ↦ inl (ground arith, rw (l, add_step))
  | inr l ↦ inr (ground arith, rw (l, add_step))
]

module _ (job : JobGraph) (i d : ℕ) where
  -- `job_graph_add_dep` leaves the job alone or appends to the step's dependencies.
  pub add_dep_outcome :
      (add_dep job i d ≡ (job, failed))
      ⊎ (add_dep job i d ≡ (with_steps job (update_step i (append_dep d) job.steps), ok))
  unfolding add_dep
  add_dep_outcome = elim (Option-cases (find_step i job.steps)) [
    | inl e ↦ inl (rw (e, add_dep))
    | inr (s, e) ↦ elim (Option-cases (find_step d job.steps)) [
      | inl e' ↦ inl (rw (e, e', add_dep))
      | inr (s', e') ↦ elim (Bool-cases (leb 4 (length s.deps))) [
        | inl l ↦ inl (rw (e, e', l, add_dep))
        | inr l ↦ inr (rw (e, e', l, add_dep))
      ]
    ]
  ]

  pub step_add_input_outcome :
      (step_add_input job i d ≡ (job, failed))
      ⊎ (step_add_input job i d ≡ (with_steps job (update_step i (append_input d) job.steps), ok))
  unfolding step_add_input
  step_add_input_outcome = elim (Option-cases (find_step i job.steps)) [
    | inl e ↦ inl (rw (e, step_add_input))
    | inr (s, e) ↦ elim (Option-cases (find_tensor d job.tensors)) [
      | inl e' ↦ inl (rw (e, e', step_add_input))
      | inr (t, e') ↦ elim (Bool-cases (leb 4 (length s.inputs))) [
        | inl l ↦ inl (rw (e, e', l, step_add_input))
        | inr l ↦ inr (rw (e, e', l, step_add_input))
      ]
    ]
  ]

  pub step_add_output_outcome :
      (step_add_output job i d ≡ (job, failed))
      ⊎ (step_add_output job i d ≡ (with_steps job (update_step i (append_output d) job.steps), ok))
  unfolding step_add_output
  step_add_output_outcome = elim (Option-cases (find_step i job.steps)) [
    | inl e ↦ inl (rw (e, step_add_output))
    | inr (s, e) ↦ elim (Option-cases (find_tensor d job.tensors)) [
      | inl e' ↦ inl (rw (e, e', step_add_output))
      | inr (t, e') ↦ elim (Bool-cases (leb 2 (length s.outputs))) [
        | inl l ↦ inl (rw (e, e', l, step_add_output))
        | inr l ↦ inr (rw (e, e', l, step_add_output))
      ]
    ]
  ]

pub steps-add_tensor :
    (job : JobGraph) (id : ℕ) (dtype : TensorDtype) (n : ℕ) (pinned : Bool) (node : ℕ)
    → (add_tensor job id dtype n pinned node).0.steps ≡ job.steps
unfolding add_tensor
steps-add_tensor job id dtype n pinned node = ground arith

pub done-measure_steps :
    (ts : List TensorDesc) (ss : List JobStep) (peak d : ℕ)
    → done (measure_steps ts ss peak).0 d ≡ done ss d
unfolding measure_steps find_step
done-measure_steps ts [] peak d = refl
done-measure_steps ts (s ∷ ss) peak d =
    let mem = step_memory ts s in
    ground (arith, done-measure_steps ts ss (if ltb peak mem then mem else peak) d)

-- Figures are written to each step, and nothing else of it.
pub measure_steps-All :
    (P : JobStep → Type 0) (ts : List TensorDesc) (ss : List JobStep) (peak : ℕ)
    → ((s : JobStep) (w p : ℕ) → P s → P (record s { working_set_kb = w; peak_memory_kb = p }))
    → All P ss
    → All P (measure_steps ts ss peak).0
unfolding measure_steps
measure_steps-All P ts [] peak keep h = tt
measure_steps-All P ts (s ∷ ss) peak keep h =
    let mem = step_memory ts s in
    (keep s mem mem h.0, measure_steps-All P ts ss (if ltb peak mem then mem else peak) keep h.1)

-- The calls that a client makes on a job graph.
pub data Call : Type 0 where
  add_step_call : ℕ → StepType → Call
  add_dep_call : ℕ → ℕ → Call
  mark_completed_call : ℕ → Call
  add_tensor_call : ℕ → TensorDtype → ℕ → Bool → ℕ → Call
  step_add_input_call : ℕ → ℕ → Call
  step_add_output_call : ℕ → ℕ → Call
  compute_memory_call : Call

unfoldable pub run_call : Call → JobGraph → JobGraph
run_call (add_step_call id type) job = (add_step job id type).0
run_call (add_dep_call s d) job = (add_dep job s d).0
run_call (mark_completed_call s) job = mark_completed job s
run_call (add_tensor_call id dtype n pinned node) job = (add_tensor job id dtype n pinned node).0
run_call (step_add_input_call s t) job = (step_add_input job s t).0
run_call (step_add_output_call s t) job = (step_add_output job s t).0
run_call compute_memory_call job = compute_memory job

unfoldable pub run_calls : List Call → JobGraph → JobGraph
unfolding run_call
run_calls [] job = job
run_calls (c ∷ cs) job = run_calls cs (run_call c job)
