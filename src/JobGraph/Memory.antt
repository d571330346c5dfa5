-- ===== src/JobGraph/Memory.antt =====
-- The tensor registry, and the figures of `job_graph_compute_memory`.
use Prim.Native.Nat.{max}
use zenedge.Common.{
  ℕ, ◌+◌, ◌^◌, ◌<◌, ◌≤◌, ◌≡◌, refl, ◌∙◌, Bool, none, some, List, [], ◌∷◌, ◌++◌, map, ◌⊎◌, arith,
  inl, inr, leb, ltb, if◌then◌else◌, ◌==◌, ◌≢◌, Bool-cases, Option-cases, length, u32, ok, failed,
}
use zenedge.JobGraph.{
  JobStep, JobGraph, TensorDesc, TensorDtype, find_tensor, add_tensor, new_tensor, size_kb,
  sum_tensors, sum_ids, step_memory, measure_steps, compute_memory, max_job_tensors, get_tensor,
}

find_tensor-append :
    (d : ℕ) (ts : List TensorDesc) (n : TensorDesc)
    → find_tensor d (ts ++ (n ∷ []))
      ≡ elim (find_tensor d ts) [ none ↦ if n.id == d then some n else none | some t ↦ some t ]
unfolding find_tensor
find_tensor-append d [] n = ground arith
find_tensor-append d (t ∷ ts) n = ground (arith, find_tensor-append d ts n)

-- `job_graph_add_tensor` succeeds exactly if the table has room and the id is new; then the tensor
-- is found under its id, and every other id is looked up as before. It fails with the job unchanged.
add_tensor_lem :
    (job : JobGraph) (id : ℕ) (dtype : TensorDtype) (n : ℕ) (pinned : Bool) (node j : ℕ)
    → let (job', status) = add_tensor job id dtype n pinned node in
      ((status ≡ ok)
        × (length job.tensors < max_job_tensors)
        × (get_tensor job id ≡ none)
        × (get_tensor job' j
            ≡ (if id == j then some (new_tensor id dtype n pinned node) else get_tensor job j)))
      ⊎ ((status ≡ failed)
          × (job' ≡ job)
          × ((max_job_tensors ≤ length job.tensors) ⊎ (get_tensor job id ≢ none)))
unfolding add_tensor get_tensor
add_tensor_lem job id dtype n pinned node j = elim (Bool-cases (leb 64 (length job.tensors))) [
  | inl l ↦ rw l (inr (refl, refl, inl (ground arith)))
  | inr l ↦ elim (Option-cases (find_tensor id job.tensors)) [
    | inr (t, e) ↦ rw (l, e) (inr (refl, refl, inr (λ q. cc)))
    | inl e ↦
        rw (l, e)
          (inl (
            refl,
            ground arith,
            refl,
            ground (arith, find_tensor-append j job.tensors (new_tensor id dtype n pinned node)),
          ))
  ]
]

abbrev total_kb : List TensorDesc → ℕ
total_kb [] = 0
total_kb (t ∷ ts) = size_kb t + total_kb ts

abbrev pinned_kb : List TensorDesc → ℕ
pinned_kb [] = 0
pinned_kb (t ∷ ts) = (if t.pinned then size_kb t else 0) + pinned_kb ts

sum_tensors-eq :
    (ts : List TensorDesc) (a b : ℕ)
    → a < 2 ^ 32
    → b < 2 ^ 32
    → sum_tensors ts a b ≡ (u32 (a + total_kb ts), u32 (b + pinned_kb ts))
unfolding sum_tensors
sum_tensors-eq [] a b ha hb = ground arith
sum_tensors-eq (t ∷ ts) a b ha hb =
    ground
      (arith, sum_tensors-eq ts (u32 (a + size_kb t)) (if t.pinned then u32 (b + size_kb t) else b))

-- What the tensors of these ids take, each as often as it is named; an unknown id takes nothing.
abbrev ids_kb : List TensorDesc → List ℕ → ℕ
ids_kb ts [] = 0
ids_kb ts (i ∷ is) = elim (find_tensor i ts) [ none ↦ 0 | some t ↦ size_kb t ] + ids_kb ts is

sum_ids-eq :
    (ts : List TensorDesc) (is : List ℕ) (mem : ℕ)
    → mem < 2 ^ 32
    → sum_ids ts is mem ≡ u32 (mem + ids_kb ts is)
unfolding sum_ids
sum_ids-eq ts [] mem h = omega arith
sum_ids-eq ts (i ∷ is) mem h = elim (Option-cases (find_tensor i ts)) [
  | inl e ↦ rw e (sum_ids-eq ts is mem h ∙ omega arith)
  | inr (t, e) ↦ rw e (sum_ids-eq ts is (u32 (mem + size_kb t)) (omega arith) ∙ omega arith)
]

-- A step's figure is the sum over its inputs and outputs, as far as 32 bits hold it.
step_memory-eq :
    (ts : List TensorDesc) (s : JobStep)
    → step_memory ts s ≡ u32 (ids_kb ts s.inputs + ids_kb ts s.outputs)
unfolding step_memory
step_memory-eq ts s = omega (
  arith,
  sum_ids-eq ts s.inputs 0 (omega arith),
  sum_ids-eq ts s.outputs (sum_ids ts s.inputs 0)
      (omega (arith, sum_ids-eq ts s.inputs 0 (omega arith))),
)

abbrev with_figure : List TensorDesc → JobStep → JobStep
with_figure ts s =
    let mem = u32 (ids_kb ts s.inputs + ids_kb ts s.outputs) in
    record s { working_set_kb = mem; peak_memory_kb = mem }

abbrev largest_kb : List TensorDesc → List JobStep → ℕ
largest_kb ts [] = 0
largest_kb ts (s ∷ ss) = max (u32 (ids_kb ts s.inputs + ids_kb ts s.outputs)) (largest_kb ts ss)

measure_steps-eq :
    (ts : List TensorDesc) (ss : List JobStep) (peak : ℕ)
    → measure_steps ts ss peak ≡ (map (with_figure ts) ss, max peak (largest_kb ts ss))
unfolding measure_steps
measure_steps-eq ts [] peak = ground arith
measure_steps-eq ts (s ∷ ss) peak =
    let mem = step_memory ts s in
    ground (arith, step_memory-eq ts s, measure_steps-eq ts ss (if ltb peak mem then mem else peak))

-- `job_graph_compute_memory` sums every tensor, sums the pinned ones, gives each step the sum over
-- its own inputs and outputs, all modulo 2 ^ 32, and takes the largest of the steps' sums for the
-- peak; nothing else of the job changes.
compute_memory_lem :
    (job : JobGraph)
    → compute_memory job ≡ record job {
      steps = map (with_figure job.tensors) job.steps;
      total_memory_kb = u32 (total_kb job.tensors);
      pinned_memory_kb = u32 (pinned_kb job.tensors);
      peak_memory_kb = largest_kb job.tensors job.steps;
    }
unfolding compute_memory
compute_memory_lem job = ground (
  arith,
  sum_tensors-eq job.tensors 0 0 (omega arith) (omega arith),
  measure_steps-eq job.tensors job.steps 0,
)
