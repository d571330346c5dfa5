-- ===== src/JobGraph.antt =====
-- kernel/job/job_graph.h and job_graph.c: a job as a graph of steps, with its tensor registry.
-- The arrays `steps`, `tensors`, `deps`, `inputs` and `outputs` are the lists of their entries in
-- use, so `num_steps` and the like are lengths. A pointer to a step is the id that it was found by:
-- reads go through `find_step` and writes through `update_step`, which stop at the same entry.
pub mod Lookup
pub mod Ready
pub mod Calls
pub mod Reach
pub mod Drive
pub mod Duplicate
pub mod Memory
pub mod Tests
use zenedge.Common.{
  ℕ, ◌+◌, ◌*◌, ◌/◌, Bool, true, false, Option, none, some, List, [], ◌∷◌, ◌++◌, ◌&&◌, not, leb, ltb,
  ◌==◌, if◌then◌else◌, length, u32, Status, ok, failed,
}

pub data StepType : Type 0 where
  compute collective io control : StepType

pub data TensorDtype : Type 0 where
  fp32 fp16 bf16 int8 int32 : TensorDtype

pub record TensorDesc : Type 0 where
  pub id : ℕ
  pub dtype : TensorDtype
  pub num_elements : ℕ
  pub size_bytes : ℕ
  pub pinned : Bool
  pub node_affinity : ℕ

abbrev max_step_inputs : ℕ
max_step_inputs = 4

abbrev max_step_outputs : ℕ
max_step_outputs = 2

abbrev max_step_deps : ℕ
max_step_deps = 4

abbrev pub max_job_steps : ℕ
max_job_steps = 32

abbrev pub max_job_tensors : ℕ
max_job_tensors = 64

pub record JobStep : Type 0 where
  pub id : ℕ
  pub type : StepType
  pub deps : List ℕ
  pub inputs : List ℕ
  pub outputs : List ℕ
  pub peak_memory_kb : ℕ
  pub working_set_kb : ℕ
  pub ready : Bool
  pub completed : Bool

pub record JobGraph : Type 0 where
  pub id : ℕ
  pub steps : List JobStep
  pub tensors : List TensorDesc
  pub total_memory_kb : ℕ
  pub peak_memory_kb : ℕ
  pub pinned_memory_kb : ℕ

unfoldable pub init : ℕ → JobGraph
init id = record {
  id = id;
  steps = [];
  tensors = [];
  total_memory_kb = 0;
  peak_memory_kb = 0;
  pinned_memory_kb = 0;
}

unfoldable pub find_step : ℕ → List JobStep → Option JobStep
find_step id [] = none
find_step id (s ∷ ss) = if s.id == id then some s else find_step id ss

-- A write through the pointer that `find_step` returns.
unfoldable pub update_step : ℕ → (JobStep → JobStep) → List JobStep → List JobStep
update_step id f [] = []
update_step id f (s ∷ ss) = if s.id == id then f s ∷ ss else s ∷ update_step id f ss

abbrev pub new_step : ℕ → StepType → JobStep
new_step id type = record {
  id = id;
  type = type;
  deps = [];
  inputs = [];
  outputs = [];
  peak_memory_kb = 0;
  working_set_kb = 0;
  ready = true;
  completed = false;
}

unfoldable pub add_step : JobGraph → ℕ → StepType → JobGraph × Status
add_step job id type =
    if leb max_job_steps (length job.steps)
    then (job, failed)
    else (record job { steps = job.steps ++ (new_step id type ∷ []) }, ok)

abbrev pub append_dep : ℕ → JobStep → JobStep
append_dep d s = record s { deps = s.deps ++ (d ∷ []); ready = false }

unfoldable pub add_dep : JobGraph → ℕ → ℕ → JobGraph × Status
add_dep job step depends_on = elim (find_step step job.steps) [
  | none ↦ (job, failed)
  | some s ↦ elim (find_step depends_on job.steps) [
    | none ↦ (job, failed)
    | some dp ↦
        if leb max_step_deps (length s.deps)
        then (job, failed)
        else (record job { steps = update_step step (append_dep depends_on) job.steps }, ok)
  ]
]

-- The inner loop of `job_graph_mark_completed`: every dependency is found and completed.
unfoldable pub deps_done : List JobStep → List ℕ → Bool
deps_done all [] = true
deps_done all (d ∷ ds) =
    let rest = deps_done all ds in
    elim (find_step d all) [ none ↦ false | some dep ↦ if dep.completed then rest else false ]

unfoldable pub wake : List JobStep → JobStep → JobStep
wake all t =
    if t.completed then t else if deps_done all t.deps then record t { ready = true } else t

-- The outer loop. It writes `ready` alone and reads ids, dependencies and `completed`, so the
-- steps `all` that it looks up are those at its start.
unfoldable pub rescan : List JobStep → List JobStep → List JobStep
rescan all [] = []
rescan all (t ∷ ts) = wake all t ∷ rescan all ts

abbrev pub complete_step : JobStep → JobStep
complete_step s = record s { completed = true }

unfoldable pub mark_completed : JobGraph → ℕ → JobGraph
mark_completed job step = elim (find_step step job.steps) [
  | none ↦ job
  | some s ↦
      let all = update_step step complete_step job.steps in record job { steps = rescan all all }
]

-- An `int` is its 32-bit pattern: -1, and every id from 2 ^ 31 on, has the sign bit.
abbrev minus_one : ℕ
minus_one = 0xffff_ffff

unfoldable pub first_ready : List JobStep → ℕ
first_ready [] = minus_one
first_ready (s ∷ ss) = if s.ready && not s.completed then s.id else first_ready ss

unfoldable pub next_ready : JobGraph → ℕ
unfolding first_ready
next_ready job = first_ready job.steps

abbrev elem_size : TensorDtype → ℕ
elem_size fp32 = 4
elem_size fp16 = 2
elem_size bf16 = 2
elem_size int8 = 1
elem_size int32 = 4

unfoldable pub tensor_size_bytes : TensorDtype → ℕ → ℕ
tensor_size_bytes dtype elements = u32 (elements * elem_size dtype)

unfoldable pub find_tensor : ℕ → List TensorDesc → Option TensorDesc
find_tensor id [] = none
find_tensor id (t ∷ ts) = if t.id == id then some t else find_tensor id ts

abbrev pub new_tensor : ℕ → TensorDtype → ℕ → Bool → ℕ → TensorDesc
new_tensor id dtype num_elements pinned node_affinity = record {
  id = id;
  dtype = dtype;
  num_elements = num_elements;
  size_bytes = tensor_size_bytes dtype num_elements;
  pinned = pinned;
  node_affinity = node_affinity;
}

unfoldable pub add_tensor : JobGraph → ℕ → TensorDtype → ℕ → Bool → ℕ → JobGraph × Status
add_tensor job id dtype num_elements pinned node_affinity =
    if leb max_job_tensors (length job.tensors)
    then (job, failed)
    else elim (find_tensor id job.tensors) [
      | some t ↦ (job, failed)
      | none ↦ (record job { tensors = job.tensors ++ (t ∷ []) }, ok)
    ]
  where
    t : TensorDesc
    t = new_tensor id dtype num_elements pinned node_affinity

abbrev pub append_input : ℕ → JobStep → JobStep
append_input t s = record s { inputs = s.inputs ++ (t ∷ []) }

unfoldable pub step_add_input : JobGraph → ℕ → ℕ → JobGraph × Status
step_add_input job step_id tensor_id = elim (find_step step_id job.steps) [
  | none ↦ (job, failed)
  | some s ↦ elim (find_tensor tensor_id job.tensors) [
    | none ↦ (job, failed)
    | some t ↦
        if leb max_step_inputs (length s.inputs)
        then (job, failed)
        else (record job { steps = update_step step_id (append_input tensor_id) job.steps }, ok)
  ]
]

abbrev pub append_output : ℕ → JobStep → JobStep
append_output t s = record s { outputs = s.outputs ++ (t ∷ []) }

unfoldable pub step_add_output : JobGraph → ℕ → ℕ → JobGraph × Status
step_add_output job step_id tensor_id = elim (find_step step_id job.steps) [
  | none ↦ (job, failed)
  | some s ↦ elim (find_tensor tensor_id job.tensors) [
    | none ↦ (job, failed)
    | some t ↦
        if leb max_step_outputs (length s.outputs)
        then (job, failed)
        else (record job { steps = update_step step_id (append_output tensor_id) job.steps }, ok)
  ]
]

abbrev pub size_kb : TensorDesc → ℕ
size_kb t = u32 (t.size_bytes + 1023) / 1024

-- The first loop of `job_graph_compute_memory`: the total and the pinned memory.
unfoldable pub sum_tensors : List TensorDesc → ℕ → ℕ → ℕ × ℕ
sum_tensors [] total pinned = (total, pinned)
sum_tensors (t ∷ ts) total pinned =
    sum_tensors ts (u32 (total + size_kb t)) (if t.pinned then u32 (pinned + size_kb t) else pinned)

-- The loops over a step's inputs and over its outputs, which add to `step_mem`.
unfoldable pub sum_ids : List TensorDesc → List ℕ → ℕ → ℕ
sum_ids tensors [] mem = mem
sum_ids tensors (i ∷ is) mem =
    sum_ids tensors is
      (elim (find_tensor i tensors) [ none ↦ mem | some t ↦ u32 (mem + size_kb t) ])

unfoldable pub step_memory : List TensorDesc → JobStep → ℕ
unfolding sum_ids
step_memory tensors s = sum_ids tensors s.outputs (sum_ids tensors s.inputs 0)

-- The second loop: each step's figures, and the peak.
unfoldable pub measure_steps : List TensorDesc → List JobStep → ℕ → List JobStep × ℕ
measure_steps tensors [] peak = ([], peak)
measure_steps tensors (s ∷ ss) peak =
    let mem = step_memory tensors s in
    let (ss', peak') = measure_steps tensors ss (if ltb peak mem then mem else peak) in
    (record s { working_set_kb = mem; peak_memory_kb = mem } ∷ ss', peak')

unfoldable pub compute_memory : JobGraph → JobGraph
unfolding sum_tensors measure_steps
compute_memory job =
    let (total, pinned) = sum_tensors job.tensors 0 0 in
    let (steps, peak) = measure_steps job.tensors job.steps 0 in
    record job {
      steps = steps;
      total_memory_kb = total;
      pinned_memory_kb = pinned;
      peak_memory_kb = peak;
    }

unfoldable pub get_tensor : JobGraph → ℕ → Option TensorDesc
get_tensor job id = find_tensor id job.tensors

unfoldable get_step : JobGraph → ℕ → Option JobStep
get_step job id = find_step id job.steps
