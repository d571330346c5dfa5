-- ===== src/JobGraph/Tests.antt =====
-- Runs of job_graph.c at concrete jobs, and the theorems at them.
use zenedge.Common.{◌≡◌, refl, true, false, List, [], ◌∷◌, arith}
use zenedge.JobGraph.{
  JobGraph, compute, io, control, fp16, fp32, init, add_step, add_dep, add_tensor, next_ready,
  mark_completed, find_step, update_step, deps_done, rescan, wake, compute_memory, find_tensor,
  step_add_input, step_add_output, tensor_size_bytes, step_memory,
}
use zenedge.JobGraph.Ready.{IsSafe, IsAwake}
use zenedge.JobGraph.Calls.{
  Call, run_calls, run_call, add_step_call, add_dep_call, mark_completed_call, add_tensor_call,
  step_add_input_call, step_add_output_call, compute_memory_call,
}
use zenedge.JobGraph.Reach.{run_calls-IsSafe, run_calls-IsAwake}
use zenedge.JobGraph.Drive.{drive, IsRunnable, Finishes, drive-Finishes}
use zenedge.JobGraph.Duplicate.{drive_stuck}

-- Load, then two computations, then a barrier that waits for both; declared out of order.
abbrev diamond : List Call
diamond =
    add_step_call 4 control
    ∷ add_step_call 2 compute
    ∷ add_step_call 3 compute
    ∷ add_step_call 1 io
    ∷ add_dep_call 2 1
    ∷ add_dep_call 3 1
    ∷ add_dep_call 4 2
    ∷ add_dep_call 4 3
    ∷ []

abbrev diamond_job : JobGraph
diamond_job = run_calls diamond (init 7)

diamond_order : (drive 9 diamond_job).0 ≡ 1 ∷ 2 ∷ 3 ∷ 4 ∷ []
unfolding drive run_calls init add_step add_dep next_ready mark_completed find_step update_step
    deps_done rescan wake
diamond_order = refl

run_calls-IsSafe_example : IsSafe diamond_job
run_calls-IsSafe_example = run_calls-IsSafe diamond 7

run_calls-IsAwake_example : IsAwake diamond_job
unfolding init run_call add_step add_dep find_step update_step
run_calls-IsAwake_example = run_calls-IsAwake diamond 7 (ground arith)

diamond-IsRunnable : IsRunnable (λ i. i) diamond_job
unfolding run_calls init add_step add_dep find_step update_step deps_done
diamond-IsRunnable = record {
  distinct = ground arith;
  positive = ground arith;
  safe = run_calls-IsSafe diamond 7;
  awake = run_calls-IsAwake diamond 7 (ground arith);
  acyclic = ground arith;
}

drive-Finishes_example : Finishes diamond_job (drive 9 diamond_job).0 (drive 9 diamond_job).1
unfolding run_calls init add_step add_dep find_step update_step
drive-Finishes_example = drive-Finishes (λ i. i) 9 diamond_job diamond-IsRunnable (omega arith)

-- Two steps of id 1, of which the first is completed.
abbrev twice : List Call
twice = add_step_call 1 io ∷ add_step_call 1 compute ∷ mark_completed_call 1 ∷ []

abbrev twice_job : JobGraph
twice_job = run_calls twice (init 7)

drive_stuck_example : drive 5 twice_job ≡ (1 ∷ 1 ∷ 1 ∷ 1 ∷ 1 ∷ [], twice_job)
unfolding run_calls init add_step find_step update_step mark_completed rescan wake deps_done
    next_ready
drive_stuck_example =
    drive_stuck 5 twice_job
      (record {
        id = 1;
        type = io;
        deps = [];
        inputs = [];
        outputs = [];
        peak_memory_kb = 0;
        working_set_kb = 0;
        ready = true;
        completed = true;
      })
      (run_calls-IsAwake twice 7 (ground arith)) refl refl refl

abbrev weights : List Call
weights =
    add_tensor_call 9 fp16 1024 true 0
    ∷ add_tensor_call 8 fp32 1024 false 1
    ∷ add_step_call 1 compute
    ∷ step_add_input_call 1 9
    ∷ step_add_output_call 1 8
    ∷ compute_memory_call
    ∷ []

weights_figures :
    let job = run_calls weights (init 7) in
    (job.total_memory_kb ≡ 6) × (job.pinned_memory_kb ≡ 2) × (job.peak_memory_kb ≡ 6)
unfolding run_calls init add_step find_step update_step add_tensor find_tensor step_add_input
    step_add_output compute_memory tensor_size_bytes step_memory
weights_figures = (refl, refl, refl)
