-- ===== src/JobGraph/Duplicate.antt =====
-- `job_graph_add_step` does not look for the id that it is given, as `job_graph_add_tensor` does.
-- What becomes of a graph where two steps share an id.
use zenedge.Common.{
  ℕ, zero, suc, ◌^◌, ◌≡◌, refl, true, false, some, List, [], ◌∷◌, arith, leb, All, replicate,
}
use zenedge.JobGraph.{
  JobStep, JobGraph, find_step, update_step, complete_step, wake, rescan, next_ready,
  mark_completed,
}
use zenedge.JobGraph.Ready.{IsAwake, IsAwakeStep}
use zenedge.JobGraph.Drive.{drive}

wake_fixed : (all : List JobStep) (s : JobStep) → IsAwakeStep all s → wake all s ≡ s
unfolding wake
wake_fixed all s h = ground arith

rescan_fixed : (all ss : List JobStep) → All (IsAwakeStep all) ss → rescan all ss ≡ ss
unfolding rescan
rescan_fixed all [] h = refl
rescan_fixed all (s ∷ ss) h = cc (wake_fixed all s h.0, rescan_fixed all ss h.1)

complete_fixed :
    (i : ℕ) (ss : List JobStep) (s : JobStep)
    → find_step i ss ≡ some s
    → s.completed ≡ true
    → update_step i complete_step ss ≡ ss
unfolding find_step update_step
complete_fixed i [] s e c = refl
complete_fixed i (x ∷ ss) s e c = ground (arith, complete_fixed i ss s)

-- Marking a step completed again changes nothing.
mark_completed_fixed :
    (job : JobGraph) (i : ℕ) (s : JobStep)
    → IsAwake job
    → find_step i job.steps ≡ some s
    → s.completed ≡ true
    → mark_completed job i ≡ job
unfolding mark_completed
mark_completed_fixed job i s awake e c =
    rw (e, mark_completed, complete_fixed i job.steps s e c, rescan_fixed job.steps job.steps awake)

-- Where every step that is not completed, with its dependencies completed, is ready already, and the id
-- that is next ready, below 2 ^ 31, leads `find_step` to another step, which is completed, the scheduler
-- runs that id again in every round, for ever: the graph never changes.
pub drive_stuck :
    (fuel : ℕ) (job : JobGraph) (s : JobStep)
    → IsAwake job
    → leb (2 ^ 31) (next_ready job) ≡ false
    → find_step (next_ready job) job.steps ≡ some s
    → s.completed ≡ true
    → drive fuel job ≡ (replicate fuel (next_ready job), job)
unfolding drive
drive_stuck zero job s awake p e c = refl
drive_stuck (suc fuel) job s awake p e c =
    rw (p, mark_completed_fixed job (next_ready job) s awake e c)
      (rw (drive_stuck fuel job s awake p e c))
