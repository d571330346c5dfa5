-- ===== src/JobGraph/Drive.antt =====
-- Driving a job graph to its end as the scheduler does (kernel/sched/sched_core.c): take the next
-- ready step, run it, mark it completed, until no step is ready.
mod Count
mod Finish
mod Total
unfoldable pub use Count.*
unfoldable pub use Finish.*
pub use Total.*
