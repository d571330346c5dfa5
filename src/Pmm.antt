-- ===== src/Pmm.antt =====
-- kernel/mm/pmm.c: the physical memory manager, a bitmap of 4 KB pages split into two NUMA nodes.
mod State
mod Boot
mod Ops
mod Runs
pub mod Nodes
pub mod Alloc
pub mod Free
pub mod Init
pub mod Stuck
pub mod Granted
pub mod Sample
pub mod Tests
unfoldable pub use State.*
unfoldable pub use Boot.*
unfoldable pub use Ops.*
unfoldable pub use Runs.*
