-- ===== src/Ipc.antt =====
-- kernel/ipc: the rings, the doorbell and the mesh table of the shared memory.
pub mod Ring
pub mod Heap
mod State
mod Ops
mod Mesh
pub mod Commands
pub mod Responses
pub mod Bounds
pub mod Exchange
pub mod Tests
unfoldable pub use State.*
unfoldable pub use Ops.*
unfoldable pub use Mesh.*
