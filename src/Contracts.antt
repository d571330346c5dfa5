-- ===== src/Contracts.antt =====
-- kernel/contracts.c, kernel/api/contract_registry.c and kernel/api/oracle.c: resource contracts,
-- the registry that the oracle reads, and admission.
mod State
mod Ops
mod Oracle
pub mod Grades
pub mod Pages
pub mod Registry
pub mod Admit
pub mod Release
pub mod Tests
unfoldable pub use State.*
unfoldable pub use Ops.*
unfoldable pub use Oracle.*
