-- ===== src/Bitmap.antt =====
-- The bitmaps of kernel/mm/pmm.c and kernel/ipc/heap.c: a list of bytes, one bit for a page or a
-- block, and the number of bits as a parameter.
mod Bits
mod Laws
mod Count
unfoldable pub use Bits.*
pub use Laws.*
pub use Count.*
