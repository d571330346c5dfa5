-- ===== src/Common/Bytes.antt =====
-- Memory as bytes by address, and its little-endian reads and writes.
use Prim.Native.Nat.{ℕ, ◌+◌, ◌*◌, ◌/◌, ◌^◌, ◌≤◌, ◌<◌}
use mathlib.Core.Path.{◌≡◌}
use mathlib.Core.Logic.{◌⊎◌}
use native.Mathlib.Omega.{arith}
use zenedge.Common.Tests.{◌==◌, if◌then◌else◌}
use zenedge.Common.Words.{u8}

abbrev pub Memory : Type 0
Memory = ℕ → ℕ

abbrev pub read8 : Memory → ℕ → ℕ
read8 m a = u8 (m a)

unfoldable pub read16 : Memory → ℕ → ℕ
read16 m a = read8 m a + 2 ^ 8 * read8 m (a + 1)

unfoldable pub read32 : Memory → ℕ → ℕ
read32 m a =
    read8 m a + 2 ^ 8 * read8 m (a + 1) + 2 ^ 16 * read8 m (a + 2) + 2 ^ 24 * read8 m (a + 3)

abbrev pub write8 : ℕ → ℕ → Memory → Memory
write8 a v m j = if a == j then u8 v else m j

unfoldable pub write16 : ℕ → ℕ → Memory → Memory
write16 a v m = write8 (a + 1) (v / 2 ^ 8) (write8 a v m)

unfoldable pub write32 : ℕ → ℕ → Memory → Memory
write32 a v m =
    write8 (a + 3) (v / 2 ^ 24)
      (write8 (a + 2) (v / 2 ^ 16) (write8 (a + 1) (v / 2 ^ 8) (write8 a v m)))

pub read32-write32 : (m : Memory) (a v : ℕ) → v < 2 ^ 32 → read32 (write32 a v m) a ≡ v
unfolding read32 write32
read32-write32 m a v lt = ground arith

-- A write of four bytes leaves a word that does not overlap it.
pub read32-write32_ne :
    (m : Memory) (a b v : ℕ) → (a + 4 ≤ b) ⊎ (b + 4 ≤ a) → read32 (write32 a v m) b ≡ read32 m b
unfolding read32 write32
read32-write32_ne m a b v h = ground arith
