-- ===== src/Ipc/Ring.antt =====
-- The rings of kernel/ipc/ipc_proto.h, which share one header: a producer writes the entry at `head`
-- and then moves `head`, a consumer reads the entry at `tail` and then moves `tail`. The entries are
-- the memory from the header on, read at any index.
pub mod Laws
pub mod Queue
pub mod Spsc
use zenedge.Common.{ℕ, suc, zero, ◌+◌, ◌%◌, Bool, List, [], ◌∷◌, ◌==◌, if◌then◌else◌, u32}

pub record Ring {ℓ} (A : Type ℓ) : Type ℓ where
  pub magic : ℕ
  pub head : ℕ
  pub tail : ℕ
  pub size : ℕ
  pub entries : ℕ → A

abbrev pub update {ℓ} : {A : Type ℓ} → (ℕ → A) → ℕ → A → ℕ → A
update f i a j = if i == j then a else f j

module _ {ℓ} {A : Type ℓ} where
  -- `(i + 1) % ring->size`
  abbrev pub next : Ring A → ℕ → ℕ
  next r i = u32 (i + 1) % r.size

  abbrev pub is_full : Ring A → Bool
  is_full r = next r r.head == r.tail

  abbrev pub is_empty : Ring A → Bool
  is_empty r = r.head == r.tail

  -- The entry at `head` is written; the consumer does not see it yet.
  abbrev pub write_entry : A → Ring A → Ring A
  write_entry a r = record r { entries = update r.entries r.head a }

  abbrev pub publish : Ring A → Ring A
  publish r = record r { head = next r r.head }

  abbrev pub push : A → Ring A → Ring A
  push a r = publish (write_entry a r)

  abbrev pub front : Ring A → A
  front r = r.entries r.tail

  abbrev pub advance : Ring A → Ring A
  advance r = record r { tail = next r r.tail }

  -- The header of a ring that is set up.
  abbrev pub reset : ℕ → ℕ → Ring A → Ring A
  reset magic size r = record r { magic = magic; head = 0; tail = 0; size = size }
