-- ===== src/Ipc/Heap/Tensor.antt =====
-- kernel/ipc/heap.c: blobs that hold a tensor, with a header of their own at the start of the data, and
-- the checksum over bytes.
use Prim.Native.Nat.{bit_or, bit_xor}
use zenedge.Common.{
  ℕ, zero, suc, ◌+◌, ◌-◌, ◌*◌, ◌/◌, ◌^◌, not, ◌||◌, List, [], ◌∷◌, Option, none, some, ◌==◌, ltb,
  if◌then◌else◌, u32, get_or, take, Memory, read8, read32, write8, write16, write32,
}
use zenedge.Ipc.Heap.{Heap, alloc, ipc_heap_data_size}
use zenedge.Ipc.Heap.Table.{get_blob, get_data, type_at, size_at, offset_at, has_magic}

-- BLOB_TYPE_TENSOR and sizeof(tensor_header_t)
abbrev blob_type_tensor : ℕ
blob_type_tensor = 1

abbrev tensor_header : ℕ
tensor_header = 36

-- `sum` after `n` more bytes from address `a` on.
unfoldable pub compute_checksum : ℕ → Memory → ℕ → ℕ → ℕ
compute_checksum zero m a sum = sum
compute_checksum (suc n) m a sum =
    compute_checksum n m (a + 1) (bit_xor (bit_or (u32 (sum * 2)) (sum / 2 ^ 31)) (read8 m a))

-- DTYPE_FLOAT32 and DTYPE_INT32, DTYPE_FLOAT16 and DTYPE_INT16, and the others.
abbrev dtype_size : ℕ → ℕ
dtype_size dtype = if dtype == 0 || dtype == 2 then 4 else if dtype == 1 || dtype == 3 then 2 else 1

-- The product of the dimensions, in 32 bits.
unfoldable pub elems : ℕ → List ℕ → ℕ
elems nelems [] = nelems
elems nelems (d ∷ ds) = elems (u32 (nelems * d)) ds

-- The loop from dimension `n - 1` down to 0, which writes shapes and strides.
unfoldable pub write_dims : ℕ → ℕ → List ℕ → ℕ → Memory → Memory
write_dims zero addr shape stride m = m
write_dims (suc i) addr shape stride m =
    let d = get_or shape i 0 in
    write_dims i addr shape (u32 (stride * d))
      (write32 (addr + 20 + 4 * i) stride (write32 (addr + 4 + 4 * i) d m))

-- The loop from dimension `i` up to 4, which writes zeros.
unfoldable pub zero_dims : ℕ → ℕ → ℕ → Memory → Memory
zero_dims zero i addr m = m
zero_dims (suc n) i addr m =
    zero_dims n (i + 1) addr (write32 (addr + 20 + 4 * i) 0 (write32 (addr + 4 + 4 * i) 0 m))

unfoldable pub write_tensor : ℕ → ℕ → ℕ → List ℕ → Memory → Memory
write_tensor addr dtype ndim shape m = zero_dims (4 - ndim) ndim addr (
    write_dims ndim addr shape (dtype_size dtype)
      (write16 (addr + 2) 0 (write8 (addr + 1) ndim (write8 addr dtype m))))

-- The header is written to the data of the blob; where `heap_get_data` answers NULL, which the code does
-- not test, the heap is not written to.
abbrev with_tensor : ℕ → ℕ → ℕ → List ℕ → Option (Option ℕ × Heap) → Option (ℕ × Heap)
with_tensor blob_id dtype ndim shape none = none
with_tensor blob_id dtype ndim shape (some (none, h)) = some (blob_id, h)
with_tensor blob_id dtype ndim shape (some (some addr, h)) =
    some (blob_id, record h { memory = write_tensor addr dtype ndim shape h.memory })

-- `shape` is none at NULL.
unfoldable pub alloc_tensor : ℕ → ℕ → ℕ → Option (List ℕ) → Heap → Option (ℕ × Heap)
alloc_tensor fuel dtype ndim none h = some (0, h)
alloc_tensor fuel dtype ndim (some shape) h =
    let size = u32 (tensor_header + u32 (elems 1 (take ndim shape) * dtype_size dtype)) in
    let r = alloc size blob_type_tensor h in
    if ndim == 0 || ltb 4 ndim
    then some (0, h)
    else if r.0 == 0
    then some (0, r.1)
    else with_tensor r.0 dtype ndim shape (get_data fuel r.0 r.1)

-- The dimensions `i` to `i + n - 1` in a tensor's header.
abbrev pub dims : ℕ → ℕ → ℕ → Memory → List ℕ
dims zero i addr m = []
dims (suc n) i addr m = read32 m (addr + 4 + 4 * i) ∷ dims n (i + 1) addr m

-- The bytes that a tensor's header asks for.
abbrev expected_size : Memory → ℕ → ℕ
expected_size m addr =
    u32 (
      tensor_header
      + u32 (elems 1 (dims (read8 m (addr + 1)) 0 addr m) * dtype_size (read8 m addr)))

-- The tests on the blob at `offset` of size `size`, whose data are at `addr`.
abbrev tensor_at : Memory → ℕ → ℕ → Option ℕ
tensor_at m offset addr =
    if ltb (size_at m offset) tensor_header
    then none
    else if ltb 4 (read8 m (addr + 1))
    then none
    else if ltb (size_at m offset) (expected_size m addr)
    then none
    else some (u32 (addr + tensor_header))

abbrev pub tensor_data : ℕ → Option (Option ℕ × Heap) → Option (Option ℕ × Heap)
tensor_data offset none = none
tensor_data offset (some (none, h)) = some (none, h)
tensor_data offset (some (some addr, h)) = some (tensor_at h.memory offset addr, h)

abbrev checked_data : ℕ → ℕ → Option (Option ℕ × Heap) → Option (Option ℕ × Heap)
checked_data fuel blob_id none = none
checked_data fuel blob_id (some (none, h)) = some (none, h)
checked_data fuel blob_id (some (some offset, h)) =
    let addr = tensor_data offset (get_data fuel blob_id h) in
    if not (type_at h.memory offset == blob_type_tensor)
    then some (none, h)
    else if not (has_magic h.memory offset)
    then some (none, h)
    else if ltb ipc_heap_data_size (u32 (offset_at h.memory offset + size_at h.memory offset))
    then some (none, h)
    else addr

unfoldable pub get_tensor_data : ℕ → ℕ → Heap → Option (Option ℕ × Heap)
get_tensor_data fuel blob_id h = checked_data fuel blob_id (get_blob fuel blob_id h)
