-- ===== src/Ipc/Ops.antt =====
-- kernel/ipc/ipc.c: the operations on the rings and the doorbell, named without ipc_. What the other
-- side of the shared memory does meanwhile is an argument where the code waits for it.
use Prim.Native.Nat.{bit_and, bit_or}
use zenedge.Common.{
  ℕ, zero, suc, ◌+◌, ◌-◌, ◌^◌, Bool, true, false, not, ◌&&◌, ◌||◌, List, [], ◌∷◌, Option, none,
  some, ◌==◌, ltb, if◌then◌else◌, u32, Status, ok, failed,
}
use zenedge.Time.{time_usec}
use zenedge.Ipc.Ring.{Ring, next, is_full, is_empty, push, front, advance, reset}
use zenedge.Ipc.Heap.{init as heap_init}
use zenedge.Ipc.State.{
  Ipc, Doorbell, IpcPacket, IpcResponse, ObsEntry, ActionEntry, ipc_magic, ipc_rsp_magic,
  ipc_ring_size, ipc_stream_magic, ipc_obs_ring_size, ipc_act_ring_size, ipc_doorbell_magic,
  doorbell_flag_irq_enabled, doorbell_flag_pending, rsp_ok,
}

abbrev pub has_flag : ℕ → ℕ → Bool
has_flag flags flag = not (bit_and flags flag == 0)

abbrev pub clear_flag : ℕ → ℕ → ℕ
clear_flag flags flag = bit_and flags (2 ^ 32 - 1 - flag)

abbrev pub new_doorbell : Doorbell
new_doorbell = record {
  magic = ipc_doorbell_magic;
  version = 1;
  cmd_doorbell = 0;
  cmd_flags = 0;
  cmd_irq_count = 0;
  rsp_doorbell = 0;
  rsp_flags = doorbell_flag_irq_enabled;
  rsp_irq_count = 0;
  cmd_writes = 0;
  rsp_writes = 0;
}

-- What Linux does to the response ring in the pause before `n` more looks.
abbrev pub Arrivals : Type 0
Arrivals = ℕ → Ring IpcResponse → Ring IpcResponse

-- The loop that waits for a response, `n` looks at most.
unfoldable pub spin : Arrivals → ℕ → Ring IpcResponse → Ring IpcResponse
spin linux zero r = r
spin linux (suc n) r = let rest = spin linux n (linux n r) in if is_empty r then rest else r

-- The mock of the Linux side rings the doorbell for responses.
abbrev pub ring_rsp_doorbell : ℕ → Doorbell → Doorbell
ring_rsp_doorbell head d0 =
    let d = record d0 { rsp_doorbell = head; rsp_writes = u32 (d0.rsp_writes + 1) } in
    if has_flag d.rsp_flags doorbell_flag_irq_enabled
    then record d {
      rsp_flags = bit_or d.rsp_flags doorbell_flag_pending;
      rsp_irq_count = u32 (d.rsp_irq_count + 1);
    }
    else d

-- What `ring_cmd_doorbell` does to the doorbell.
abbrev pub ring_doorbell : ℕ → Doorbell → Doorbell
ring_doorbell head d0 =
    let d = record d0 { cmd_doorbell = head; cmd_writes = u32 (d0.cmd_writes + 1) } in
    if has_flag d.cmd_flags doorbell_flag_irq_enabled
    then record d {
      cmd_flags = bit_or d.cmd_flags doorbell_flag_pending;
      cmd_irq_count = u32 (d.cmd_irq_count + 1);
    }
    else d

module _ {F : Type 0} where
  unfoldable pub stream_init : Ipc F → Ipc F
  stream_init s =
      let obs =
        if s.obs_ring.magic == ipc_stream_magic
        then s.obs_ring
        else reset ipc_stream_magic ipc_obs_ring_size s.obs_ring in
      let act =
        if s.act_ring.magic == ipc_stream_magic
        then s.act_ring
        else reset ipc_stream_magic ipc_act_ring_size s.act_ring in
      if s.base then record s { streams = true; obs_ring = obs; act_ring = act } else s

  -- `base_addr` is whether the address is not NULL.
  unfoldable pub init : Bool → ℕ → Ipc F → Ipc F
  unfolding stream_init
  init base_addr irq s =
      let s1 = record s {
        base = true;
        cmd_ring = reset ipc_magic ipc_ring_size s.cmd_ring;
        rsp_ring = reset ipc_rsp_magic ipc_ring_size s.rsp_ring;
        doorbell = new_doorbell;
        heap = heap_init true s.heap;
      } in
      let s2 = stream_init s1 in
      let s3 = if ltb 0 irq && ltb irq 16 then record s2 { irq_line = some irq } else s2 in
      if base_addr then s3 else s

  abbrev pub stream_ready : Ipc F → Bool
  stream_ready s =
      s.streams && s.obs_ring.magic == ipc_stream_magic && s.act_ring.magic == ipc_stream_magic

  unfoldable pub stream_action_push : ℕ → ℕ → ℕ → Ipc F → Status × Ipc F
  stream_action_push seq action ack_seq s =
      let e : ActionEntry = record {
        seq = seq;
        action = action;
        flags = 0;
        ack_seq = ack_seq;
        reserved = 0;
      } in
      if not s.streams || not (s.act_ring.magic == ipc_stream_magic)
      then (failed, s)
      else if is_full s.act_ring
      then (failed, s)
      else (ok, record s { act_ring = push e s.act_ring })

  -- `out` is whether the caller's pointer is not NULL.
  unfoldable pub stream_obs_pop : Bool → Ipc F → Option (ObsEntry F) × Ipc F
  stream_obs_pop out s =
      if not s.streams || not (s.obs_ring.magic == ipc_stream_magic) || not out
      then (none, s)
      else if s.obs_ring.tail == s.obs_ring.head
      then (none, s)
      else (some (front s.obs_ring), record s { obs_ring = advance s.obs_ring })

  unfoldable pub ring_cmd_doorbell : ℕ → Ipc F → Ipc F
  ring_cmd_doorbell head s =
      if not s.base then s else record s { doorbell = ring_doorbell head s.doorbell }

  unfoldable pub send_flags : ℕ → ℕ → ℕ → Ipc F → Status × Ipc F
  unfolding ring_cmd_doorbell
  send_flags cmd payload flags s =
      let (now, clock) = time_usec s.clock in
      let p : IpcPacket = record {
        cmd = cmd;
        flags = flags;
        payload_id = payload;
        timestamp = now;
      } in
      if not s.base then (failed, s) else if is_full s.cmd_ring then (failed, s) else (
        ok,
        ring_cmd_doorbell (next s.cmd_ring s.cmd_ring.head)
            (record s { cmd_ring = push p s.cmd_ring; clock = clock }),
      )

  abbrev pub send : ℕ → ℕ → Ipc F → Status × Ipc F
  send cmd payload s = send_flags cmd payload 0 s

  abbrev pub has_response : Ipc F → Bool
  has_response s =
      if not s.base || not (s.rsp_ring.magic == ipc_rsp_magic)
      then false
      else not (is_empty s.rsp_ring)

  unfoldable pub poll_response : Arrivals → Ipc F → Option IpcResponse × Ipc F
  unfolding spin
  poll_response linux s =
      let r = spin linux 5000 s.rsp_ring in
      if not s.base || not (s.rsp_ring.magic == ipc_rsp_magic)
      then (none, s)
      else if is_empty r
      then (none, record s { rsp_ring = r })
      else (some (front r), record s { rsp_ring = advance r })

  -- The response to a command, if there is room for one.
  unfoldable pub respond : ℕ → Ipc F → Ipc F
  respond orig_cmd s =
      let (now, clock) = time_usec s.clock in
      let e : IpcResponse = record {
        status = rsp_ok;
        orig_cmd = orig_cmd;
        result = 0x12345678;
        timestamp = now;
      } in
      if not (s.rsp_ring.magic == ipc_rsp_magic)
      then s
      else if is_full s.rsp_ring
      then s
      else record s {
        rsp_ring = push e s.rsp_ring;
        doorbell = ring_rsp_doorbell (next s.rsp_ring s.rsp_ring.head) s.doorbell;
        clock = clock;
      }

  unfoldable pub consume_one : Ipc F → Ipc F
  unfolding respond
  consume_one s =
      if not s.base
      then s
      else if is_empty s.cmd_ring
      then s
      else respond (front s.cmd_ring).cmd (record s { cmd_ring = advance s.cmd_ring })

  unfoldable pub enable_irq : Bool → Ipc F → Ipc F
  enable_irq enable s =
      let flags = s.doorbell.rsp_flags in
      let set = bit_or flags doorbell_flag_irq_enabled in
      let cleared = clear_flag flags doorbell_flag_irq_enabled in
      if not s.base
      then s
      else record s { doorbell = record s.doorbell { rsp_flags = if enable then set else cleared } }

  abbrev pub collect :
      IpcResponse → Option (List IpcResponse × Ipc F) → Option (List IpcResponse × Ipc F)
  collect r none = none
  collect r (some (rs, s)) = some (r ∷ rs, s)

  abbrev pub after_poll :
      (Ipc F → Option (List IpcResponse × Ipc F))
      → Option IpcResponse × Ipc F
      → Option (List IpcResponse × Ipc F)
  after_poll call (none, s) = some ([], s)
  after_poll call (some r, s) = collect r (call s)

  -- The handler's loop with fuel for its polls; `linux k` is what Linux does during the poll with `k`
  -- polls left, and the responses are those that were read, in order. `none` is a loop that is still
  -- running.
  unfoldable pub drain : (ℕ → Arrivals) → ℕ → Ipc F → Option (List IpcResponse × Ipc F)
  drain linux zero s = none
  drain linux (suc n) s = after_poll (drain linux n) (poll_response (linux n) s)

  unfoldable pub irq_handler : (ℕ → Arrivals) → ℕ → Ipc F → Option (List IpcResponse × Ipc F)
  unfolding drain
  irq_handler linux fuel s =
      let s1 = record s { irq_count = u32 (s.irq_count + 1) } in
      let flags = clear_flag s1.doorbell.rsp_flags doorbell_flag_pending in
      drain linux fuel
        (if s1.base then record s1 { doorbell = record s1.doorbell { rsp_flags = flags } } else s1)
