-- ===== src/Ipc/Bounds.antt =====
-- The sizes and the indices of the four rings of ipc.c.
pub mod Calls
use zenedge.Common.{
  ℕ, zero, suc, ◌+◌, ◌^◌, ◌<◌, ◌≡◌, refl, sym, arith, Bool, true, false, not, ◌&&◌, ◌||◌, List, [],
  ◌∷◌, ◌==◌, ltb, if◌then◌else◌, u32, Option, none, some, Status, ok, failed, if_keeps,
}
use zenedge.Time.{time_usec}
use zenedge.Ipc.{
  Ipc, Arrivals, IpcResponse, ObsEntry, IpcPacket, ActionEntry, new_doorbell, ipc_magic,
  ipc_rsp_magic, ipc_ring_size, ipc_stream_magic, ipc_obs_ring_size, ipc_act_ring_size, init,
  stream_init, stream_action_push, stream_obs_pop, send_flags, ring_cmd_doorbell, ring_doorbell,
  spin, poll_response, drain, irq_handler, respond, ring_rsp_doorbell, consume_one, enable_irq,
  mesh_init, mesh_update, rsp_ok, claim, new_table, after_poll, collect,
}
use zenedge.Ipc.Heap.{init as heap_init}
use zenedge.Ipc.Ring.{Ring, next, is_empty, is_full, push, front, advance, reset, write_entry}
use zenedge.Ipc.Ring.Laws.{IsRing, advance-IsRing, publish-IsRing}

-- A ring whose header gives the `n` entries that the array behind it has, with both indices inside.
pub record IsRingOf {ℓ} {A : Type ℓ} (n : ℕ) (r : Ring A) : Type 0 where
  pub ring : IsRing r
  pub capacity : r.size ≡ n

pub record AreRings {F : Type 0} (s : Ipc F) : Type 0 where
  pub cmd : IsRingOf ipc_ring_size s.cmd_ring
  pub rsp : IsRingOf ipc_ring_size s.rsp_ring
  pub obs : IsRingOf ipc_obs_ring_size s.obs_ring
  pub act : IsRingOf ipc_act_ring_size s.act_ring

-- Linux may change the response ring while the code waits, but keeps its size and the indices inside.
abbrev pub IsPolite : Arrivals → Type 0
IsPolite linux =
    (k : ℕ) → (r : Ring IpcResponse) → IsRingOf ipc_ring_size r → IsRingOf ipc_ring_size (linux k r)

module _ {ℓ} {A : Type ℓ} {n : ℕ} (r : Ring A) where
  push-IsRingOf : (a : A) → IsRingOf n r → IsRingOf n (push a r)
  push-IsRingOf a h = record {
    ring =
        publish-IsRing (write_entry a r)
          (record { small = h.ring.small; head_in = h.ring.head_in; tail_in = h.ring.tail_in });
    capacity = h.capacity;
  }

  advance-IsRingOf : IsRingOf n r → IsRingOf n (advance r)
  advance-IsRingOf h = record { ring = advance-IsRing r h.ring; capacity = h.capacity }

reset-IsRingOf {ℓ} :
    {A : Type ℓ} (magic size : ℕ) (r : Ring A)
    → 0 < size
    → size < 2 ^ 32
    → IsRingOf size (reset magic size r)
reset-IsRingOf magic size r pos small = record {
  ring = record { small = small; head_in = pos; tail_in = pos };
  capacity = refl;
}

spin-IsRingOf :
    (linux : Arrivals) (n : ℕ) (r : Ring IpcResponse)
    → IsPolite linux
    → IsRingOf ipc_ring_size r
    → IsRingOf ipc_ring_size (spin linux n r)
unfolding spin
spin-IsRingOf linux zero r q h = h
spin-IsRingOf linux (suc n) r q h =
    if_keeps (IsRingOf ipc_ring_size) (is_empty r) (spin-IsRingOf linux n (linux n r) q (q n r h)) h

module _ {F : Type 0} where
  abbrev Leaves {ℓ} : {R : Type ℓ} → R × Ipc F → Type 0
  Leaves q = AreRings q.1

  with_cmd :
      (s : Ipc F) (r : Ring IpcPacket)
      → IsRingOf ipc_ring_size r
      → AreRings s
      → AreRings (record s { cmd_ring = r })
  with_cmd s r q h = record { cmd = q; rsp = h.rsp; obs = h.obs; act = h.act }

  with_rsp :
      (s : Ipc F) (r : Ring IpcResponse)
      → IsRingOf ipc_ring_size r
      → AreRings s
      → AreRings (record s { rsp_ring = r })
  with_rsp s r q h = record { cmd = h.cmd; rsp = q; obs = h.obs; act = h.act }

  -- Only the fields of the rings matter.
  pub same :
      (s : Ipc F) (t : Ipc F)
      → AreRings s
      → AreRings (record t {
        cmd_ring = s.cmd_ring;
        rsp_ring = s.rsp_ring;
        obs_ring = s.obs_ring;
        act_ring = s.act_ring;
      })
  same s t h = record { cmd = h.cmd; rsp = h.rsp; obs = h.obs; act = h.act }

  pub stream_init-AreRings : (s : Ipc F) → AreRings s → AreRings (stream_init s)
  unfolding stream_init
  stream_init-AreRings s h =
      if_keeps AreRings s.base
        (record {
          cmd = h.cmd;
          rsp = h.rsp;
          obs = if_keeps (IsRingOf ipc_obs_ring_size) (s.obs_ring.magic == ipc_stream_magic) h.obs (
              reset-IsRingOf ipc_stream_magic ipc_obs_ring_size s.obs_ring (omega arith)
                (omega arith));
          act = if_keeps (IsRingOf ipc_act_ring_size) (s.act_ring.magic == ipc_stream_magic) h.act (
              reset-IsRingOf ipc_stream_magic ipc_act_ring_size s.act_ring (omega arith)
                (omega arith));
        })
        h

  pub init-AreRings : (b : Bool) (irq : ℕ) (s : Ipc F) → AreRings s → AreRings (init b irq s)
  unfolding init
  init-AreRings b irq s h =
      let s1 : Ipc F = record s {
        base = true;
        cmd_ring = reset ipc_magic ipc_ring_size s.cmd_ring;
        rsp_ring = reset ipc_rsp_magic ipc_ring_size s.rsp_ring;
        doorbell = new_doorbell;
        heap = heap_init true s.heap;
      } in
      let s2 = stream_init s1 in
      let h2 : AreRings s2 = stream_init-AreRings s1 (record {
        cmd = reset-IsRingOf ipc_magic ipc_ring_size s.cmd_ring (omega arith) (omega arith);
        rsp = reset-IsRingOf ipc_rsp_magic ipc_ring_size s.rsp_ring (omega arith) (omega arith);
        obs = h.obs;
        act = h.act;
      }) in
      if_keeps AreRings b
        (if_keeps AreRings (ltb 0 irq && ltb irq 16)
          (same s2 (record s2 { irq_line = some irq }) h2) h2)
        h

  pub stream_action_push-AreRings :
      (seq action ack_seq : ℕ) (s : Ipc F)
      → AreRings s
      → AreRings (stream_action_push seq action ack_seq s).1
  unfolding stream_action_push
  stream_action_push-AreRings seq action ack_seq s h =
      let e : ActionEntry = record {
        seq = seq;
        action = action;
        flags = 0;
        ack_seq = ack_seq;
        reserved = 0;
      } in
      if_keeps Leaves (not s.streams || not (s.act_ring.magic == ipc_stream_magic)) h (
        if_keeps Leaves (is_full s.act_ring) h (record {
          cmd = h.cmd;
          rsp = h.rsp;
          obs = h.obs;
          act = push-IsRingOf s.act_ring e h.act;
        }))

  pub stream_obs_pop-AreRings :
      (out : Bool) (s : Ipc F) → AreRings s → AreRings (stream_obs_pop out s).1
  unfolding stream_obs_pop
  stream_obs_pop-AreRings out s h =
      if_keeps Leaves (not s.streams || not (s.obs_ring.magic == ipc_stream_magic) || not out) h (
        if_keeps Leaves (s.obs_ring.tail == s.obs_ring.head) h (record {
          cmd = h.cmd;
          rsp = h.rsp;
          obs = advance-IsRingOf s.obs_ring h.obs;
          act = h.act;
        }))

  pub send_flags-AreRings :
      (cmd payload flags : ℕ) (s : Ipc F) → AreRings s → AreRings (send_flags cmd payload flags s).1
  unfolding send_flags ring_cmd_doorbell
  send_flags-AreRings cmd payload flags s h =
      let p : IpcPacket = record {
        cmd = cmd;
        flags = flags;
        payload_id = payload;
        timestamp = (time_usec s.clock).0;
      } in
      let t : Ipc F = record s { cmd_ring = push p s.cmd_ring; clock = (time_usec s.clock).1 } in
      let ht : AreRings t = record {
        cmd = push-IsRingOf s.cmd_ring p h.cmd;
        rsp = h.rsp;
        obs = h.obs;
        act = h.act;
      } in
      if_keeps Leaves (not s.base) h (
        if_keeps Leaves (is_full s.cmd_ring) h (
          if_keeps AreRings (not s.base) ht (
            same t
              (record t { doorbell = ring_doorbell (next s.cmd_ring s.cmd_ring.head) t.doorbell })
              ht)))

  pub poll_response-AreRings :
      (linux : Arrivals) (s : Ipc F)
      → IsPolite linux
      → AreRings s
      → AreRings (poll_response linux s).1
  unfolding poll_response
  poll_response-AreRings linux s q h =
      let r = spin linux 5000 s.rsp_ring in
      let hr : IsRingOf ipc_ring_size r = spin-IsRingOf linux 5000 s.rsp_ring q h.rsp in
      if_keeps Leaves (not s.base || not (s.rsp_ring.magic == ipc_rsp_magic)) h (
        if_keeps Leaves (is_empty r) (with_rsp s r hr h)
          (with_rsp s (advance r) (advance-IsRingOf r hr) h))

  respond-AreRings : (cmd : ℕ) (s : Ipc F) → AreRings s → AreRings (respond cmd s)
  unfolding respond
  respond-AreRings cmd s h =
      let e : IpcResponse = record {
        status = rsp_ok;
        orig_cmd = cmd;
        result = 0x12345678;
        timestamp = (time_usec s.clock).0;
      } in
      if_keeps AreRings (not (s.rsp_ring.magic == ipc_rsp_magic)) h (
        if_keeps AreRings (is_full s.rsp_ring) h (record {
          cmd = h.cmd;
          rsp = push-IsRingOf s.rsp_ring e h.rsp;
          obs = h.obs;
          act = h.act;
        }))

  pub consume_one-AreRings : (s : Ipc F) → AreRings s → AreRings (consume_one s)
  unfolding consume_one
  consume_one-AreRings s h = if_keeps AreRings (not s.base) h (
      if_keeps AreRings (is_empty s.cmd_ring) h (
        respond-AreRings (front s.cmd_ring).cmd (record s { cmd_ring = advance s.cmd_ring })
          (with_cmd s (advance s.cmd_ring) (advance-IsRingOf s.cmd_ring h.cmd) h)))
