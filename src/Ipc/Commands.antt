-- ===== src/Ipc/Commands.antt =====
-- The rings of ipc.c that this side writes to: commands and streamed actions.
use Prim.Native.Nat.{bit_or}
use zenedge.Common.{
  ℕ, ◌+◌, ◌<◌, ◌≡◌, ◌⊎◌, refl, true, false, [], ◌∷◌, ◌++◌, ◌==◌, u32, inl, inr, Bool-cases, Status,
  ok, failed,
}
use zenedge.Time.{time_usec}
use zenedge.Ipc.{
  Ipc, Doorbell, ring_doorbell, has_flag, doorbell_flag_irq_enabled, doorbell_flag_pending,
  IpcPacket, ActionEntry, send_flags, ring_cmd_doorbell, stream_action_push, ipc_stream_magic,
}
use zenedge.Ipc.Ring.{next, is_full, push}
use zenedge.Ipc.Ring.Laws.{IsRing, pending, pending-full, pending-room}
use zenedge.Ipc.Ring.Queue.{queue, queue-push}

-- A doorbell that was rung: but for its value and its count of writes it is the same where its
-- interrupts are not enabled, and marked pending with one interrupt more where they are.
pub data IsRung (d e : Doorbell) : Type 0 where
  quiet :
      has_flag d.cmd_flags doorbell_flag_irq_enabled ≡ false
      → e ≡ record d { cmd_doorbell = e.cmd_doorbell; cmd_writes = e.cmd_writes }
      → IsRung d e
  interrupted :
      has_flag d.cmd_flags doorbell_flag_irq_enabled ≡ true
      → e.cmd_flags ≡ bit_or d.cmd_flags doorbell_flag_pending
      → e.cmd_irq_count ≡ u32 (d.cmd_irq_count + 1)
      → e ≡ record d {
        cmd_doorbell = e.cmd_doorbell;
        cmd_writes = e.cmd_writes;
        cmd_flags = e.cmd_flags;
        cmd_irq_count = e.cmd_irq_count;
      }
      → IsRung d e

-- What sending comes to.
pub data SendOutcome {F : Type 0} (s : Ipc F) (p : IpcPacket) (r : Status × Ipc F) : Type 0 where
  no_ring : s.base ≡ false → r ≡ (failed, s) → SendOutcome s p r
  full :
      s.base ≡ true → pending s.cmd_ring + 1 ≡ s.cmd_ring.size → r ≡ (failed, s) → SendOutcome s p r
  sent :
      (t : Ipc F)
      → s.base ≡ true
      → pending s.cmd_ring + 1 < s.cmd_ring.size
      → r ≡ (ok, t)
      → queue t.cmd_ring ≡ queue s.cmd_ring ++ (p ∷ [])
      → t.doorbell.cmd_doorbell ≡ t.cmd_ring.head
      → t.doorbell.cmd_writes ≡ u32 (s.doorbell.cmd_writes + 1)
      → IsRung s.doorbell t.doorbell
      → t ≡ record s { cmd_ring = t.cmd_ring; doorbell = t.doorbell; clock = t.clock }
      → SendOutcome s p r

rung_head : (head : ℕ) (d : Doorbell) → (ring_doorbell head d).cmd_doorbell ≡ head
rung_head head d = elim (Bool-cases (has_flag d.cmd_flags doorbell_flag_irq_enabled)) [
  | inl e ↦ rw e refl
  | inr e ↦ rw e refl
]

rung_writes : (head : ℕ) (d : Doorbell) → (ring_doorbell head d).cmd_writes ≡ u32 (d.cmd_writes + 1)
rung_writes head d = elim (Bool-cases (has_flag d.cmd_flags doorbell_flag_irq_enabled)) [
  | inl e ↦ rw e refl
  | inr e ↦ rw e refl
]

rung : (head : ℕ) (d : Doorbell) → IsRung d (ring_doorbell head d)
rung head d = elim (Bool-cases (has_flag d.cmd_flags doorbell_flag_irq_enabled)) [
  | inl e ↦ rw e (interrupted e refl refl refl)
  | inr e ↦ rw e (quiet e refl)
]

module _ {F : Type 0} (s : Ipc F) where
  abbrev pub packet : ℕ → ℕ → ℕ → IpcPacket
  packet cmd payload flags = record {
    cmd = cmd;
    flags = flags;
    payload_id = payload;
    timestamp = (time_usec s.clock).0;
  }

  -- Where the indices of the command ring are below its size: sending with no shared memory, or with
  -- one entry less than the ring's size waiting, fails and changes nothing. Otherwise the packet, with
  -- the time of day, joins the end of the queue of commands, the doorbell holds the new head of the
  -- ring and counts the write, it is marked pending and counts an interrupt exactly if its interrupts
  -- are enabled, and nothing else changes but the clock.
  pub send_flags-SendOutcome :
      (cmd payload flags : ℕ)
      → IsRing s.cmd_ring
      → SendOutcome s (packet cmd payload flags) (send_flags cmd payload flags s)
  unfolding send_flags ring_cmd_doorbell
  send_flags-SendOutcome cmd payload flags h = elim (Bool-cases s.base) [
    | inr e ↦ no_ring e (rw e refl)
    | inl e ↦ elim (Bool-cases (is_full s.cmd_ring)) [
      | inl f ↦ full e (pending-full s.cmd_ring h f) (rw (e, f) refl)
      | inr f ↦
          let p = packet cmd payload flags in
          let head = next s.cmd_ring s.cmd_ring.head in
          let t : Ipc F = record s {
            cmd_ring = push p s.cmd_ring;
            doorbell = ring_doorbell head s.doorbell;
            clock = (time_usec s.clock).1;
          } in
          sent t e (pending-room s.cmd_ring h f) (rw (e, f) refl) (queue-push s.cmd_ring p h f)
            (rung_head head s.doorbell) (rung_writes head s.doorbell) (rung head s.doorbell) refl
    ]
  ]

-- What streaming an action comes to.
pub data ActionOutcome {F : Type 0} (s : Ipc F) (a : ActionEntry) (r : Status × Ipc F)
    : Type 0 where
  no_stream :
      (s.streams ≡ false) ⊎ ((s.act_ring.magic == ipc_stream_magic) ≡ false)
      → r ≡ (failed, s)
      → ActionOutcome s a r
  full : pending s.act_ring + 1 ≡ s.act_ring.size → r ≡ (failed, s) → ActionOutcome s a r
  pushed :
      (t : Ipc F)
      → pending s.act_ring + 1 < s.act_ring.size
      → r ≡ (ok, t)
      → queue t.act_ring ≡ queue s.act_ring ++ (a ∷ [])
      → t ≡ record s { act_ring = t.act_ring }
      → ActionOutcome s a r

module _ {F : Type 0} (s : Ipc F) where
  abbrev pub action_entry : ℕ → ℕ → ℕ → ActionEntry
  action_entry seq action ack_seq = record {
    seq = seq;
    action = action;
    flags = 0;
    ack_seq = ack_seq;
    reserved = 0;
  }

  -- Streaming an action fails and changes nothing if the stream is not set up or its ring has one entry
  -- less than its size waiting; otherwise the action joins the end of the queue and nothing else
  -- changes.
  pub stream_action_push-ActionOutcome :
      (seq action ack_seq : ℕ)
      → IsRing s.act_ring
      → ActionOutcome s (action_entry seq action ack_seq) (stream_action_push seq action ack_seq s)
  unfolding stream_action_push
  stream_action_push-ActionOutcome seq action ack_seq h = elim (Bool-cases s.streams) [
    | inr e ↦ no_stream (inl e) (rw e refl)
    | inl e ↦ elim (Bool-cases (s.act_ring.magic == ipc_stream_magic)) [
      | inr m ↦ no_stream (inr m) (rw (e, m) refl)
      | inl m ↦ elim (Bool-cases (is_full s.act_ring)) [
        | inl f ↦ full (pending-full s.act_ring h f) (rw (e, m, f) refl)
        | inr f ↦
            let a = action_entry seq action ack_seq in
            pushed (record s { act_ring = push a s.act_ring }) (pending-room s.act_ring h f)
              (rw (e, m, f) refl) (queue-push s.act_ring a h f) refl
      ]
    ]
  ]
