-- ===== src/Ipc/Exchange.antt =====
-- A command and its answer through both rings of ipc.c, with the mock of the Linux side.
use zenedge.Common.{ℕ, ◌<◌, ◌≡◌, refl, sym, ◌∙◌, ap, arith, true, false, [], ◌∷◌, ◌++◌, ◌==◌, some}
use zenedge.Time.{time_usec}
use zenedge.Ipc.{
  Ipc, IpcPacket, IpcResponse, Arrivals, send_flags, ring_cmd_doorbell, ring_doorbell, respond,
  ring_rsp_doorbell, consume_one, poll_response, ipc_rsp_magic, rsp_ok,
}
use zenedge.Ipc.Ring.{Ring, next, is_empty, is_full, push, front, advance}
use zenedge.Ipc.Ring.Laws.{IsRing, next_step}
use zenedge.Ipc.Ring.Queue.{queue, queue-push, queue-advance}
use zenedge.Ipc.Commands.{packet}
use zenedge.Ipc.Responses.{poll_response-some}

module _ {F : Type 0} (s : Ipc F) where
  -- What the mock answers to the oldest command.
  abbrev pub answer : IpcResponse
  answer = record {
    status = rsp_ok;
    orig_cmd = (front s.cmd_ring).cmd;
    result = 0x12345678;
    timestamp = (time_usec s.clock).0;
  }

  abbrev pub answered : Ipc F
  answered = record s {
    cmd_ring = advance s.cmd_ring;
    rsp_ring = push answer s.rsp_ring;
    doorbell = ring_rsp_doorbell (next s.rsp_ring s.rsp_ring.head) s.doorbell;
    clock = (time_usec s.clock).1;
  }

  consume_one_step :
      s.base ≡ true
      → (s.rsp_ring.magic == ipc_rsp_magic) ≡ true
      → is_empty s.cmd_ring ≡ false
      → is_full s.rsp_ring ≡ false
      → consume_one s ≡ answered
  unfolding consume_one respond
  consume_one_step up valid some_cmd room = rw (up, some_cmd, valid, room) refl

  -- The mock of the Linux side, with a command waiting and room for a response: the oldest command
  -- leaves its queue, and a response that names it joins the end of the other queue.
  pub consume_one-queue :
      s.base ≡ true
      → s.rsp_ring.magic ≡ ipc_rsp_magic
      → IsRing s.cmd_ring
      → IsRing s.rsp_ring
      → is_empty s.cmd_ring ≡ false
      → is_full s.rsp_ring ≡ false
      → (queue s.cmd_ring ≡ front s.cmd_ring ∷ queue (consume_one s).cmd_ring)
        × (queue (consume_one s).rsp_ring ≡ queue s.rsp_ring ++ (answer ∷ []))
  consume_one-queue up valid hc hr some_cmd room =
      let step = consume_one_step up (rw valid refl) some_cmd room in
      (
        queue-advance s.cmd_ring hc some_cmd
            ∙ ap (λ t. front s.cmd_ring ∷ queue t.cmd_ring) (sym step),
        ap (λ t. queue t.rsp_ring) step ∙ queue-push s.rsp_ring answer hr room,
      )

module _ {ℓ} {A : Type ℓ} (r : Ring A) (a : A) (h : IsRing r) (two : 1 < r.size)
    (e : is_empty r ≡ true) where
  room_when_empty : is_full r ≡ false
  room_when_empty = ground (arith, h.head_in, h.tail_in, next_step r h r.head h.head_in)

  some_after_push : is_empty (push a r) ≡ false
  some_after_push = room_when_empty

  front-push : front (push a r) ≡ a
  front-push = rw e refl

module _ {F : Type 0} (s : Ipc F) (cmd payload flags : ℕ) (linux : Arrivals) where
  -- On rings that are set up, of more than one entry each, and empty: a command that is sent and
  -- consumed by the mock is answered, and the poll that follows returns the answer to that command with
  -- status OK, whatever Linux does meanwhile in the poll.
  pub poll_response-consume_one-send_flags :
      s.base ≡ true
      → s.rsp_ring.magic ≡ ipc_rsp_magic
      → IsRing s.cmd_ring
      → IsRing s.rsp_ring
      → 1 < s.cmd_ring.size
      → 1 < s.rsp_ring.size
      → is_empty s.cmd_ring ≡ true
      → is_empty s.rsp_ring ≡ true
      → (r : IpcResponse) × ((poll_response linux
            (consume_one (send_flags cmd payload flags s).1)).0
          ≡ some r)
        × (r.status ≡ rsp_ok)
        × (r.orig_cmd ≡ cmd)
  unfolding send_flags ring_cmd_doorbell
  poll_response-consume_one-send_flags up valid hc hr two two' ec er =
      let p : IpcPacket = packet s cmd payload flags in
      let t : Ipc F = record s {
        cmd_ring = push p s.cmd_ring;
        doorbell = ring_doorbell (next s.cmd_ring s.cmd_ring.head) s.doorbell;
        clock = (time_usec s.clock).1;
      } in
      let m : (s.rsp_ring.magic == ipc_rsp_magic) ≡ true = rw valid refl in
      let sent : (send_flags cmd payload flags s).1 ≡ t =
        rw (up, room_when_empty s.cmd_ring p hc two ec) refl in
      let read : poll_response linux (consume_one t) ≡ (
        some (front (answered t).rsp_ring),
        record (answered t) { rsp_ring = advance (answered t).rsp_ring },
      ) =
        ap (poll_response linux) (
          consume_one_step t up m (some_after_push s.cmd_ring p hc two ec)
            (room_when_empty s.rsp_ring (answer t) hr two' er))
        ∙ poll_response-some (answered t) up m linux
            (some_after_push s.rsp_ring (answer t) hr two' er) in
      let got : front (answered t).rsp_ring ≡ answer t =
        front-push s.rsp_ring (answer t) hr two' er in
      (
        answer t,
        ap (λ u. (poll_response linux (consume_one u)).0) sent ∙ ap (λ q. q.0) read ∙ ap some got,
        refl,
        ap (λ q. q.cmd) (front-push s.cmd_ring p hc two ec),
      )
