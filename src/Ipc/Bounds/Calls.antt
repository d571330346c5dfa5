-- ===== src/Ipc/Bounds/Calls.antt =====
-- Sequences of calls of ipc.c, and the rings after them.
use Prim.Native.Nat.{bit_or}
use zenedge.Common.{
  ℕ, zero, suc, ◌+◌, Bool, not, List, [], ◌∷◌, Option, none, some, if◌then◌else◌, u32, if_keeps,
}
use zenedge.Ipc.{
  Ipc, Arrivals, IpcResponse, init, stream_init, stream_action_push, stream_obs_pop, send_flags,
  poll_response, drain, after_poll, collect, irq_handler, consume_one, enable_irq, mesh_init,
  mesh_update, claim, join, found_table, beat_local, beat_at, clear_flag, doorbell_flag_irq_enabled,
  doorbell_flag_pending, MeshNode, MeshTable,
}
use zenedge.Ipc.Bounds.{
  AreRings, IsPolite, same, stream_init-AreRings, init-AreRings, stream_action_push-AreRings,
  stream_obs_pop-AreRings, send_flags-AreRings, poll_response-AreRings, consume_one-AreRings,
}

-- The calls of the interface; what Linux does while one waits is polite.
pub data Call : Type 0 where
  init_call : Bool → ℕ → Call
  stream_init_call : Call
  action_push_call : ℕ → ℕ → ℕ → Call
  obs_pop_call : Bool → Call
  send_call : ℕ → ℕ → ℕ → Call
  poll_call : (linux : Arrivals) → IsPolite linux → Call
  irq_call : (linux : ℕ → Arrivals) → ((k : ℕ) → IsPolite (linux k)) → ℕ → Call
  consume_one_call : Call
  enable_irq_call : Bool → Call
  mesh_init_call : Call
  mesh_update_call : Call

module _ {F : Type 0} where
  -- What a loop leaves when it has returned.
  abbrev state_of : Ipc F → Option (List IpcResponse × Ipc F) → Ipc F
  state_of s none = s
  state_of s (some q) = q.1

  unfoldable pub run_call : Call → Ipc F → Ipc F
  run_call (init_call base_addr irq) s = init base_addr irq s
  run_call stream_init_call s = stream_init s
  run_call (action_push_call seq action ack_seq) s = (stream_action_push seq action ack_seq s).1
  run_call (obs_pop_call out) s = (stream_obs_pop out s).1
  run_call (send_call cmd payload flags) s = (send_flags cmd payload flags s).1
  run_call (poll_call linux polite) s = (poll_response linux s).1
  run_call (irq_call linux polite fuel) s = state_of s (irq_handler linux fuel s)
  run_call consume_one_call s = consume_one s
  run_call (enable_irq_call enable) s = enable_irq enable s
  run_call mesh_init_call s = mesh_init s
  run_call mesh_update_call s = mesh_update s

  unfoldable pub run_calls : List Call → Ipc F → Ipc F
  unfolding run_call
  run_calls [] s = s
  run_calls (c ∷ cs) s = run_calls cs (run_call c s)

  -- A loop that returns leaves rings.
  abbrev Ends : Option (List IpcResponse × Ipc F) → Type 0
  Ends none = Unit
  Ends (some q) = AreRings q.1

  collect-Ends :
      (r : IpcResponse) (o : Option (List IpcResponse × Ipc F)) → Ends o → Ends (collect r o)
  collect-Ends r none h = h
  collect-Ends r (some (rs, s)) h = h

  after_poll-Ends :
      (call : Ipc F → Option (List IpcResponse × Ipc F)) (p : Option IpcResponse × Ipc F)
      → ((s : Ipc F) → AreRings s → Ends (call s))
      → AreRings p.1
      → Ends (after_poll call p)
  after_poll-Ends call (none, s) f h = h
  after_poll-Ends call (some r, s) f h = collect-Ends r (call s) (f s h)

  drain-Ends :
      (linux : ℕ → Arrivals) (n : ℕ) (s : Ipc F)
      → ((k : ℕ) → IsPolite (linux k))
      → AreRings s
      → Ends (drain linux n s)
  unfolding drain
  drain-Ends linux zero s q h = tt
  drain-Ends linux (suc n) s q h =
      after_poll-Ends (drain linux n) (poll_response (linux n) s)
        (λ t ht. drain-Ends linux n t q ht) (poll_response-AreRings (linux n) s (q n) h)

  irq_handler-Ends :
      (linux : ℕ → Arrivals) (n : ℕ) (s : Ipc F)
      → ((k : ℕ) → IsPolite (linux k))
      → AreRings s
      → Ends (irq_handler linux n s)
  unfolding irq_handler
  irq_handler-Ends linux n s q h =
      let s1 : Ipc F = record s { irq_count = u32 (s.irq_count + 1) } in
      let d = record s1.doorbell {
        rsp_flags = clear_flag s1.doorbell.rsp_flags doorbell_flag_pending;
      } in
      drain-Ends linux n (if s1.base then record s1 { doorbell = d } else s1) q
        (if_keeps AreRings s1.base (same s (record s1 { doorbell = d }) h) (same s s1 h))

  state_of-AreRings :
      (s : Ipc F) (o : Option (List IpcResponse × Ipc F))
      → AreRings s
      → Ends o
      → AreRings (state_of s o)
  state_of-AreRings s none h e = h
  state_of-AreRings s (some q) h e = e

  enable_irq-AreRings : (b : Bool) (s : Ipc F) → AreRings s → AreRings (enable_irq b s)
  unfolding enable_irq
  enable_irq-AreRings b s h =
      let flags = s.doorbell.rsp_flags in
      let f =
        if b
        then bit_or flags doorbell_flag_irq_enabled
        else clear_flag flags doorbell_flag_irq_enabled in
      if_keeps AreRings (not s.base) h
        (same s (record s { doorbell = record s.doorbell { rsp_flags = f } }) h)

  join-AreRings :
      (s : Ipc F) (t : MeshTable) (o : Option (ℕ × List MeshNode))
      → AreRings s
      → AreRings (join s t o)
  join-AreRings s t none h = same s (join s t none) h
  join-AreRings s t (some (i, ns)) h = same s (join s t (some (i, ns))) h

  beat_local-AreRings : (s : Ipc F) (o : Option ℕ) → AreRings s → AreRings (beat_local s o)
  beat_local-AreRings s none h = h
  beat_local-AreRings s (some i) h =
      let t = record s.mesh_table { nodes = beat_at i s.mesh_table.nodes } in
      if_keeps AreRings s.in_mesh (same s (record s { mesh_table = t }) h) h

  run_call-AreRings : (c : Call) (s : Ipc F) → AreRings s → AreRings (run_call c s)
  unfolding run_call mesh_init mesh_update
  run_call-AreRings (init_call base_addr irq) s h = init-AreRings base_addr irq s h
  run_call-AreRings stream_init_call s h = stream_init-AreRings s h
  run_call-AreRings (action_push_call seq action ack_seq) s h =
      stream_action_push-AreRings seq action ack_seq s h
  run_call-AreRings (obs_pop_call out) s h = stream_obs_pop-AreRings out s h
  run_call-AreRings (send_call cmd payload flags) s h = send_flags-AreRings cmd payload flags s h
  run_call-AreRings (poll_call linux polite) s h = poll_response-AreRings linux s polite h
  run_call-AreRings (irq_call linux polite fuel) s h =
      state_of-AreRings s (irq_handler linux fuel s) h (irq_handler-Ends linux fuel s polite h)
  run_call-AreRings consume_one_call s h = consume_one-AreRings s h
  run_call-AreRings (enable_irq_call enable) s h = enable_irq-AreRings enable s h
  run_call-AreRings mesh_init_call s h =
      if_keeps AreRings s.base (join-AreRings s (found_table s) (claim 0 (found_table s).nodes) h) h
  run_call-AreRings mesh_update_call s h = beat_local-AreRings s s.local_node_id h

  -- From a state where it holds, through any calls in any order, and whatever Linux does while a call
  -- waits that keeps the size and the indices of the response ring so: the header of each of the four
  -- rings gives the number of entries that ipc_proto.h gives the ring, and both indices, at which
  -- entries are read and written, are below it. A call of the interrupt handler counts if it returns.
  pub run_calls-AreRings : (cs : List Call) (s : Ipc F) → AreRings s → AreRings (run_calls cs s)
  unfolding run_calls
  run_calls-AreRings [] s h = h
  run_calls-AreRings (c ∷ cs) s h = run_calls-AreRings cs (run_call c s) (run_call-AreRings c s h)
