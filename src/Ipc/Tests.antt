-- ===== src/Ipc/Tests.antt =====
-- Runs of ipc.c on small rings, and the theorems at them.
use zenedge.Common.{
  ℕ, ◌+◌, ◌*◌, ◌<◌, ◌≡◌, refl, true, false, arith, [], ◌∷◌, ◌++◌, none, some, replicate, length,
  u32,
}
use zenedge.Time.{Time}
use zenedge.Ipc.Ring.{Ring, reset, write_entry, publish}
use zenedge.Ipc.Ring.Queue.{queue}
use zenedge.Ipc.Ring.Spsc.{
  Link, Reach, start, later, new_link, Reach-order, test_room, write, move_head, test_entry,
  Producer, found_entry,
}
use zenedge.Ipc.{
  Ipc, IpcPacket, IpcResponse, ObsEntry, ActionEntry, MeshNode, new_doorbell, ipc_magic,
  ipc_rsp_magic, ipc_stream_magic, send_flags, poll_response, consume_one, irq_handler, clear_flag,
  doorbell_flag_pending, rsp_ok, Arrivals,
}
use zenedge.Ipc.Heap.{Heap}
use zenedge.Ipc.Commands.{SendOutcome, send_flags-SendOutcome, packet}
use zenedge.Ipc.Responses.{irq_handler-queue, read_all}
use zenedge.Ipc.Bounds.{AreRings}
use zenedge.Ipc.Bounds.Calls.{
  run_calls, run_calls-AreRings, init_call, send_call, consume_one_call, poll_call, mesh_init_call,
  mesh_update_call,
}
use zenedge.Ipc.Exchange.{poll_response-consume_one-send_flags}

abbrev blank : Ring ℕ
blank = record { magic = 0; head = 9; tail = 7; size = 0; entries = λ i. 0 }

-- One entry sent and found by the consumer, which has not read it yet.
abbrev ring0 : Ring ℕ
ring0 = reset 1 4 blank

abbrev one_sent : Link ℕ
one_sent = record {
  ring = publish (write_entry 5 ring0);
  producer = Producer.idle;
  consumer = found_entry;
  sent = 5 ∷ [];
  received = [];
}

one_sent_reached : Reach (new_link 1 4 blank) one_sent
one_sent_reached =
    later (later (later (later start (test_room 5 refl refl)) (write 5 refl)) (move_head 5 refl))
      (test_entry refl refl)

Reach-order_example :
    (one_sent.sent ≡ one_sent.received ++ queue one_sent.ring) × (length (queue one_sent.ring) < 4)
Reach-order_example = Reach-order 1 4 blank one_sent (omega arith) (omega arith) one_sent_reached

abbrev no_packet : IpcPacket
no_packet = record { cmd = 0; flags = 0; payload_id = 0; timestamp = 0 }

abbrev no_response : IpcResponse
no_response = record { status = 0; orig_cmd = 0; result = 0; timestamp = 0 }

abbrev no_obs : ObsEntry ℕ
no_obs = record { seq = 0; obs = []; reward = 0; done = 0; model_id = 0 }

abbrev no_action : ActionEntry
no_action = record { seq = 0; action = 0; flags = 0; ack_seq = 0; reserved = 0 }

abbrev no_node : MeshNode
no_node = record { node_id = 0; status = 0; cpu_load = 0; heartbeat = 0; jobs_completed = 0 }

abbrev clock : Time
clock = record {
  cpu_mhz = 1000;
  cycles_per_usec = 1000;
  boot_tsc = 0;
  tsc = λ n. 1000 * n + 5000;
  reads = 0;
}

abbrev no_heap : Heap
no_heap = record {
  ready = false;
  magic = 0;
  version = 0;
  total_blocks = 0;
  free_blocks = 0;
  next_blob_id = 0;
  bitmap = [];
  memory = λ a. 0;
  blob_table = [];
}

-- With the shared memory up, and the indices of commands and responses about to wrap around.
abbrev fresh : Ipc ℕ
fresh = record {
  base = true;
  streams = true;
  in_mesh = false;
  cmd_ring = record {
    magic = ipc_magic;
    head = 1023;
    tail = 1023;
    size = 1024;
    entries = λ i. no_packet;
  };
  rsp_ring = record {
    magic = ipc_rsp_magic;
    head = 1022;
    tail = 1022;
    size = 1024;
    entries = λ i. no_response;
  };
  doorbell = new_doorbell;
  heap = no_heap;
  obs_ring = record {
    magic = ipc_stream_magic;
    head = 1;
    tail = 0;
    size = 64;
    entries = λ i. no_obs;
  };
  act_ring = record {
    magic = ipc_stream_magic;
    head = 0;
    tail = 0;
    size = 64;
    entries = λ i. no_action;
  };
  mesh_table = record { magic = 0; version = 0; active_nodes = 0; nodes = replicate 8 no_node };
  local_node_id = none;
  irq_count = 0;
  irq_line = none;
  clock = clock;
}

fresh-AreRings : AreRings fresh
fresh-AreRings = record {
  cmd = record {
    ring = record { small = omega arith; head_in = omega arith; tail_in = omega arith };
    capacity = refl;
  };
  rsp = record {
    ring = record { small = omega arith; head_in = omega arith; tail_in = omega arith };
    capacity = refl;
  };
  obs = record {
    ring = record { small = omega arith; head_in = omega arith; tail_in = omega arith };
    capacity = refl;
  };
  act = record {
    ring = record { small = omega arith; head_in = omega arith; tail_in = omega arith };
    capacity = refl;
  };
}

send_flags-SendOutcome_example : SendOutcome fresh (packet fresh 1 7 0) (send_flags 1 7 0 fresh)
send_flags-SendOutcome_example = send_flags-SendOutcome fresh 1 7 0 fresh-AreRings.cmd.ring

abbrev silent : Arrivals
silent k r = r

-- Two responses, the ring wrapping around.
abbrev two_waiting : Ipc ℕ
two_waiting = record fresh {
  rsp_ring = record {
    magic = ipc_rsp_magic;
    head = 1;
    tail = 3;
    size = 4;
    entries = λ i. record { status = rsp_ok; orig_cmd = i; result = 0; timestamp = 0 };
  };
}

irq_handler-queue_example :
    irq_handler (λ j. silent) 3 two_waiting
    ≡ some (
      queue two_waiting.rsp_ring,
      record two_waiting {
        rsp_ring = read_all two_waiting.rsp_ring;
        irq_count = u32 (two_waiting.irq_count + 1);
        doorbell = record two_waiting.doorbell {
          rsp_flags = clear_flag two_waiting.doorbell.rsp_flags doorbell_flag_pending;
        };
      },
    )
irq_handler-queue_example =
    irq_handler-queue (λ j. silent) (λ j k q. refl) 3 two_waiting refl refl
      (record { small = omega arith; head_in = omega arith; tail_in = omega arith }) (omega arith)

run_calls-AreRings_example : AreRings (
    run_calls
      (init_call true 11
        ∷ send_call 1 7 0
        ∷ consume_one_call
        ∷ mesh_init_call
        ∷ mesh_update_call
        ∷ poll_call silent (λ k r h. h)
        ∷ [])
      fresh)
run_calls-AreRings_example =
    run_calls-AreRings
      (init_call true 11
        ∷ send_call 1 7 0
        ∷ consume_one_call
        ∷ mesh_init_call
        ∷ mesh_update_call
        ∷ poll_call silent (λ k r h. h)
        ∷ [])
      fresh fresh-AreRings

poll_response-consume_one-send_flags_example :
    (r : IpcResponse) × ((poll_response silent (consume_one (send_flags 1 7 0 fresh).1)).0 ≡ some r)
    × (r.status ≡ rsp_ok)
    × (r.orig_cmd ≡ 1)
poll_response-consume_one-send_flags_example =
    poll_response-consume_one-send_flags fresh 1 7 0 silent refl refl fresh-AreRings.cmd.ring
      fresh-AreRings.rsp.ring (omega arith) (omega arith) refl refl
