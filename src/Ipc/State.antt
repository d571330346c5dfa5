-- ===== src/Ipc/State.antt =====
-- kernel/ipc/ipc_proto.h and the statics of ipc.c: what the shared memory holds, and what this side
-- knows of it. A pointer into the memory is a Boolean: whether it is set.
use zenedge.Common.{ℕ, ◌+◌, ◌*◌, ◌/◌, ◌%◌, ◌^◌, Bool, List, Option, u16, u32}
use zenedge.Ipc.Ring.{Ring}
use zenedge.Ipc.Heap.{Heap}
use zenedge.Time.{Time}

abbrev pub ipc_magic : ℕ
ipc_magic = 0x51DECA9E

abbrev pub ipc_rsp_magic : ℕ
ipc_rsp_magic = 0x52535030

abbrev pub ipc_ring_size : ℕ
ipc_ring_size = 1024

abbrev pub ipc_stream_magic : ℕ
ipc_stream_magic = 0x5354524D

abbrev pub ipc_obs_ring_size : ℕ
ipc_obs_ring_size = 64

abbrev pub ipc_act_ring_size : ℕ
ipc_act_ring_size = 64

abbrev pub ipc_doorbell_magic : ℕ
ipc_doorbell_magic = 0x444F4F52

-- Bit 0 and bit 1 of the flags of a doorbell.
abbrev pub doorbell_flag_irq_enabled : ℕ
doorbell_flag_irq_enabled = 0x01

abbrev pub doorbell_flag_pending : ℕ
doorbell_flag_pending = 0x02

abbrev pub rsp_ok : ℕ
rsp_ok = 0x8000

abbrev pub mesh_magic : ℕ
mesh_magic = 0x4D455348

abbrev mes_max_nodes : ℕ
mes_max_nodes = 8

abbrev pub node_status_offline : ℕ
node_status_offline = 0

abbrev pub node_status_alive : ℕ
node_status_alive = 1

pub record IpcPacket : Type 0 where
  pub cmd : ℕ
  pub flags : ℕ
  pub payload_id : ℕ
  pub timestamp : ℕ

pub record IpcResponse : Type 0 where
  pub status : ℕ
  pub orig_cmd : ℕ
  pub result : ℕ
  pub timestamp : ℕ

-- The float fields are values of a type that nothing here looks into.
pub record ObsEntry (F : Type 0) : Type 0 where
  pub seq : ℕ
  pub obs : List F
  pub reward : F
  pub done : F
  pub model_id : F

pub record ActionEntry : Type 0 where
  pub seq : ℕ
  pub action : ℕ
  pub flags : ℕ
  pub ack_seq : ℕ
  pub reserved : ℕ

pub record Doorbell : Type 0 where
  pub magic : ℕ
  pub version : ℕ
  pub cmd_doorbell : ℕ
  pub cmd_flags : ℕ
  pub cmd_irq_count : ℕ
  pub rsp_doorbell : ℕ
  pub rsp_flags : ℕ
  pub rsp_irq_count : ℕ
  pub cmd_writes : ℕ
  pub rsp_writes : ℕ

pub record MeshNode : Type 0 where
  pub node_id : ℕ
  pub status : ℕ
  pub cpu_load : ℕ
  pub heartbeat : ℕ
  pub jobs_completed : ℕ

pub record MeshTable : Type 0 where
  pub magic : ℕ
  pub version : ℕ
  pub active_nodes : ℕ
  pub nodes : List MeshNode

-- ENV_STEP_PACK and its two inverses.
abbrev env_step_pack : ℕ → ℕ → ℕ
env_step_pack action ack_id = u32 (u32 ack_id * 2 ^ 16) + u32 action % 2 ^ 16

abbrev env_step_unpack_action : ℕ → ℕ
env_step_unpack_action payload = u16 (payload % 2 ^ 16)

abbrev env_step_unpack_ack : ℕ → ℕ
env_step_unpack_ack payload = u16 (payload / 2 ^ 16)

-- `base` is whether `ipc_shmem_base` and the pointers set with it are, `streams` the same of the
-- pointers to the stream rings, `in_mesh` of `mesh_table`; `local_node_id` is none at -1, and
-- `irq_line` the interrupt that `ipc_irq_handler` is registered for, unmasked.
pub record Ipc (F : Type 0) : Type 0 where
  pub base : Bool
  pub streams : Bool
  pub in_mesh : Bool
  pub cmd_ring : Ring IpcPacket
  pub rsp_ring : Ring IpcResponse
  pub doorbell : Doorbell
  pub heap : Heap
  pub obs_ring : Ring (ObsEntry F)
  pub act_ring : Ring ActionEntry
  pub mesh_table : MeshTable
  pub local_node_id : Option ℕ
  pub irq_count : ℕ
  pub irq_line : Option ℕ
  pub clock : Time
