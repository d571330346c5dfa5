-- ===== src/Ipc/Mesh.antt =====
-- kernel/ipc/ipc.c: the table of the kernels that share the memory, named without ipc_.
use zenedge.Common.{
  ℕ, zero, suc, ◌+◌, true, false, List, [], ◌∷◌, Option, none, some, ◌==◌, if◌then◌else◌, u32, u64,
  map,
}
use zenedge.Ipc.State.{Ipc, MeshNode, MeshTable, mesh_magic, node_status_offline, node_status_alive}

abbrev go_offline : MeshNode → MeshNode
go_offline n = record n { status = node_status_offline }

-- The table when its magic number is missing.
abbrev pub new_table : MeshTable → MeshTable
new_table t = record t {
  magic = mesh_magic;
  version = 1;
  active_nodes = 0;
  nodes = map go_offline t.nodes;
}

-- The loop that claims the first node that is offline, from node `i` on.
unfoldable pub claim : ℕ → List MeshNode → Option (ℕ × List MeshNode)
claim i [] = none
claim i (n ∷ ns) =
    let mine = record n { status = node_status_alive; node_id = i; cpu_load = 0; heartbeat = 0 } in
    elim (n.status == node_status_offline) [
      | true ↦ some (i, mine ∷ ns)
      | false ↦ elim (claim (i + 1) ns) [ none ↦ none | some (j, rest) ↦ some (j, n ∷ rest) ]
    ]

abbrev pub beat : MeshNode → MeshNode
beat n = record n { heartbeat = u64 (n.heartbeat + 1) }

-- `nodes[i].heartbeat++`
unfoldable pub beat_at : ℕ → List MeshNode → List MeshNode
beat_at i [] = []
beat_at zero (n ∷ ns) = beat n ∷ ns
beat_at (suc i) (n ∷ ns) = n ∷ beat_at i ns

module _ {F : Type 0} where
  -- The table `t` with the claim that was made.
  abbrev pub join : Ipc F → MeshTable → Option (ℕ × List MeshNode) → Ipc F
  join s t none = record s { in_mesh = true; mesh_table = t }
  join s t (some (i, ns)) = record s {
    in_mesh = true;
    local_node_id = some i;
    mesh_table = record t { nodes = ns; active_nodes = u32 (t.active_nodes + 1) };
  }

  abbrev pub found_table : Ipc F → MeshTable
  found_table s = if s.mesh_table.magic == mesh_magic then s.mesh_table else new_table s.mesh_table

  unfoldable pub mesh_init : Ipc F → Ipc F
  mesh_init s = let t = found_table s in if s.base then join s t (claim 0 t.nodes) else s

  abbrev pub beat_local : Ipc F → Option ℕ → Ipc F
  beat_local s none = s
  beat_local s (some i) =
      if s.in_mesh
      then record s { mesh_table = record s.mesh_table { nodes = beat_at i s.mesh_table.nodes } }
      else s

  unfoldable pub mesh_update : Ipc F → Ipc F
  mesh_update s = beat_local s s.local_node_id
