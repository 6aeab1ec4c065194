-- ===== src/Registry/Invariant.antt =====
-- What holds of the registry between two operations, and the operations as one step function
-- (pkg/cluster/registry.go).
pub mod Writes
pub mod Keeps
use crybaby.Base.{
  ℕ, suc, ◌+◌, ◌^◌, ◌≤◌, ◌<◌, ◌≡◌, refl, String, ℤ, pos, List, [], ◌∷◌, map, Option, none, some,
  All, Distinct, arith,
}
use crybaby.Base.Assoc.{keys}
use crybaby.Base.Assoc.Fields.{field, DistinctNonempty}
use crybaby.Registry.{
  Storage, Registry, Readings, register_node, update_heartbeat, remove_node, reset_cluster,
  reap_offline_nodes, Nodes,
}
use crybaby.Registry.Mesh.{scan_octet}
use crybaby.Types.Node.{Time, NodeMetrics, Node, RegisterNodeRequest}

abbrev pub mac_of : Node → String
mac_of n = n.hardware.mac_address

abbrev pub mesh_of : Node → String
mesh_of n = n.mesh_ip

-- The octet of the node's mesh address, if it has one, has been passed.
abbrev pub IsBelow : ℕ → String × Node → Type 0
IsBelow next e = (octet : ℕ) → scan_octet e.1.mesh_ip ≡ some (pos octet) → octet < next

pub record IsValid (r : Registry) : Type 0 where
  pub keys_distinct : Distinct (keys r.nodes)
  pub ids : All (λ (e : String × Node). e.1.id ≡ e.0) r.nodes
  pub macs_distinct : DistinctNonempty (field mac_of r.nodes)
  pub mesh_distinct : Distinct (field mesh_of r.nodes)
  pub below : All (IsBelow r.next_mesh_octet) r.nodes

pub data Call : Type 0 where
  register : Readings → RegisterNodeRequest → String → Call
  heartbeat : Time → String → NodeMetrics → List String → Call
  remove : String → Call
  reset : Call
  reap : Time → ℕ → Call

module _ (st : Storage) where
  unfoldable pub step : Registry → Call → Registry
  step r (register t req ip) = (register_node st t r req ip).0
  step r (heartbeat now id metrics version) = (update_heartbeat now r id metrics version).0
  step r (remove id) = (remove_node st r id).0
  step r reset = (reset_cluster st r).0
  step r (reap now timeout) = reap_offline_nodes now timeout r

  unfoldable pub run : Registry → List Call → Registry
  unfolding step
  run r [] = r
  run r (c ∷ cs) = run (step r c) cs
