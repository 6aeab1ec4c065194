-- ===== src/Registry/Invariant/Keeps.antt =====
-- Every operation of the registry keeps its invariant (pkg/cluster/registry.go).
use crybaby.Base.{
  ℕ, ◌+◌, ◌*◌, ◌^◌, ◌≤◌, ◌<◌, ◌≡◌, refl, ap, ◌∙◌, String, List, [], ◌∷◌, All, arith, text_eq, inl,
  inr, Bool-cases, Option-cases, length,
}
use crybaby.Base.Assoc.{lookup, erase, keys}
use crybaby.Base.Assoc.All.{erase-All, erase-Distinct}
use crybaby.Base.Assoc.Fields
use crybaby.Base.Assoc.Fields.{
  field, DistinctNonempty, field-insert_same, insert_new-DistinctNonempty, erase-DistinctNonempty,
}
use crybaby.Registry.{
  Storage, Registry, Readings, register_node, update_heartbeat, remove_node, reset_cluster,
  reap_offline_nodes, reap_nodes, Nodes, admit, reaped, beaten, validate_cluster_token,
}
use crybaby.Registry.Invariant.{
  mac_of, mesh_of, IsBelow, IsValid, Call, register, heartbeat, remove, reset, reap, step, run,
}
use crybaby.Registry.Mesh.{scan_octet}
use crybaby.Types.Node.{Time, NodeMetrics, Node, RegisterNodeRequest}
use crybaby.Registry.Mesh.{next_octet}
use crybaby.Registry.Octets.{next_octet-le}
use crybaby.Registry.Invariant.Writes.{save-nodes, save-IsValid, store_node-IsValid, admit-IsValid}

register_node-IsValid :
    (st : Storage) (t : Readings) (r : Registry) (req : RegisterNodeRequest) (ip : String)
    → r.next_mesh_octet < 2 ^ 63
    → IsValid r
    → IsValid (register_node st t r req ip).0
unfolding register_node
register_node-IsValid st t r req ip small v =
    elim (Bool-cases (validate_cluster_token r req.cluster_token)) [
      | inl trusted ↦ rw trusted (save-IsValid st _ (admit-IsValid st t r req ip small v))
      | inr not_trusted ↦ rw not_trusted v
    ]

heartbeat-IsValid :
    (now : Time) (r : Registry) (id : String) (metrics : NodeMetrics) (version : List String)
    → IsValid r
    → IsValid (update_heartbeat now r id metrics version).0
unfolding update_heartbeat
heartbeat-IsValid now r id metrics version v = elim (Option-cases (lookup id r.nodes)) [
  | inl missing ↦ rw (missing, update_heartbeat) v
  | inr (n, found) ↦
      rw (found, update_heartbeat)
        (store_node-IsValid r id n (beaten now metrics version n) found refl refl refl v)
]

remove_node-IsValid :
    (st : Storage) (r : Registry) (id : String) → IsValid r → IsValid (remove_node st r id).0
unfolding remove_node
remove_node-IsValid st r id v = elim (Option-cases (lookup id r.nodes)) [
  | inl missing ↦ rw (missing, remove_node) v
  | inr (n, found) ↦
      rw (found, remove_node)
        (save-IsValid st (record r { nodes = erase id r.nodes })
          (record {
            keys_distinct = erase-Distinct id r.nodes v.keys_distinct;
            ids = erase-All (λ (e : String × Node). e.1.id ≡ e.0) id r.nodes v.ids;
            macs_distinct = erase-DistinctNonempty mac_of id r.nodes v.macs_distinct;
            mesh_distinct = Fields.erase-Distinct mesh_of id r.nodes v.mesh_distinct;
            below = erase-All (IsBelow r.next_mesh_octet) id r.nodes v.below;
          }))
]

reset_cluster-IsValid : (st : Storage) (r : Registry) → IsValid (reset_cluster st r).0
unfolding reset_cluster
reset_cluster-IsValid st r =
    save-IsValid st (record r { nodes = []; next_mesh_octet = 2 })
      (record { keys_distinct = tt; ids = tt; macs_distinct = tt; mesh_distinct = tt; below = tt })

module _ (now : Time) (timeout : ℕ) where
  reap-keys : (m : Nodes) → keys (reap_nodes now timeout m) ≡ keys m
  unfolding reap_nodes
  reap-keys [] = refl
  reap-keys (e ∷ m) = ap (◌∷◌ e.0) (reap-keys m)

  reap-field :
      (f : Node → String) (same : (n : Node) → f (reaped now timeout n) ≡ f n) (m : Nodes)
      → field f (reap_nodes now timeout m) ≡ field f m
  unfolding reap_nodes
  reap-field f same [] = refl
  reap-field f same (e ∷ m) = rw (same e.1, reap-field f same m)

  reap-All :
      (P : String × Node → Type 0)
      (keep : (k : String) (n : Node) → P (k, n) → P (k, reaped now timeout n)) (m : Nodes)
      → All P m
      → All P (reap_nodes now timeout m)
  unfolding reap_nodes
  reap-All P keep [] h = tt
  reap-All P keep (e ∷ m) h = (keep e.0 e.1 h.0, reap-All P keep m h.1)

  reap-IsValid : (r : Registry) → IsValid r → IsValid (reap_offline_nodes now timeout r)
  unfolding reap_offline_nodes
  reap-IsValid r v = record {
    keys_distinct = rw (reap-keys r.nodes) v.keys_distinct;
    ids = reap-All (λ e. e.1.id ≡ e.0) (λ k n h. ground arith) r.nodes v.ids;
    macs_distinct = rw (reap-field mac_of (λ n. ground arith) r.nodes) v.macs_distinct;
    mesh_distinct = rw (reap-field mesh_of (λ n. ground arith) r.nodes) v.mesh_distinct;
    below =
        reap-All (IsBelow r.next_mesh_octet)
          (λ k n h octet e. h octet (ap scan_octet (mesh_kept n) ∙ e)) r.nodes v.below;
  }
    where
      mesh_kept : (n : Node) → n.mesh_ip ≡ (reaped now timeout n).mesh_ip
      mesh_kept n = ground arith

-- Every operation keeps the invariant while the octet fits 63 bits.
pub step-IsValid :
    (st : Storage) (r : Registry) (c : Call)
    → r.next_mesh_octet < 2 ^ 63
    → IsValid r
    → IsValid (step st r c)
unfolding step
step-IsValid st r (register t req ip) small v = register_node-IsValid st t r req ip small v
step-IsValid st r (heartbeat now id metrics version) small v =
    heartbeat-IsValid now r id metrics version v
step-IsValid st r (remove id) small v = remove_node-IsValid st r id v
step-IsValid st r reset small v = reset_cluster-IsValid st r
step-IsValid st r (reap now timeout) small v = reap-IsValid now timeout r v

admit-octet :
    (st : Storage) (t : Readings) (r : Registry) (req : RegisterNodeRequest) (ip : String)
    → (admit st t r req ip).0.next_mesh_octet ≤ r.next_mesh_octet + 2
unfolding admit
admit-octet st t r req ip =
    let wraps : next_octet r.next_mesh_octet ≤ r.next_mesh_octet + 2 =
      next_octet-le r.next_mesh_octet in
    ground (arith, wraps)

pub step-octet :
    (st : Storage) (r : Registry) (c : Call) → (step st r c).next_mesh_octet ≤ r.next_mesh_octet + 2
unfolding step register_node update_heartbeat remove_node reset_cluster reap_offline_nodes
step-octet st r (register t req ip) =
    ground (arith, (save-nodes st (admit st t r req ip).0).1, admit-octet st t r req ip)
step-octet st r (heartbeat now id metrics version) = ground arith
step-octet st r (remove id) =
    ground (arith, (save-nodes st (record r { nodes = erase id r.nodes })).1)
step-octet st r reset =
    ground (arith, (save-nodes st (record r { nodes = []; next_mesh_octet = 2 })).1)
step-octet st r (reap now timeout) = omega arith

-- From a valid registry, every history of operations leads to a valid one: no two nodes share an
-- identifier, a mesh address, or a hardware address that is not empty, and the octet to be handed
-- out is above those of all nodes. The bound leaves room for the octets that the history can use
-- up.
pub registry_run-IsValid :
    (st : Storage) (r : Registry) (cs : List Call)
    → r.next_mesh_octet + 2 * length cs < 2 ^ 63
    → IsValid r
    → IsValid (run st r cs)
unfolding run
registry_run-IsValid st r [] small v = v
registry_run-IsValid st r (c ∷ cs) small v =
    registry_run-IsValid st (step st r c) cs (omega (arith, step-octet st r c))
      (step-IsValid st r c (omega arith) v)
