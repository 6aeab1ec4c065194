-- ===== src/Registry/Invariant/Writes.antt =====
-- What finding, storing and saving a node keep of the invariant (pkg/cluster/registry.go).
use crybaby.Base.{
  ℕ, suc, ◌^◌, ◌<◌, ◌≡◌, refl, sym, ap, ◌∙◌, String, not, ◌&&◌, [], ◌∷◌, none, some, All, Absent,
  Distinct, All-map, arith, ◌==◌, text_eq, ◌⊎◌, inl, inr, Bool-cases, Option-cases, ◌≢◌,
  text_discrete,
}
use crybaby.Base.Assoc.{lookup, insert, keys}
use crybaby.Base.Assoc.All.{lookup-All, insert-All, insert-Distinct, Absent-lookup}
use crybaby.Base.Assoc.Fields
use crybaby.Base.Assoc.Fields.{
  field, DistinctNonempty, field-insert_same, insert_new-DistinctNonempty, erase-DistinctNonempty,
}
use crybaby.Registry.{
  Storage, Registry, Readings, Nodes, find_mac, admit, save, refreshed, new_node,
}
use crybaby.Registry.Invariant.{mac_of, mesh_of, IsBelow, IsValid}
use crybaby.Registry.Mesh.{scan_octet, mesh_ip, next_octet}
use crybaby.Registry.Octets.{scan_octet-mesh_ip, next_octet_small}
use crybaby.Types.Node.{Node, RegisterNodeRequest}

-- A node found by its address stands under its key and has the address, which is not empty.
pub find_mac-found :
    (mac : String) (m : Nodes) {k : String} {n : Node}
    → Distinct (keys m)
    → find_mac mac m ≡ some (k, n)
    → (lookup k m ≡ some n) × (mac_of n ≡ mac) × (mac ≢ "")
unfolding find_mac lookup
find_mac-found mac [] d e = absurd (ground arith)
find_mac-found mac ((j, x) ∷ m) {k} {n} d e =
    elim (Bool-cases (mac_of x == mac && not (mac == ""))) [
      | inl here ↦ (ground arith, ground arith, ground arith)
      | inr there ↦
          let (found, same, some_) = find_mac-found mac m {k = k} {n = n} d.1 (ground arith) in
          (ground (arith, Absent-lookup j m d.0, found), same, some_)
    ]

-- An address that no node has, unless it is the empty one.
pub find_mac-missing :
    (mac : String) (m : Nodes) → find_mac mac m ≡ none → (mac ≡ "") ⊎ Absent mac (field mac_of m)
unfolding find_mac
find_mac-missing mac [] e = inr tt
find_mac-missing mac ((j, x) ∷ m) e = elim (find_mac-missing mac m (ground arith)) [
  | inl empty ↦ inl empty
  | inr absent ↦ elim (text_discrete mac "") [
    | yes empty ↦ inl empty
    | no full ↦ inr ((λ same. ground arith), absent)
  ]
]

-- A new mesh address is none of those in use.
pub mesh_ip-Absent :
    (next : ℕ) (m : Nodes)
    → next < 2 ^ 63
    → All (IsBelow next) m
    → Absent (mesh_ip next) (field mesh_of m)
mesh_ip-Absent next [] h b = tt
mesh_ip-Absent next (e ∷ m) h b = (
  (λ same. omega (arith, b.0 next (ap scan_octet same ∙ scan_octet-mesh_ip next h))),
  mesh_ip-Absent next m h b.1,
)

pub save-nodes :
    (st : Storage) (r : Registry)
    → ((save st r).0.nodes ≡ r.nodes) × ((save st r).0.next_mesh_octet ≡ r.next_mesh_octet)
unfolding save
save-nodes st r = (ground arith, ground arith)

pub save-IsValid : (st : Storage) (r : Registry) → IsValid r → IsValid (save st r).0
save-IsValid st r v = record {
  keys_distinct = rw (save-nodes st r).0 v.keys_distinct;
  ids = rw (save-nodes st r).0 v.ids;
  macs_distinct = rw (save-nodes st r).0 v.macs_distinct;
  mesh_distinct = rw (save-nodes st r).0 v.mesh_distinct;
  below = rw ((save-nodes st r).0, (save-nodes st r).1) v.below;
}

-- A write of a node that keeps its identifier and both its addresses.
pub store_node-IsValid :
    (r : Registry) (k : String) (old new : Node)
    → lookup k r.nodes ≡ some old
    → new.id ≡ old.id
    → mac_of new ≡ mac_of old
    → mesh_of new ≡ mesh_of old
    → IsValid r
    → IsValid (record r { nodes = insert k new r.nodes })
store_node-IsValid r k old new found same_id same_mac same_mesh v = record {
  keys_distinct = insert-Distinct k new r.nodes v.keys_distinct;
  ids =
      insert-All (λ (e : String × Node). e.1.id ≡ e.0) k new r.nodes
        (same_id ∙ lookup-All (λ (e : String × Node). e.1.id ≡ e.0) k r.nodes v.ids found) v.ids;
  macs_distinct = rw (field-insert_same mac_of k old new r.nodes found same_mac) v.macs_distinct;
  mesh_distinct = rw (field-insert_same mesh_of k old new r.nodes found same_mesh) v.mesh_distinct;
  below =
      insert-All (IsBelow r.next_mesh_octet) k new r.nodes
        (λ octet e.
          lookup-All (IsBelow r.next_mesh_octet) k r.nodes v.below found octet
            (ap scan_octet (sym same_mesh) ∙ e))
        v.below;
}

IsBelow-suc : (next : ℕ) (m : Nodes) → All (IsBelow next) m → All (IsBelow (suc next)) m
IsBelow-suc next =
    All-map (IsBelow next) (IsBelow (suc next)) (λ e h octet s. omega (arith, h octet s))

-- A node with a new mesh address, and a hardware address that no other has.
pub add_node-IsValid :
    (r : Registry) (n : Node)
    → r.next_mesh_octet < 2 ^ 63
    → mesh_of n ≡ mesh_ip r.next_mesh_octet
    → (mac_of n ≡ "") ⊎ Absent (mac_of n) (field mac_of r.nodes)
    → IsValid r
    → IsValid
        (record r { nodes = insert n.id n r.nodes; next_mesh_octet = next_octet r.next_mesh_octet })
add_node-IsValid r n small mesh mac v = record {
  keys_distinct = insert-Distinct n.id n r.nodes v.keys_distinct;
  ids = insert-All (λ (e : String × Node). e.1.id ≡ e.0) n.id n r.nodes refl v.ids;
  macs_distinct = insert_new-DistinctNonempty mac_of n.id n r.nodes mac v.macs_distinct;
  mesh_distinct =
      Fields.insert_new-Distinct mesh_of n.id n r.nodes
        (rw mesh (mesh_ip-Absent r.next_mesh_octet r.nodes small v.below)) v.mesh_distinct;
  below = rw (next_octet_small r.next_mesh_octet small) (
      insert-All (IsBelow (suc r.next_mesh_octet)) n.id n r.nodes
        (λ octet e. ground (arith, scan_octet-mesh_ip r.next_mesh_octet small, ap scan_octet mesh))
        (IsBelow-suc r.next_mesh_octet r.nodes v.below));
}

pub admit-IsValid :
    (st : Storage) (t : Readings) (r : Registry) (req : RegisterNodeRequest) (ip : String)
    → r.next_mesh_octet < 2 ^ 63
    → IsValid r
    → IsValid (admit st t r req ip).0
unfolding admit
admit-IsValid st t r req ip small v =
    elim (Option-cases (find_mac (req.hardware.mac_address) r.nodes)) [
      | inl new ↦
          rw (new, admit)
            (add_node-IsValid r (new_node t req ip r.next_mesh_octet) small refl
              (find_mac-missing req.hardware.mac_address r.nodes new) v)
      | inr ((k, old), e) ↦
          let (found, mac, full) =
            find_mac-found req.hardware.mac_address r.nodes {k = k} {n = old} v.keys_distinct e in
          rw (e, admit)
            (store_node-IsValid r k old (refreshed t req ip old) found refl (sym mac) refl v)
    ]
