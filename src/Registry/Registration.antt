-- ===== src/Registry/Registration.antt =====
-- What a registration, a removal and a restart do (pkg/cluster/registry.go).
use crybaby.Base.{
  ◌∙◌, ap, ◌+◌, List, [], ◌∷◌, suc, ◌^◌, ◌<◌, ◌≡◌, refl, String, pos, true, none, some, Absent,
  arith, text_eq, ◌⊎◌, length, ◌≢◌,
}
use crybaby.Base.Assoc.{
  lookup, insert, lookup-insert_self, lookup-insert_ne, length-insert_old, length-insert_new,
}
use crybaby.Base.Assoc.Fields.{field}
use crybaby.Base.Result.{ok, err}
use crybaby.Registry.{
  Storage, Registry, Readings, register_node, find_mac, admit, refreshed, new_node,
  validate_cluster_token, unauthorized,
}
use crybaby.Registry.Invariant.{mesh_of, IsValid}
use crybaby.Registry.Invariant.Writes.{find_mac-found, mesh_ip-Absent, save-nodes}
use crybaby.Registry.Mesh.{scan_octet, next_octet}
use crybaby.Registry.Octets.{scan_octet-mesh_ip, next_octet_small}
use crybaby.Types.Node.{Node, online, RegisterNodeRequest}

-- Without the cluster's token nothing is registered or written; an empty token lets nobody in.
pub register_node_unauthorized :
    (st : Storage) (t : Readings) (r : Registry) (req : RegisterNodeRequest) (ip : String)
    → (req.cluster_token ≢ r.cluster_token) ⊎ (r.cluster_token ≡ "")
    → register_node st t r req ip ≡ (r, err unauthorized)
unfolding register_node validate_cluster_token
register_node_unauthorized st t r req ip h = ground arith

-- In a valid registry, a machine that registers again with the right token, known by its hardware
-- address, keeps its identifier, its mesh address and its name, and is online; no node is added,
-- no other node is touched and no octet is used up.
pub register_node_again :
    (st : Storage) (t : Readings) (r : Registry) (req : RegisterNodeRequest) (ip k : String)
    (old : Node)
    → IsValid r
    → validate_cluster_token r req.cluster_token ≡ true
    → find_mac req.hardware.mac_address r.nodes ≡ some (k, old)
    → let r' = (register_node st t r req ip).0 in
      (n : Node) × ((register_node st t r req ip).1 ≡ ok n)
      × (lookup k r'.nodes ≡ some n)
      × (n.id ≡ old.id)
      × (n.mesh_ip ≡ old.mesh_ip)
      × (n.name ≡ old.name)
      × (n.status ≡ online)
      × (n.last_seen ≡ t.seen)
      × ((j : String) → j ≢ k → lookup j r'.nodes ≡ lookup j r.nodes)
      × (length r'.nodes ≡ length r.nodes)
      × (r'.next_mesh_octet ≡ r.next_mesh_octet)
unfolding register_node admit
register_node_again st t r req ip k old v trusted e =
    let n = refreshed t req ip old in
    let found =
      (find_mac-found req.hardware.mac_address r.nodes {k = k} {n = old} v.keys_distinct e).0 in
    let saved = save-nodes st (record r { nodes = insert k n r.nodes }) in
    (
      n,
      ground arith,
      ground (arith, saved.0, lookup-insert_self k n r.nodes),
      refl,
      refl,
      refl,
      refl,
      refl,
      (λ j ne. ground (arith, saved.0, lookup-insert_ne k j n r.nodes ne)),
      ground (arith, saved.0, length-insert_old k n r.nodes),
      ground (arith, saved.1),
    )

-- In a valid registry whose next octet is below 2^63, a machine that comes with the right token, a
-- hardware address that no node has, and an unused random identifier, is added under that
-- identifier with a mesh address that no node has; one octet is used up.
pub register_node_new :
    (st : Storage) (t : Readings) (r : Registry) (req : RegisterNodeRequest) (ip : String)
    → IsValid r
    → r.next_mesh_octet < 2 ^ 63
    → validate_cluster_token r req.cluster_token ≡ true
    → find_mac req.hardware.mac_address r.nodes ≡ none
    → lookup t.random_id r.nodes ≡ none
    → let r' = (register_node st t r req ip).0 in
      (n : Node) × ((register_node st t r req ip).1 ≡ ok n)
      × (lookup n.id r'.nodes ≡ some n)
      × Absent n.mesh_ip (field mesh_of r.nodes)
      × (length r'.nodes ≡ suc (length r.nodes))
      × (r'.next_mesh_octet ≡ suc r.next_mesh_octet)
unfolding register_node admit
register_node_new st t r req ip v small trusted new free =
    let n = new_node t req ip r.next_mesh_octet in
    let saved = save-nodes st (record r {
      nodes = insert t.random_id n r.nodes;
      next_mesh_octet = next_octet r.next_mesh_octet;
    }) in
    (
      n,
      ground arith,
      ground (arith, saved.0, lookup-insert_self t.random_id n r.nodes),
      mesh_ip-Absent r.next_mesh_octet r.nodes small v.below,
      ground (arith, saved.0, length-insert_new t.random_id n r.nodes),
      ground (arith, saved.1, next_octet_small r.next_mesh_octet small),
    )

-- A machine that registers: what is read of the world, its request and its address.
abbrev pub Arrival : Type 0
Arrival = Readings × RegisterNodeRequest × String

module _ (st : Storage) where
  unfoldable pub register_all : Registry → List Arrival → Registry
  register_all r [] = r
  register_all r ((t, req, ip) ∷ ms) = register_all (register_node st t r req ip).0 ms

  -- It has the token and a hardware address that no node has.
  abbrev pub IsNew : Registry → Arrival → Type 0
  IsNew r (t, req, ip) =
      (validate_cluster_token r req.cluster_token ≡ true)
      × (find_mac req.hardware.mac_address r.nodes ≡ none)

  -- Each of them is new when it comes.
  abbrev pub AllNew : Registry → List Arrival → Type 0
  AllNew r [] = Unit
  AllNew r ((t, req, ip) ∷ ms) = IsNew r (t, req, ip) × AllNew (register_node st t r req ip).0 ms

  register_new-octet :
      (r : Registry) (t : Readings) (req : RegisterNodeRequest) (ip : String)
      → r.next_mesh_octet < 2 ^ 63
      → IsNew r (t, req, ip)
      → (register_node st t r req ip).0.next_mesh_octet ≡ suc r.next_mesh_octet
  unfolding register_node admit
  register_new-octet r t req ip small new =
      let n = new_node t req ip r.next_mesh_octet in
      let saved = save-nodes st (record r {
        nodes = insert t.random_id n r.nodes;
        next_mesh_octet = next_octet r.next_mesh_octet;
      }) in
      ground (arith, saved.1, new.0, new.1, next_octet_small r.next_mesh_octet small)

  register_all-octet :
      (r : Registry) (ms : List Arrival)
      → r.next_mesh_octet + length ms < 2 ^ 63
      → AllNew r ms
      → (register_all r ms).next_mesh_octet ≡ r.next_mesh_octet + length ms
  unfolding register_all
  register_all-octet r [] small new = omega arith
  register_all-octet r ((t, req, ip) ∷ ms) small new =
      let one = register_new-octet r t req ip (omega (arith, small)) new.0 in
      let r' = (register_node st t r req ip).0 in
      let rest = register_all-octet r' ms (omega (arith, small, one)) new.1 in
      omega (arith, one, rest)

  -- After machines that each have the right token and a hardware address that is new when they come,
  -- one more such machine is registered, and the
  -- number that is scanned from its mesh address is the first octet raised by the count of those
  -- machines, and the octet after that is the next. This is for octets below 2^63, so also for those
  -- above 255.
  pub register_node_exhausted :
      (r : Registry) (ms : List Arrival) (t : Readings) (req : RegisterNodeRequest) (ip : String)
      → AllNew r ms
      → IsNew (register_all r ms) (t, req, ip)
      → r.next_mesh_octet + length ms < 2 ^ 63
      → let q = register_node st t (register_all r ms) req ip in
        (n : Node) × (q.1 ≡ ok n)
        × (scan_octet n.mesh_ip ≡ some (pos (r.next_mesh_octet + length ms)))
        × (q.0.next_mesh_octet ≡ suc (r.next_mesh_octet + length ms))
  unfolding register_node admit
  register_node_exhausted r ms t req ip before new small =
      let q = register_all r ms in
      let octet = register_all-octet r ms small before in
      let fits : q.next_mesh_octet < 2 ^ 63 = omega (arith, small, octet) in
      (
        new_node t req ip q.next_mesh_octet,
        ground (arith, new.0, new.1),
        scan_octet-mesh_ip q.next_mesh_octet fits ∙ ap (λ o. some (pos o)) octet,
        register_new-octet q t req ip fits new ∙ ap (λ o. suc o) octet,
      )
