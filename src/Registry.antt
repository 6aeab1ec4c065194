-- ===== src/Registry.antt =====
-- pkg/cluster/registry.go: the nodes of the cluster, their persistence, and every operation of
-- `Registry`. Each holds the registry's lock throughout, so a history is a sequence of operations.
-- A clock's readings, the random identifier, the file system and encoding/json are arguments.
pub mod Mesh
pub mod Summary
pub mod Octets
pub mod Invariant
pub mod Registration
pub mod Persistence
pub mod Liveness
use crybaby.Base.{
  ℕ, suc, ◌+◌, ◌-◌, ◌^◌, ◌≤◌, ◌<◌, min, String, ℤ, pos, Bool, true, false, not, ◌&&◌, List, [], ◌∷◌,
  map, Option, none, some, ◌≡◌, ◌==◌, text_eq, ltb, if◌then◌else◌, length,
}
use crybaby.Base.Assoc.{lookup, insert, erase}
use crybaby.Base.Int.{int_eq}
use crybaby.Base.Result.{Result, ok, err}
use crybaby.Registry.Mesh.{mesh_ip, next_octet, raise_octet}
use crybaby.Types.Node.{
  Time, NodeStatus, online, offline, status_eq, NodeHardware, NodeMetrics, Node,
  RegisterNodeRequest,
}

abbrev pub Nodes : Type 0
Nodes = List (String × Node)

-- What the registry uses of encoding/json and os for its state file.
pub record Storage : Type 0 where
  -- `json.MarshalIndent(r.nodes, …)`, which may fail
  pub marshal : Nodes → Option String
  -- `json.Unmarshal(data, &r.nodes)`: the map afterwards, and whether there was no error
  pub unmarshal : String → Nodes → Nodes × Bool
  -- `os.WriteFile`: the file's content before and the new one, to the content afterwards and
  -- whether there was no error
  pub write : Option String → String → Option String × Bool

pub record Registry : Type 0 where
  pub nodes : Nodes
  pub cluster_token : String
  -- the 64 bits of the `int`
  pub next_mesh_octet : ℕ
  pub storage_path : String
  -- the content of the file at `storage_path`
  pub file : Option String

pub data Error : Type 0 where
  unauthorized not_found unreadable malformed unmarshallable unwritable : Error
  node_not_found : String → Error

unfoldable pub validate_cluster_token : Registry → String → Bool
validate_cluster_token r token = not (r.cluster_token == "") && r.cluster_token == token

-- What a registration reads of the world.
pub record Readings : Type 0 where
  pub random_id : String
  pub seen : Time
  pub registered : Time

-- the first node with the address, in the order of the map's `range`
unfoldable pub find_mac : String → Nodes → Option (String × Node)
find_mac mac [] = none
find_mac mac ((k, n) ∷ m) =
    if n.hardware.mac_address == mac && not (mac == "") then some (k, n) else find_mac mac m

abbrev pub port_or_default : ℤ → ℤ
port_or_default port = if port == pos 0 then pos 8081 else port

-- The node that registers again.
abbrev pub refreshed : Readings → RegisterNodeRequest → String → Node → Node
refreshed t req remote_ip existing = record existing {
  status = online;
  last_seen = t.seen;
  hardware = req.hardware;
  ip_address = remote_ip;
  agent_port = port_or_default req.hardware.agent_port;
  wireguard_pub_key = req.wireguard_pub_key;
  version = if req.version == "" then existing.version else req.version;
}

abbrev pub no_metrics : NodeMetrics
no_metrics = record {
  timestamp = 0;
  cpu_usage_pct = 0;
  ram_used_bytes = 0;
  ram_usage_pct = 0;
  disk_used_bytes = 0;
  disk_usage_pct = 0;
  net_bytes_sent = 0;
  net_bytes_recv = 0;
  active_vm_count = pos 0;
  uptime_seconds = 0;
}

abbrev pub new_node : Readings → RegisterNodeRequest → String → ℕ → Node
new_node t req remote_ip octet = record {
  id = t.random_id;
  name = req.node_name;
  ip_address = remote_ip;
  agent_port = port_or_default req.hardware.agent_port;
  mesh_ip = mesh_ip octet;
  status = online;
  version = req.version;
  hardware = req.hardware;
  latest_metrics = no_metrics;
  last_seen = t.seen;
  registered_at = t.registered;
  wireguard_pub_key = req.wireguard_pub_key;
}

-- `now.Sub(then)`, which is at most 2^63 - 1 nanoseconds; a later `then` gives no positive number.
abbrev pub elapsed : Time → Time → ℕ
elapsed now then_ = min (now - then_) (2 ^ 63 - 1)

abbrev pub is_stale : Time → ℕ → Node → Bool
is_stale now timeout n = n.status == online && ltb timeout (elapsed now n.last_seen)

abbrev pub reaped : Time → ℕ → Node → Node
reaped now timeout n = if is_stale now timeout n then record n { status = offline } else n

-- the loop of `ReapOfflineNodes`
unfoldable pub reap_nodes : Time → ℕ → Nodes → Nodes
reap_nodes now timeout [] = []
reap_nodes now timeout ((k, n) ∷ m) = (k, reaped now timeout n) ∷ reap_nodes now timeout m

unfoldable pub reap_offline_nodes : Time → ℕ → Registry → Registry
unfolding reap_nodes
reap_offline_nodes now timeout r = record r { nodes = reap_nodes now timeout r.nodes }

-- The version that a heartbeat's optional argument gives.
abbrev pub version_given : List String → String → String
version_given [] old = old
version_given (v ∷ _) old = if v == "" then old else v

abbrev pub beaten : Time → NodeMetrics → List String → Node → Node
beaten now metrics version n = record n {
  status = online;
  last_seen = now;
  latest_metrics = metrics;
  version = version_given version n.version;
}

unfoldable pub update_heartbeat :
    Time → Registry → String → NodeMetrics → List String → Registry × Result Error (Unit {0})
update_heartbeat now r id metrics version = elim (lookup id r.nodes) [
  | none ↦ (r, err (node_not_found id))
  | some n ↦ (record r { nodes = insert id (beaten now metrics version n) r.nodes }, ok tt)
]

unfoldable pub get_node : Registry → String → Option Node
get_node r id = lookup id r.nodes

unfoldable pub list_nodes : Registry → List Node
list_nodes r = map (λ e. e.1) r.nodes

-- The outcome of writing the state file, and of reading it.
abbrev written : Registry → Option String × Bool → Registry × Result Error (Unit {0})
written r (file, true) = (record r { file = file }, ok tt)
written r (file, false) = (record r { file = file }, err unwritable)

abbrev loaded : Registry → Nodes × Bool → Registry × Result Error (Unit {0})
loaded r (nodes, true) =
    (record r { nodes = nodes; next_mesh_octet = raise_octet r.next_mesh_octet nodes }, ok tt)
loaded r (nodes, false) = (record r { nodes = nodes }, err malformed)

module _ (st : Storage) where
  unfoldable pub save : Registry → Registry × Result Error (Unit {0})
  save r = if r.storage_path == "" then (r, ok tt) else elim (st.marshal r.nodes) [
    | none ↦ (r, err unmarshallable)
    | some text ↦ written r (st.write r.file text)
  ]

  -- The registration, before the state is saved.
  unfoldable pub admit : Readings → Registry → RegisterNodeRequest → String → Registry × Node
  unfolding find_mac
  admit t r req remote_ip = elim (find_mac req.hardware.mac_address r.nodes) [
    | some (k, existing) ↦
        let n = refreshed t req remote_ip existing in (record r { nodes = insert k n r.nodes }, n)
    | none ↦
        let n = new_node t req remote_ip r.next_mesh_octet in
        (
          record r {
            nodes = insert t.random_id n r.nodes;
            next_mesh_octet = next_octet r.next_mesh_octet;
          },
          n,
        )
  ]

  -- The state is saved whatever becomes of it.
  unfoldable pub register_node :
      Readings → Registry → RegisterNodeRequest → String → Registry × Result Error Node
  register_node t r req remote_ip =
      if validate_cluster_token r req.cluster_token
      then (let (r', n) = admit t r req remote_ip in ((save r').0, ok n))
      else (r, err unauthorized)

  unfoldable pub remove_node : Registry → String → Registry × Result Error (Unit {0})
  unfolding save
  remove_node r id = elim (lookup id r.nodes) [
    | none ↦ (r, err not_found)
    | some _ ↦ save (record r { nodes = erase id r.nodes })
  ]

  unfoldable pub reset_cluster : Registry → Registry × Result Error (Unit {0})
  unfolding save
  reset_cluster r = save (record r { nodes = []; next_mesh_octet = 2 })

  unfoldable pub load_from_file : Registry → Registry × Result Error (Unit {0})
  load_from_file r = if r.storage_path == "" then (r, ok tt) else elim r.file [
    | none ↦ (r, err unreadable)
    | some text ↦ loaded r (st.unmarshal text r.nodes)
  ]

  -- `file` is the content of the file at the path, if it can be read.
  unfoldable pub new_registry : String → String → Option String → Registry
  unfolding load_from_file
  new_registry cluster_token storage_path file =
      (load_from_file (record {
        nodes = [];
        cluster_token = cluster_token;
        next_mesh_octet = 2;
        storage_path = storage_path;
        file = file;
      })).0
