-- ===== src/Tests/Samples.antt =====
-- Engines, requests, nodes and worlds to try the theorems on.
use crybaby.Auth.{Crypto, Authenticator}
use crybaby.Base.Int.{int_discrete}
use crybaby.Base.{
  Eq, ◌==◌, text_eq, if◌then◌else◌, text_discrete, ℕ_discrete, ℕ, String, pos, true, [], ◌∷◌, none,
  some,
}
use crybaby.Base.Result.{ok}
use crybaby.Base.Unicode.{Unicode}
use crybaby.Controller.{Incoming, World}
use crybaby.Http.{Method, Decoders}
use crybaby.Hyperv.Engine.{Clock}
use crybaby.Hyperv.Simulated.{SimulatedEngine, demo_vm, demo_id}
use crybaby.Registry.{Registry, Readings, Storage, no_metrics, Nodes}
use crybaby.Registry.Summary.{Floats}
use crybaby.Types.Node.{
  status_discrete, NodeMetrics, online, NodeStatus, NodeHardware, Node, RegisterNodeRequest,
}
use crybaby.Types.Vm.{CreateVmRequest}
use crybaby.Wol.{Lan}

-- Texts compared as they are.
abbrev pub plain : Unicode
plain = record { fold = λ s. s; lower = λ s. s }

abbrev pub clock : Clock
clock = record { stamp = 5; now = 7; formatted = "20240101-000000" }

abbrev pub sample_engine : SimulatedEngine
sample_engine = record {
  node_id = "node-1";
  vms = (demo_id, demo_vm "node-1" 0) ∷ [];
  checkpoints = [];
  switches = "Default Switch" ∷ [];
}

abbrev pub new_vm : CreateVmRequest
new_vm = record {
  name = "web";
  cpu_count = pos 1;
  memory_mb = 1024;
  disk_size_gb = 10;
  switch_name = "";
  iso_path = "";
}

abbrev pub hardware : NodeHardware
hardware = record {
  hostname = "pc";
  os = "Windows 11";
  kernel_version = "10.0";
  cpu_model = "x";
  cpu_cores = pos 8;
  cpu_threads = pos 16;
  total_ram_bytes = 1000;
  total_disk_bytes = 2000;
  mac_address = "aa";
  hyperv_enabled = true;
  agent_port = pos 0;
}

abbrev pub joining : RegisterNodeRequest
joining = record {
  cluster_token = "token";
  node_name = "pc-1";
  version = "0.6.0";
  hardware = hardware;
  wireguard_pub_key = "key";
}

abbrev pub node_of : NodeStatus → Node
node_of status = record {
  id = "n1";
  name = "pc-1";
  ip_address = "192.168.1.2";
  agent_port = pos 8081;
  mesh_ip = "10.42.0.2";
  status = status;
  version = "0.6.0";
  hardware = hardware;
  latest_metrics = no_metrics;
  last_seen = 10;
  registered_at = 10;
  wireguard_pub_key = "key";
}

abbrev pub registry_of : Nodes → ℕ → Registry
registry_of nodes next = record {
  nodes = nodes;
  cluster_token = "token";
  next_mesh_octet = next;
  storage_path = "state.json";
  file = none;
}

abbrev pub empty_registry : Registry
empty_registry = registry_of [] 2

abbrev pub one_node : NodeStatus → Registry
one_node status = registry_of (("n1", node_of status) ∷ []) 3

unfoldable pub hardware_discrete : Discrete NodeHardware
hardware_discrete = hlevel (text_discrete, ℕ_discrete, int_discrete)

unfoldable pub metrics_discrete : Discrete NodeMetrics
metrics_discrete = hlevel (ℕ_discrete, int_discrete)

unfoldable pub node_discrete : Discrete Node
node_discrete =
    hlevel (
      text_discrete, ℕ_discrete, int_discrete, status_discrete, hardware_discrete, metrics_discrete,
    )

unfoldable pub nodes_discrete : Discrete Nodes
nodes_discrete = hlevel (text_discrete, node_discrete)

instance abbrev pub nodes_eq : Eq Nodes
nodes_eq = record { dec = nodes_discrete }

-- A storage for no node and for the sample node.
abbrev pub storage : Storage
storage = record {
  marshal =
      λ m. if m == (one_node online).nodes then some "one" else if m == [] then some "{}" else none;
  unmarshal = λ text m. if text == "one" then ((one_node online).nodes, true) else (m, true);
  write = λ _ text. (some text, true);
}

abbrev pub readings : Readings
readings = record { random_id = "n2"; seen = 20; registered = 20 }

abbrev pub decoders : Decoders
decoders = record {
  create_vm = λ _. (new_vm, true);
  checkpoint = λ _. (record { name = "base" }, true);
  resize = λ _. (record { cpu_count = pos 2; memory_mb = 2048 }, true);
  expand = λ _. (record { new_size_gb = 80 }, true);
  clone = λ _. (record { new_name = "copy" }, true);
  agent_update = λ _. (record { download_url = "http://c/x"; target_version = "1" }, true);
  register_node = λ _. (joining, true);
  heartbeat = λ _. (record { node_id = "n1"; version = "0.6.0"; metrics = no_metrics }, true);
  login = λ _. (record { password = "secret" }, true);
}

-- Signatures and encodings that leave a text without dots as it is.
abbrev pub crypto : Crypto
crypto = record {
  hmac = λ key _. key;
  sha256_hex = λ s. s;
  encode = λ s. s;
  decode = λ s. some s;
  marshal = λ _. some "claims";
  unmarshal = λ _. (record { subject = "admin"; issued_at = pos 0; expires_at = pos 0 }, true);
}

abbrev pub authenticator : Authenticator
authenticator = record { secret_key = "k"; password_hash = "s:secret"; salt = "s" }

abbrev pub lan : Lan
lan = record {
  parse_mac = λ _. ok (1 ∷ 2 ∷ 3 ∷ 4 ∷ 5 ∷ 6 ∷ []);
  resolve = none;
  dial = none;
  write = λ _. none;
}

abbrev pub floats : Floats
floats = record { add = λ a _. a; div = λ a _. a; of_int = λ _. 0 }

abbrev pub world : World
world = record {
  decoders = decoders;
  storage = storage;
  readings = readings;
  now = 30;
  lan = lan;
  floats = floats;
  crypto = crypto;
  auth = authenticator;
  expiry_read = 0;
  issue_read = 0;
  public_key = "pub";
  has_binary = true;
  outbound_ip = "192.168.1.1";
  port = "8080";
  post = λ _ _. ok (200, "{}");
  decode_update = λ _. (record { status = "updating"; message = "" }, true);
  library_text = λ _. "write failed";
  new_request = λ _ _. none;
  send = λ _ _ _. ok (200, "[]");
}

abbrev pub asking : Method → String → Incoming
asking method path = record {
  request = record { method = method; path = path; body = "" };
  raw_query = "";
  remote_addr = "192.168.1.2:5000";
}
