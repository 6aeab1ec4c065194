-- ===== src/Types/Node.antt =====
-- pkg/types/node.go: nodes, their hardware and metrics, and the requests of the agents.
-- A time is a count of nanoseconds; a float64 is the number of its bit pattern.
use crybaby.Base.{ℕ, String, ℤ, Bool, text_discrete, Eq}

abbrev pub Time : Type 0
Time = ℕ

abbrev pub Float64 : Type 0
Float64 = ℕ

-- The Go type is a string with four named values: `other` is any other text, as a state file or a
-- zero value may hold.
pub data NodeStatus : Type 0 where
  online offline pending warning : NodeStatus
  other : String → NodeStatus

unfoldable pub status_discrete : Discrete NodeStatus
status_discrete = hlevel text_discrete

instance abbrev pub status_eq : Eq NodeStatus
status_eq = record { dec = status_discrete }

pub record NodeHardware : Type 0 where
  pub hostname : String
  pub os : String
  pub kernel_version : String
  pub cpu_model : String
  pub cpu_cores : ℤ
  pub cpu_threads : ℤ
  pub total_ram_bytes : ℕ
  pub total_disk_bytes : ℕ
  pub mac_address : String
  pub hyperv_enabled : Bool
  pub agent_port : ℤ

pub record NodeMetrics : Type 0 where
  pub timestamp : Time
  pub cpu_usage_pct : Float64
  pub ram_used_bytes : ℕ
  pub ram_usage_pct : Float64
  pub disk_used_bytes : ℕ
  pub disk_usage_pct : Float64
  pub net_bytes_sent : ℕ
  pub net_bytes_recv : ℕ
  pub active_vm_count : ℤ
  pub uptime_seconds : ℕ

pub record Node : Type 0 where
  pub id : String
  pub name : String
  pub ip_address : String
  pub agent_port : ℤ
  pub mesh_ip : String
  pub status : NodeStatus
  pub version : String
  pub hardware : NodeHardware
  pub latest_metrics : NodeMetrics
  pub last_seen : Time
  pub registered_at : Time
  pub wireguard_pub_key : String

pub record RegisterNodeRequest : Type 0 where
  pub cluster_token : String
  pub node_name : String
  pub version : String
  pub hardware : NodeHardware
  pub wireguard_pub_key : String

pub record RegisterNodeResponse : Type 0 where
  pub node_id : String
  pub mesh_ip : String
  pub controller_mesh_ip : String
  pub wireguard_config : String
  pub heartbeat_sec : ℤ

pub record HeartbeatPayload : Type 0 where
  pub node_id : String
  pub version : String
  pub metrics : NodeMetrics

pub record AgentUpdateRequest : Type 0 where
  pub download_url : String
  pub target_version : String

pub record AgentUpdateResponse : Type 0 where
  pub status : String
  pub message : String
