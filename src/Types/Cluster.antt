-- ===== src/Types/Cluster.antt =====
-- pkg/types/cluster.go and terminal.go: the cluster's summary, log-in, the provisioning profile,
-- telemetry points, and the messages of a terminal.
use crybaby.Base.{ℕ, String, ℤ}
use crybaby.Types.Node.{Float64}

pub record ClusterSummary : Type 0 where
  pub total_nodes : ℤ
  pub online_nodes : ℤ
  pub offline_nodes : ℤ
  pub total_cpu_cores : ℤ
  pub avg_cpu_usage_pct : Float64
  pub total_ram_bytes : ℕ
  pub used_ram_bytes : ℕ
  pub total_disk_bytes : ℕ
  pub used_disk_bytes : ℕ
  pub total_active_vms : ℤ
  pub mesh_network_cidr : String

pub record AuthRequest : Type 0 where
  pub password : String

pub record AuthResponse : Type 0 where
  pub token : String
  pub expires_at : ℤ

pub record UsbProvisionProfile : Type 0 where
  pub controller_url : String
  pub cluster_token : String
  pub cluster_name : String
  pub created_at : String

pub record TelemetryPoint : Type 0 where
  pub timestamp : ℤ
  pub cpu : Float64
  pub ram_pct : Float64

pub data TerminalMessageType : Type 0 where
  input output resize error : TerminalMessageType

pub record TerminalMessage : Type 0 where
  pub type : TerminalMessageType
  pub content : String
  pub rows : ℕ
  pub cols : ℕ
