-- ===== src/Types/Vm.antt =====
-- pkg/types/vm.go: virtual machines, their checkpoints, and the requests about them.
use crybaby.Base.{ℕ, String, ℤ, List, Eq}
use crybaby.Types.Node.{Time}

pub data VmState : Type 0 where
  running stopped paused saved unknown : VmState

unfoldable pub state_discrete : Discrete VmState
state_discrete = hlevel

instance abbrev pub state_eq : Eq VmState
state_eq = record { dec = state_discrete }

pub record VirtualMachine : Type 0 where
  pub id : String
  pub node_id : String
  pub name : String
  pub state : VmState
  pub cpu_count : ℤ
  pub memory_mb : ℕ
  pub disk_path : String
  pub disk_size_bytes : ℕ
  pub uptime_seconds : ℕ
  pub ip_addresses : List String
  pub cpu_usage_pct : ℤ
  pub memory_demand_mb : ℕ
  pub created_at : Time

pub record CreateVmRequest : Type 0 where
  pub name : String
  pub cpu_count : ℤ
  pub memory_mb : ℕ
  pub disk_size_gb : ℕ
  pub switch_name : String
  pub iso_path : String

pub record VmCheckpoint : Type 0 where
  pub id : String
  pub vm_id : String
  pub name : String
  pub created_at : Time

pub record CreateCheckpointRequest : Type 0 where
  pub name : String

pub record ResizeVmRequest : Type 0 where
  pub cpu_count : ℤ
  pub memory_mb : ℕ

pub record ExpandDiskRequest : Type 0 where
  pub new_size_gb : ℕ

pub record CloneVmRequest : Type 0 where
  pub new_name : String
