-- ===== src/Hyperv/Simulated.antt =====
-- `simulatedEngine` of pkg/hyperv/engine.go: its state, its errors, and what its operations share.
-- Each operation holds the engine's lock throughout, so a history is a sequence of operations.
pub mod OnVm
pub mod Machines
pub mod Checkpoints
use crybaby.Base.{
  ℕ, ◌+◌, ◌-◌, ◌*◌, ◌/◌, ◌%◌, ◌^◌, String, ℤ, pos, Bool, true, false, ◌||◌, List, [], ◌∷◌, ◌++◌,
  map, Option, none, some, ◌==◌, text_eq, nat_eq, ltb, leb, if◌then◌else◌,
}
use crybaby.Base.Assoc.{lookup, insert, erase}
use crybaby.Base.Decimal.{show}
use crybaby.Base.Int.{nonpositive}
use crybaby.Base.Result.{Result, ok, err, ◌>>=◌, ◌>>◌, fail_if}
use crybaby.Base.Text.{◌<>◌}
use crybaby.Base.Unicode.{Unicode, equal_fold}
use crybaby.Hyperv.Engine.{Clock}
use crybaby.Types.Node.{Time}
use crybaby.Types.Vm.{VirtualMachine, running, stopped, CreateVmRequest, VmCheckpoint}
use mathlib.Core.Option

pub record SimulatedEngine : Type 0 where
  pub node_id : String
  pub vms : List (String × VirtualMachine)
  pub checkpoints : List (String × List VmCheckpoint)
  pub switches : List String

-- The errors that the operations make, by their format strings.
pub data Error : Type 0 where
  vm_not_found source_not_found not_found name_taken checkpoint_not_found : String → Error
  name_empty cpu_too_small memory_too_small size_zero : Error
  size_too_small : ℕ → ℕ → Error

unfoldable pub message : Error → String
message (vm_not_found id) = "VM '" <> id <> "' not found"
message (source_not_found id) = "source VM '" <> id <> "' not found"
message (not_found id) = "virtual machine '" <> id <> "' not found"
message (name_taken n) = "a VM named '" <> n <> "' already exists"
message (checkpoint_not_found n) = "checkpoint '" <> n <> "' not found"
message name_empty = "new VM name cannot be empty"
message cpu_too_small = "CPU count must be at least 1"
message memory_too_small = "memory must be at least 512 MB"
message size_zero = "new disk size must be greater than 0"
message (size_too_small new old) =
    "new size (" <> show new <> " GB) must be larger than current size (" <> show old <> " GB)"

abbrev pub gib : ℕ
gib = 1024 * 1024 * 1024

abbrev pub disk_path : String → String
disk_path name = "C:\\Crybaby\\Disks\\" <> name <> ".vhdx"

abbrev pub demo_id : String
demo_id = "c1000000-0000-0000-0000-000000000001"

-- The demo VM is dated two hours back.
abbrev pub demo_vm : String → Time → VirtualMachine
demo_vm node_id now = record {
  id = demo_id;
  node_id = node_id;
  name = "ubuntu-srv-01";
  state = running;
  cpu_count = pos 2;
  memory_mb = 4096;
  disk_path = disk_path "ubuntu-srv-01";
  disk_size_bytes = 40 * gib;
  uptime_seconds = 7200;
  ip_addresses = "10.42.100.15" ∷ [];
  cpu_usage_pct = pos 12;
  memory_demand_mb = 1536;
  created_at = now - 2 * 3600 * 1_000_000_000;
}

unfoldable pub new_simulated_engine : String → Time → SimulatedEngine
new_simulated_engine node_id now = record {
  node_id = node_id;
  vms = (demo_id, demo_vm node_id now) ∷ [];
  checkpoints = [];
  switches = "Default Switch" ∷ "Internal-VMSwitch" ∷ "External-Bridge" ∷ "Crybaby-LAN" ∷ [];
}

abbrev pub vm_named : Time → String
vm_named stamp = "vm-" <> show (stamp % 1000000)

-- Store a VM under its key, as the operations do through the pointer that they hold.
abbrev pub store_vm : SimulatedEngine → String → VirtualMachine → SimulatedEngine
store_vm s vm_id vm = record s { vms = insert vm_id vm s.vms }

-- An operation on the VM under a key, which fails where there is none.
abbrev pub on_vm :
    SimulatedEngine
    → String
    → (VirtualMachine → Result Error VirtualMachine)
    → SimulatedEngine × Result Error (Unit {0})
on_vm s vm_id change = elim (lookup vm_id s.vms) [
  | none ↦ (s, err (vm_not_found vm_id))
  | some vm ↦ elim (change vm) [ ok vm' ↦ (store_vm s vm_id vm', ok tt) | err e ↦ (s, err e) ]
]
