-- ===== src/Hyperv/Simulated/Machines.antt =====
-- The operations of `simulatedEngine` on virtual machines.
use crybaby.Base.{
  ℕ, ◌*◌, ◌/◌, ◌%◌, ◌^◌, String, ℤ, pos, Bool, false, ◌||◌, List, [], ◌∷◌, map, Option, none, some,
  ◌==◌, text_eq, nat_eq, ltb, leb, if◌then◌else◌,
}
use crybaby.Base.Assoc.{lookup, erase}
use crybaby.Base.Int.{nonpositive}
use crybaby.Base.Result.{Result, ok, err, ◌>>◌, fail_if}
use crybaby.Base.Unicode.{Unicode, equal_fold}
use crybaby.Hyperv.Engine.{Clock}
use crybaby.Types.Vm.{VirtualMachine, running, stopped, CreateVmRequest}
use crybaby.Hyperv.Simulated.{
  SimulatedEngine, Error, vm_not_found, source_not_found, not_found, name_taken, name_empty,
  cpu_too_small, memory_too_small, size_zero, size_too_small, gib, disk_path, vm_named, store_vm,
  on_vm,
}

unfoldable pub list_vms : SimulatedEngine → List VirtualMachine
list_vms s = map (λ e. e.1) s.vms

-- The VM that `CreateVM` stores. The disk's size is a `uint64` product.
abbrev pub created_vm : Clock → SimulatedEngine → CreateVmRequest → VirtualMachine
created_vm c s req = record {
  id = vm_named c.stamp;
  node_id = s.node_id;
  name = req.name;
  state = stopped;
  cpu_count = req.cpu_count;
  memory_mb = req.memory_mb;
  disk_path = disk_path req.name;
  disk_size_bytes = req.disk_size_gb * gib % 2 ^ 64;
  uptime_seconds = 0;
  ip_addresses = [];
  cpu_usage_pct = pos 0;
  memory_demand_mb = 0;
  created_at = c.now;
}

-- The VM that `CloneVM` stores.
abbrev pub cloned_vm : Clock → SimulatedEngine → VirtualMachine → String → VirtualMachine
cloned_vm c s src new_vm_name = record {
  id = vm_named c.stamp;
  node_id = s.node_id;
  name = new_vm_name;
  state = stopped;
  cpu_count = src.cpu_count;
  memory_mb = src.memory_mb;
  disk_path = disk_path new_vm_name;
  disk_size_bytes = src.disk_size_bytes;
  uptime_seconds = 0;
  ip_addresses = [];
  cpu_usage_pct = pos 0;
  memory_demand_mb = 0;
  created_at = c.now;
}

module _ (u : Unicode) where
  -- the loop of `GetVM`
  unfoldable pub find_vm : String → List (String × VirtualMachine) → Option VirtualMachine
  find_vm name_or_id [] = none
  find_vm name_or_id ((k, vm) ∷ m) =
      if vm.id == name_or_id || equal_fold u vm.name name_or_id
      then some vm
      else find_vm name_or_id m

  unfoldable pub get_vm : SimulatedEngine → String → Result Error VirtualMachine
  unfolding find_vm
  get_vm s name_or_id = elim (find_vm name_or_id s.vms) [
    | none ↦ err (not_found name_or_id)
    | some vm ↦ ok vm
  ]

  -- the loop of `CreateVM` and of `CloneVM` over the existing names
  unfoldable pub is_taken : String → List (String × VirtualMachine) → Bool
  is_taken name [] = false
  is_taken name ((k, vm) ∷ m) = equal_fold u vm.name name || is_taken name m

  unfoldable pub create_vm :
      Clock → SimulatedEngine → CreateVmRequest → SimulatedEngine × Result Error VirtualMachine
  create_vm c s req =
      if is_taken req.name s.vms
      then (s, err (name_taken req.name))
      else (store_vm s (vm_named c.stamp) (created_vm c s req), ok (created_vm c s req))

  unfoldable pub clone_vm :
      Clock → SimulatedEngine → String → String → SimulatedEngine × Result Error VirtualMachine
  clone_vm c s source_vm_id new_vm_name = elim (lookup source_vm_id s.vms) [
    | none ↦ (s, err (source_not_found source_vm_id))
    | some src ↦
        if new_vm_name == ""
        then (s, err name_empty)
        else if is_taken new_vm_name s.vms
        then (s, err (name_taken new_vm_name))
        else (
          store_vm s (vm_named c.stamp) (cloned_vm c s src new_vm_name),
          ok (cloned_vm c s src new_vm_name),
        )
  ]

abbrev pub started : VirtualMachine → VirtualMachine
started vm = record vm {
  state = running;
  uptime_seconds = 0;
  ip_addresses = "192.168.100.192" ∷ [];
  cpu_usage_pct = pos 8;
  memory_demand_mb = vm.memory_mb / 2;
}

abbrev pub halted : VirtualMachine → VirtualMachine
halted vm = record vm {
  state = stopped;
  uptime_seconds = 0;
  ip_addresses = [];
  cpu_usage_pct = pos 0;
  memory_demand_mb = 0;
}

abbrev pub restarted : VirtualMachine → VirtualMachine
restarted vm = record vm {
  state = running;
  uptime_seconds = 0;
  cpu_usage_pct = pos 10;
  memory_demand_mb = vm.memory_mb / 2;
}

unfoldable pub start_vm : SimulatedEngine → String → SimulatedEngine × Result Error (Unit {0})
start_vm s vm_id = on_vm s vm_id (λ vm. ok (started vm))

-- The flag asks for a forced stop, which the simulation does not tell apart.
unfoldable pub stop_vm : SimulatedEngine → String → Bool → SimulatedEngine × Result Error (Unit {0})
stop_vm s vm_id force = on_vm s vm_id (λ vm. ok (halted vm))

unfoldable pub restart_vm : SimulatedEngine → String → SimulatedEngine × Result Error (Unit {0})
restart_vm s vm_id = on_vm s vm_id (λ vm. ok (restarted vm))

-- The flag asks to delete the disk too, of which the simulation keeps nothing.
unfoldable pub delete_vm :
    SimulatedEngine → String → Bool → SimulatedEngine × Result Error (Unit {0})
delete_vm s vm_id delete_disk = elim (lookup vm_id s.vms) [
  | none ↦ (s, err (vm_not_found vm_id))
  | some vm ↦ (record s { vms = erase vm_id s.vms; checkpoints = erase vm_id s.checkpoints }, ok tt)
]

abbrev pub resized : ℤ → ℕ → VirtualMachine → Result Error VirtualMachine
resized cpu_count memory_mb vm = do
  fail_if (nonpositive cpu_count) cpu_too_small
  fail_if (ltb memory_mb 512) memory_too_small
  ok (record vm { cpu_count = cpu_count; memory_mb = memory_mb })

unfoldable pub resize_vm :
    SimulatedEngine → String → ℤ → ℕ → SimulatedEngine × Result Error (Unit {0})
resize_vm s vm_id cpu_count memory_mb = on_vm s vm_id (resized cpu_count memory_mb)

-- `newSizeGB * 1024 * 1024 * 1024` is a `uint64` product, and wraps.
abbrev pub expanded : ℕ → VirtualMachine → Result Error VirtualMachine
expanded new_size_gb vm = do
  fail_if (new_size_gb == 0) size_zero
  let new_bytes = new_size_gb * gib % 2 ^ 64
  fail_if (leb new_bytes vm.disk_size_bytes) (size_too_small new_size_gb (vm.disk_size_bytes / gib))
  ok (record vm { disk_size_bytes = new_bytes })

unfoldable pub expand_disk :
    SimulatedEngine → String → ℕ → SimulatedEngine × Result Error (Unit {0})
expand_disk s vm_id new_size_gb = on_vm s vm_id (expanded new_size_gb)
