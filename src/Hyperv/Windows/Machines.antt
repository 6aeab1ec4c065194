-- ===== src/Hyperv/Windows/Machines.antt =====
-- The operations of `windowsEngine` on virtual machines (pkg/hyperv/engine.go).
use crybaby.Base.{
  ℕ, suc, ◌*◌, ◌%◌, ◌^◌, String, ℤ, pos, Bool, not, ◌&&◌, ◌||◌, List, [], ◌∷◌, Option, none, some,
  ◌==◌, text_eq, nat_eq, ltb, if◌then◌else◌,
}
use crybaby.Base.Int.{nonpositive, int_eq}
use crybaby.Base.Result.{Result, ok, err}
use crybaby.Base.Spaces.{trim_space, has_prefix}
use crybaby.Base.Strings.{split}
use crybaby.Base.Text.{◌<>◌}
use crybaby.Base.Unicode.{Unicode, equal_fold}
use crybaby.Hyperv.Engine.{Clock, Returns}
use crybaby.Hyperv.Windows.{Host, PsVm, command, failed, mebibytes}
use crybaby.Hyperv.Windows.Scripts.{
  start_script, stop_script, restart_script, delete_script, resize_script, expand_script,
}
use crybaby.Hyperv.Windows.Scripts.Creation.{list_script, create_script, clone_script, vhd_path}
use crybaby.Types.Node.{Time}
use crybaby.Types.Vm.{VirtualMachine, VmState, running, stopped, saved, CreateVmRequest}

-- Hyper-V's 2 is running, 3 is off, 6 is saved.
abbrev pub state_of : ℤ → VmState
state_of n =
    if n == pos 2
    then running
    else if n == pos 3
    then stopped
    else if n == pos 6
    then saved
    else stopped

-- the loop over the addresses: those that are neither empty nor begin with `fe80:`
unfoldable pub usable : List String → List String
usable [] = []
usable (ip ∷ ips) =
    let rest = usable ips in
    let ip' = trim_space ip in
    if not (ip' == "") && not (has_prefix ip' "fe80:") then ip' ∷ rest else rest

unfoldable pub addresses : String → List String
unfolding usable
addresses text = if text == "" then [] else let (p, ps) = split b',' text in usable (p ∷ ps)

abbrev pub positive : ℤ → Bool
positive n = not (nonpositive n)

-- The VM that `ListVMs` appends for what PowerShell printed.
unfoldable pub listed_vm : String → Time → PsVm → VirtualMachine
unfolding addresses
listed_vm node_id now item = record {
  id = item.id;
  node_id = node_id;
  name = item.name;
  state = state_of item.state;
  cpu_count = pos 2;
  memory_mb = mebibytes item.memory_assigned;
  disk_path = item.hard_drives;
  disk_size_bytes = 0;
  uptime_seconds = 0;
  ip_addresses = addresses item.ip_addresses;
  cpu_usage_pct = item.cpu_usage;
  memory_demand_mb = if positive item.memory_demand then mebibytes item.memory_demand else 0;
  created_at = now;
}

-- the loop of `ListVMs`, each turn with its reading of the clock
unfoldable pub listed : String → (ℕ → Time) → ℕ → List PsVm → List VirtualMachine
listed node_id clock i [] = []
listed node_id clock i (item ∷ items) =
    listed_vm node_id (clock i) item ∷ listed node_id clock (suc i) items

-- One object that PowerShell printed becomes a list of one.
abbrev pub bracketed : String → String
bracketed out = if has_prefix out "{" then "[" <> out <> "]" else out

-- Nothing was printed.
abbrev pub is_blank : String → Bool
is_blank out = out == "" || out == "null"

-- the loop of `GetVM`
unfoldable pub first_named : Unicode → String → List VirtualMachine → Option VirtualMachine
first_named u name_or_id [] = none
first_named u name_or_id (vm ∷ vms) =
    if vm.id == name_or_id || equal_fold u vm.name name_or_id
    then some vm
    else first_named u name_or_id vms

-- The request of `CreateVM` with its defaults.
unfoldable pub with_defaults : CreateVmRequest → CreateVmRequest
with_defaults req = record {
  name = req.name;
  cpu_count = if req.cpu_count == pos 0 then pos 2 else req.cpu_count;
  memory_mb = if req.memory_mb == 0 then 2048 else req.memory_mb;
  disk_size_gb = if req.disk_size_gb == 0 then 32 else req.disk_size_gb;
  switch_name = if req.switch_name == "" then "Default Switch" else req.switch_name;
  iso_path = req.iso_path;
}

-- The VM that `CreateVM` returns. The disk's size is a `uint64` product.
abbrev pub created_vm : String → Time → CreateVmRequest → String → VirtualMachine
created_vm node_id now req out = record {
  id = trim_space out;
  node_id = node_id;
  name = req.name;
  state = stopped;
  cpu_count = req.cpu_count;
  memory_mb = req.memory_mb;
  disk_path = vhd_path req.name;
  disk_size_bytes = req.disk_size_gb * 1024 * 1024 * 1024 % 2 ^ 64;
  uptime_seconds = 0;
  ip_addresses = [];
  cpu_usage_pct = pos 0;
  memory_demand_mb = 0;
  created_at = now;
}

-- The VM that `CloneVM` returns.
abbrev pub cloned_vm : String → Time → String → String → VirtualMachine
cloned_vm node_id now name out = record {
  id = trim_space out;
  node_id = node_id;
  name = name;
  state = stopped;
  cpu_count = pos 0;
  memory_mb = 0;
  disk_path = "C:\\Crybaby\\Disks\\" <> name <> ".vhdx";
  disk_size_bytes = 0;
  uptime_seconds = 0;
  ip_addresses = [];
  cpu_usage_pct = pos 0;
  memory_demand_mb = 0;
  created_at = now;
}

module _ {S : Type 0} (h : Host S) (node_id : String) where
  -- What `ListVMs` makes of the text that was printed.
  unfoldable pub read_vms : S → String → Result String (List VirtualMachine)
  unfolding listed
  read_vms s out = if is_blank out then ok [] else elim (h.decode_machines (bracketed out)) [
    | ok raw ↦ ok (listed node_id (h.clock s) 0 raw)
    | err e ↦ err ("failed to parse Hyper-V JSON output: " <> e)
  ]

  unfoldable pub list_vms : S → Returns S (List VirtualMachine)
  unfolding read_vms
  list_vms s =
      let (s', out, e) = h.execute s list_script in
      elim e [
        | some m ↦ (s', err ("failed to query Hyper-V VMs: " <> m))
        | none ↦ (s', read_vms s' (trim_space out))
      ]

  unfoldable pub get_vm : Unicode → S → String → Returns S VirtualMachine
  unfolding list_vms first_named
  get_vm u s name_or_id =
      let (s', r) = list_vms s in
      elim r [
        | err e ↦ (s', err e)
        | ok vms ↦ elim (first_named u name_or_id vms) [
          | some vm ↦ (s', ok vm)
          | none ↦ (s', err ("virtual machine '" <> name_or_id <> "' not found"))
        ]
      ]

  -- `CreateVM` once the name is known not to be empty
  unfoldable pub creating : Clock → S → CreateVmRequest → Returns S VirtualMachine
  creating c s req =
      let (s', out, e) = h.execute s (create_script req) in
      elim e [
        | some m ↦ (s', err (failed "failed to create Hyper-V VM" m out))
        | none ↦ (s', ok (created_vm node_id c.now req out))
      ]

  unfoldable pub create_vm : Clock → S → CreateVmRequest → Returns S VirtualMachine
  unfolding with_defaults creating
  create_vm c s req =
      if req.name == ""
      then (s, err "VM name cannot be empty")
      else creating c s (with_defaults req)

  unfoldable pub cloning : Clock → S → String → String → Returns S VirtualMachine
  cloning c s source_vm_id new_vm_name =
      let (s', out, e) = h.execute s (clone_script source_vm_id new_vm_name) in
      elim e [
        | some m ↦ (s', err (failed "failed to clone VM" m out))
        | none ↦ (s', ok (cloned_vm node_id c.now new_vm_name out))
      ]

  unfoldable pub clone_vm : Clock → S → String → String → Returns S VirtualMachine
  unfolding cloning
  clone_vm c s source_vm_id new_vm_name =
      if new_vm_name == ""
      then (s, err "new VM name cannot be empty")
      else cloning c s source_vm_id new_vm_name

module _ {S : Type 0} (h : Host S) where
  unfoldable pub start_vm : S → String → Returns S (Unit {0})
  start_vm s vm_id = command h "failed to start VM" s (start_script vm_id)

  unfoldable pub stop_vm : S → String → Bool → Returns S (Unit {0})
  stop_vm s vm_id force = command h "failed to stop VM" s (stop_script vm_id force)

  unfoldable pub restart_vm : S → String → Returns S (Unit {0})
  restart_vm s vm_id = command h "failed to restart VM" s (restart_script vm_id)

  unfoldable pub delete_vm : S → String → Bool → Returns S (Unit {0})
  delete_vm s vm_id delete_disk =
      command h "failed to delete VM" s (delete_script vm_id delete_disk)

  unfoldable pub resize_vm : S → String → ℤ → ℕ → Returns S (Unit {0})
  resize_vm s vm_id cpu_count memory_mb =
      if nonpositive cpu_count
      then (s, err "CPU count must be at least 1")
      else if ltb memory_mb 512
      then (s, err "memory must be at least 512 MB")
      else command h "failed to resize VM" s (resize_script vm_id cpu_count memory_mb)

  unfoldable pub expand_disk : S → String → ℕ → Returns S (Unit {0})
  expand_disk s vm_id new_size_gb =
      if new_size_gb == 0
      then (s, err "new disk size must be greater than 0")
      else command h "failed to expand VM disk" s (expand_script vm_id new_size_gb)
