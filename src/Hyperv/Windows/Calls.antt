-- ===== src/Hyperv/Windows/Calls.antt =====
-- `windowsEngine` as a value of the interface `Engine`, `NewEngine`, and histories of calls
-- (pkg/hyperv/engine.go).
use crybaby.Base.{
  ℕ, String, ℤ, Bool, not, ◌&&◌, List, [], ◌∷◌, Option, none, some, ◌==◌, text_eq, nat_eq, leb,
  if◌then◌else◌,
}
use crybaby.Base.Unicode.{Unicode}
use crybaby.Hyperv.Calls.{simulated}
use crybaby.Hyperv.Engine.{Clock, Engine}
use crybaby.Hyperv.Simulated.{new_simulated_engine}
use crybaby.Hyperv.Windows.{Host}
use crybaby.Hyperv.Windows.Machines
use crybaby.Hyperv.Windows.Checkpoints
use crybaby.Hyperv.Windows.Machines.{with_defaults, positive}
use crybaby.Hyperv.Windows.Checkpoints.{checkpoint_name}
use crybaby.Hyperv.Windows.Scripts.{
  start_script, stop_script, restart_script, delete_script, switches_script, ensure_switch_script,
  checkpoint_script, checkpoints_script, restore_script, delete_checkpoint_script, resize_script,
  expand_script,
}
use crybaby.Hyperv.Windows.Scripts.Creation.{list_script, create_script, clone_script}
use crybaby.Types.Node.{Time}
use crybaby.Types.Vm.{CreateVmRequest}

-- An engine with the state that it is in.
pub data AnyEngine : Type 1 where
  any_engine : {S : Type 0} → Engine S → S → AnyEngine

-- One call of an operation of the interface.
pub data Request : Type 0 where
  list_vms : Request
  get_vm : String → Request
  create_vm : Clock → CreateVmRequest → Request
  start_vm restart_vm : String → Request
  stop_vm delete_vm : String → Bool → Request
  list_virtual_switches : Request
  ensure_virtual_switch : String → Request
  create_checkpoint : Clock → String → String → Request
  list_checkpoints : String → Request
  restore_checkpoint delete_checkpoint : String → String → Request
  resize_vm : String → ℤ → ℕ → Request
  expand_disk : String → ℕ → Request
  clone_vm : Clock → String → String → Request

-- The script that a request is for, if the request is one that may be made at all.
unfoldable pub script_of : Request → Option String
script_of list_vms = some list_script
script_of (get_vm id) = some list_script
script_of (create_vm c req) =
    if req.name == "" then none else some (create_script (with_defaults req))
script_of (start_vm id) = some (start_script id)
script_of (restart_vm id) = some (restart_script id)
script_of (stop_vm id force) = some (stop_script id force)
script_of (delete_vm id disk) = some (delete_script id disk)
script_of list_virtual_switches = some switches_script
script_of (ensure_virtual_switch name) = some (ensure_switch_script name)
script_of (create_checkpoint c id name) = some (checkpoint_script id (checkpoint_name c name))
script_of (list_checkpoints id) = some (checkpoints_script id)
script_of (restore_checkpoint id name) = some (restore_script id name)
script_of (delete_checkpoint id name) = some (delete_checkpoint_script id name)
script_of (resize_vm id cpu mem) =
    if positive cpu && leb 512 mem then some (resize_script id cpu mem) else none
script_of (expand_disk id size) = if not (size == 0) then some (expand_script id size) else none
script_of (clone_vm c id name) = if not (name == "") then some (clone_script id name) else none

-- The scripts of the requests that have one, in their order.
unfoldable pub scripts : List Request → List String
unfolding script_of
scripts [] = []
scripts (r ∷ rs) = let rest = scripts rs in elim (script_of r) [ none ↦ rest | some t ↦ t ∷ rest ]

module _ {S : Type 0} (h : Host S) (u : Unicode) (node_id : String) where
  abbrev pub windows : Engine S
  windows = record {
    list_vms = Machines.list_vms h node_id;
    get_vm = Machines.get_vm h node_id u;
    create_vm = Machines.create_vm h node_id;
    start_vm = Machines.start_vm h;
    stop_vm = Machines.stop_vm h;
    restart_vm = Machines.restart_vm h;
    delete_vm = Machines.delete_vm h;
    list_virtual_switches = Checkpoints.list_virtual_switches h;
    ensure_virtual_switch = Checkpoints.ensure_virtual_switch h;
    create_checkpoint = Checkpoints.create_checkpoint h;
    list_checkpoints = Checkpoints.list_checkpoints h;
    restore_checkpoint = Checkpoints.restore_checkpoint h;
    delete_checkpoint = Checkpoints.delete_checkpoint h;
    resize_vm = Machines.resize_vm h;
    expand_disk = Machines.expand_disk h;
    clone_vm = Machines.clone_vm h node_id;
  }

  -- The engine for the operating system that `runtime.GOOS` names.
  unfoldable pub new_engine : String → S → Time → AnyEngine
  new_engine goos s now =
      if goos == "windows"
      then any_engine windows s
      else any_engine (simulated u) (new_simulated_engine node_id now)

  -- The host's state after a request.
  unfoldable pub step : S → Request → S
  step s list_vms = (Machines.list_vms h node_id s).0
  step s (get_vm id) = (Machines.get_vm h node_id u s id).0
  step s (create_vm c req) = (Machines.create_vm h node_id c s req).0
  step s (start_vm id) = (Machines.start_vm h s id).0
  step s (restart_vm id) = (Machines.restart_vm h s id).0
  step s (stop_vm id force) = (Machines.stop_vm h s id force).0
  step s (delete_vm id disk) = (Machines.delete_vm h s id disk).0
  step s list_virtual_switches = (Checkpoints.list_virtual_switches h s).0
  step s (ensure_virtual_switch name) = (Checkpoints.ensure_virtual_switch h s name).0
  step s (create_checkpoint c id name) = (Checkpoints.create_checkpoint h c s id name).0
  step s (list_checkpoints id) = (Checkpoints.list_checkpoints h s id).0
  step s (restore_checkpoint id name) = (Checkpoints.restore_checkpoint h s id name).0
  step s (delete_checkpoint id name) = (Checkpoints.delete_checkpoint h s id name).0
  step s (resize_vm id cpu mem) = (Machines.resize_vm h s id cpu mem).0
  step s (expand_disk id size) = (Machines.expand_disk h s id size).0
  step s (clone_vm c id name) = (Machines.clone_vm h node_id c s id name).0

  unfoldable pub run : S → List Request → S
  unfolding step
  run s [] = s
  run s (r ∷ rs) = run (step s r) rs

-- The host's state after scripts, one after the other.
unfoldable pub executed : {S : Type 0} → Host S → S → List String → S
executed h s [] = s
executed h s (t ∷ ts) = executed h (h.execute s t).0 ts
