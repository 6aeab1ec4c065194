-- ===== src/Hyperv/Calls.antt =====
-- The simulated engine as a value of the interface `Engine`, and histories of calls to it
-- (pkg/hyperv/engine.go).
use crybaby.Base.{ℕ, String, ℤ, Bool, List, [], ◌∷◌}
use crybaby.Base.Result.{Result, ok, err}
use crybaby.Base.Unicode.{Unicode}
use crybaby.Hyperv.Engine.{Clock, Engine}
use crybaby.Hyperv.Simulated.{SimulatedEngine, Error, message}
use crybaby.Hyperv.Simulated.Machines
use crybaby.Hyperv.Simulated.Checkpoints
use crybaby.Types.Vm.{CreateVmRequest}

-- An error is passed on as its text.
abbrev pub told : {A : Type 0} → Result Error A → Result String A
told (ok a) = ok a
told (err e) = err (message e)

module _ (u : Unicode) where
  abbrev pub simulated : Engine SimulatedEngine
  simulated = record {
    list_vms = λ s. (s, ok (Machines.list_vms s));
    get_vm = λ s id. (s, told (Machines.get_vm u s id));
    create_vm = λ c s req. let r = Machines.create_vm u c s req in (r.0, told r.1);
    start_vm = λ s id. let r = Machines.start_vm s id in (r.0, told r.1);
    stop_vm = λ s id force. let r = Machines.stop_vm s id force in (r.0, told r.1);
    restart_vm = λ s id. let r = Machines.restart_vm s id in (r.0, told r.1);
    delete_vm = λ s id disk. let r = Machines.delete_vm s id disk in (r.0, told r.1);
    list_virtual_switches = λ s. (s, ok (Checkpoints.list_virtual_switches s));
    ensure_virtual_switch = λ s name. (Checkpoints.ensure_virtual_switch s name, ok tt);
    create_checkpoint =
        λ c s id name. let r = Checkpoints.create_checkpoint c s id name in (r.0, told r.1);
    list_checkpoints = λ s id. (s, told (Checkpoints.list_checkpoints s id));
    restore_checkpoint = λ s id name. (s, told (Checkpoints.restore_checkpoint s id name));
    delete_checkpoint =
        λ s id name. let r = Checkpoints.delete_checkpoint s id name in (r.0, told r.1);
    resize_vm = λ s id cpu mem. let r = Machines.resize_vm s id cpu mem in (r.0, told r.1);
    expand_disk = λ s id size. let r = Machines.expand_disk s id size in (r.0, told r.1);
    clone_vm = λ c s id name. let r = Machines.clone_vm u c s id name in (r.0, told r.1);
  }

-- The calls that change one existing machine in place.
pub data Update : Type 0 where
  start restart : Update
  stop : Bool → Update
  resize : ℤ → ℕ → Update
  expand : ℕ → Update

unfoldable pub update_vm :
    SimulatedEngine → String → Update → SimulatedEngine × Result Error (Unit {0})
update_vm s id start = Machines.start_vm s id
update_vm s id restart = Machines.restart_vm s id
update_vm s id (stop force) = Machines.stop_vm s id force
update_vm s id (resize cpu mem) = Machines.resize_vm s id cpu mem
update_vm s id (expand size) = Machines.expand_disk s id size

-- The calls that may change the engine.
pub data Call : Type 0 where
  create : Clock → CreateVmRequest → Call
  clone : Clock → String → String → Call
  update : String → Update → Call
  delete : String → Bool → Call
  ensure_switch : String → Call
  checkpoint : Clock → String → String → Call
  delete_checkpoint : String → String → Call

module _ (u : Unicode) where
  unfoldable pub step : SimulatedEngine → Call → SimulatedEngine
  step s (create c req) = (Machines.create_vm u c s req).0
  step s (clone c id name) = (Machines.clone_vm u c s id name).0
  step s (update id change) = (update_vm s id change).0
  step s (delete id disk) = (Machines.delete_vm s id disk).0
  step s (ensure_switch name) = Checkpoints.ensure_virtual_switch s name
  step s (checkpoint c id name) = (Checkpoints.create_checkpoint c s id name).0
  step s (delete_checkpoint id name) = (Checkpoints.delete_checkpoint s id name).0

  unfoldable pub run : SimulatedEngine → List Call → SimulatedEngine
  unfolding step
  run s [] = s
  run s (c ∷ cs) = run (step s c) cs
