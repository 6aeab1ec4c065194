-- ===== src/Hyperv/Simulated/OnVm.antt =====
-- The three outcomes of an operation on the VM under a key (pkg/hyperv/engine.go).
use crybaby.Base.{◌≡◌, String, none, some, arith}
use crybaby.Base.Assoc.{lookup}
use crybaby.Base.Result.{Result, ok, err}
use crybaby.Hyperv.Simulated.{SimulatedEngine, Error, vm_not_found, store_vm, on_vm}
use crybaby.Types.Vm.{VirtualMachine}

module _ (s : SimulatedEngine) (k : String)
    (change : VirtualMachine → Result Error VirtualMachine) where
  pub on_vm_missing : lookup k s.vms ≡ none → on_vm s k change ≡ (s, err (vm_not_found k))
  on_vm_missing missing = ground arith

  pub on_vm_changed :
      (old new : VirtualMachine)
      → lookup k s.vms ≡ some old
      → change old ≡ ok new
      → on_vm s k change ≡ (store_vm s k new, ok tt)
  on_vm_changed old new found changed = ground arith

  pub on_vm_refused :
      (old : VirtualMachine) (e : Error)
      → lookup k s.vms ≡ some old
      → change old ≡ err e
      → on_vm s k change ≡ (s, err e)
  on_vm_refused old e found refused = ground arith
