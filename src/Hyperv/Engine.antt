-- ===== src/Hyperv/Engine.antt =====
-- The interface `Engine` of pkg/hyperv/engine.go over a state `S` of the host. Each operation
-- returns the new state beside its value or error; an error is its text. A reading of the clock
-- is an argument: `stamp` is the one that makes an identifier, `now` the one that is stored.
use crybaby.Base.{ℕ, String, ℤ, Bool, List}
use crybaby.Base.Result.{Result}
use crybaby.Types.Node.{Time}
use crybaby.Types.Vm.{VirtualMachine, CreateVmRequest, VmCheckpoint}

pub record Clock : Type 0 where
  pub stamp : Time
  pub now : Time
  -- `now` by the layout 20060102-150405
  pub formatted : String

abbrev pub Returns : Type 0 → Type 0 → Type 0
Returns S A = S × Result String A

pub record Engine (S : Type 0) : Type 0 where
  pub list_vms : S → Returns S (List VirtualMachine)
  pub get_vm : S → String → Returns S VirtualMachine
  pub create_vm : Clock → S → CreateVmRequest → Returns S VirtualMachine
  pub start_vm : S → String → Returns S (Unit {0})
  pub stop_vm : S → String → Bool → Returns S (Unit {0})
  pub restart_vm : S → String → Returns S (Unit {0})
  pub delete_vm : S → String → Bool → Returns S (Unit {0})
  pub list_virtual_switches : S → Returns S (List String)
  pub ensure_virtual_switch : S → String → Returns S (Unit {0})
  pub create_checkpoint : Clock → S → String → String → Returns S VmCheckpoint
  pub list_checkpoints : S → String → Returns S (List VmCheckpoint)
  pub restore_checkpoint : S → String → String → Returns S (Unit {0})
  pub delete_checkpoint : S → String → String → Returns S (Unit {0})
  pub resize_vm : S → String → ℤ → ℕ → Returns S (Unit {0})
  pub expand_disk : S → String → ℕ → Returns S (Unit {0})
  pub clone_vm : Clock → S → String → String → Returns S VirtualMachine
