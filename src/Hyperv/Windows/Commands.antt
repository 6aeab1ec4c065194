-- ===== src/Hyperv/Windows/Commands.antt =====
-- What a request to `windowsEngine` does to the host (pkg/hyperv/engine.go).
use crybaby.Base.{
  ◌≡◌, refl, String, inl, inr, List, [], ◌∷◌, ◌↔◌, Option, none, some, Option-cases, arith, text_eq,
}
use crybaby.Base.{nat_eq}
use crybaby.Base.Result.{Result, ok}
use crybaby.Base.Unicode.{Unicode}
use crybaby.Hyperv.Engine.{Clock}
use crybaby.Hyperv.Windows.{Host}
use crybaby.Hyperv.Windows.Calls.{Request, script_of, scripts, step, run, executed}
use crybaby.Hyperv.Windows.Machines
use crybaby.Hyperv.Windows.Machines.{with_defaults}
use crybaby.Hyperv.Windows.Scripts.Creation.{list_script, create_script}
use crybaby.Types.Vm.{CreateVmRequest}
use crybaby.Hyperv.Windows.Checkpoints

module _ {S : Type 0} (h : Host S) (u : Unicode) (node_id : String) where
  -- The host after one script or none.
  abbrev pub after : S → Option String → S
  after s none = s
  after s (some t) = (h.execute s t).0

  list_vms-execute : (s : S) → (Machines.list_vms h node_id s).0 ≡ (h.execute s list_script).0
  unfolding Machines.list_vms
  list_vms-execute s = ground arith

  get_vm-execute :
      (s : S) (id : String) → (Machines.get_vm h node_id u s id).0 ≡ (h.execute s list_script).0
  unfolding Machines.get_vm
  get_vm-execute s id = ground (arith, list_vms-execute s)

  creating-execute :
      (c : Clock) (s : S) (req : CreateVmRequest)
      → (Machines.creating h node_id c s req).0 ≡ (h.execute s (create_script req)).0
  unfolding Machines.creating
  creating-execute c s req = ground arith

  create_vm-after :
      (c : Clock) (s : S) (req : CreateVmRequest)
      → (Machines.create_vm h node_id c s req).0 ≡ after s (script_of (Request.create_vm c req))
  unfolding Machines.create_vm script_of
  create_vm-after c s req = ground (arith, creating-execute c s (with_defaults req))

  pub step-after : (s : S) (r : Request) → step h u node_id s r ≡ after s (script_of r)
  unfolding step script_of Machines.list_vms Machines.get_vm Machines.start_vm Machines.restart_vm
      Machines.stop_vm Machines.delete_vm Machines.resize_vm Machines.expand_disk Machines.clone_vm
      Machines.cloning Checkpoints.list_virtual_switches Checkpoints.ensure_virtual_switch
      Checkpoints.create_checkpoint Checkpoints.list_checkpoints Checkpoints.restore_checkpoint
      Checkpoints.delete_checkpoint Checkpoints.taking
  step-after s Request.list_vms = list_vms-execute s
  step-after s (Request.get_vm id) = get_vm-execute s id
  step-after s (Request.create_vm c req) = create_vm-after c s req
  step-after s (Request.start_vm id) = ground arith
  step-after s (Request.restart_vm id) = ground arith
  step-after s (Request.stop_vm id force) = ground arith
  step-after s (Request.delete_vm id disk) = ground arith
  step-after s Request.list_virtual_switches = ground arith
  step-after s (Request.ensure_virtual_switch name) = ground arith
  step-after s (Request.create_checkpoint c id name) = ground arith
  step-after s (Request.list_checkpoints id) = ground arith
  step-after s (Request.restore_checkpoint id name) = ground arith
  step-after s (Request.delete_checkpoint id name) = ground arith
  step-after s (Request.resize_vm id cpu mem) = ground arith
  step-after s (Request.expand_disk id size) = ground arith
  step-after s (Request.clone_vm c id name) = ground arith

  -- Whatever the requests, the host's state is in the end what it is after the scripts of those
  -- that may be made, each run once and in their order: a request that is refused runs nothing,
  -- and none of the sixteen operations runs a second script.
  pub run-scripts : (s : S) (rs : List Request) → run h u node_id s rs ≡ executed h s (scripts rs)
  unfolding run scripts executed
  run-scripts s [] = refl
  run-scripts s (r ∷ rs) = elim (Option-cases (script_of r)) [
    | inl refused ↦ ground (arith, step-after s r, run-scripts (step h u node_id s r) rs)
    | inr (t, made) ↦ ground (arith, step-after s r, run-scripts (step h u node_id s r) rs)
  ]

-- The operations that return nothing but an error.
abbrev pub outcome : {S : Type 0} → Host S → S → Request → Option (Result String (Unit {0}))
outcome h s (Request.start_vm id) = some (Machines.start_vm h s id).1
outcome h s (Request.restart_vm id) = some (Machines.restart_vm h s id).1
outcome h s (Request.stop_vm id force) = some (Machines.stop_vm h s id force).1
outcome h s (Request.delete_vm id disk) = some (Machines.delete_vm h s id disk).1
outcome h s (Request.ensure_virtual_switch name) =
    some (Checkpoints.ensure_virtual_switch h s name).1
outcome h s (Request.restore_checkpoint id name) =
    some (Checkpoints.restore_checkpoint h s id name).1
outcome h s (Request.delete_checkpoint id name) = some (Checkpoints.delete_checkpoint h s id name).1
outcome h s (Request.resize_vm id cpu mem) = some (Machines.resize_vm h s id cpu mem).1
outcome h s (Request.expand_disk id size) = some (Machines.expand_disk h s id size).1
outcome h s _ = none

module _ {S : Type 0} (h : Host S) where
  -- The request's script, if it has one, was run without an error of the shell's.
  abbrev pub Succeeded : S → Option String → Type 0
  Succeeded s none = ⊥
  Succeeded s (some t) = (h.execute s t).2 ≡ none

  -- Starting, restarting, stopping, deleting, resizing and expanding a machine, ensuring a switch,
  -- restoring and deleting a checkpoint succeed exactly if the request may be made and the shell
  -- reports no error of its script: no failure of the shell is hidden from the caller.
  pub outcome-Succeeded :
      (s : S) (r : Request) (result : Result String (Unit {0}))
      → outcome h s r ≡ some result
      → (result ≡ ok tt) ↔ Succeeded s (script_of r)
  unfolding script_of Machines.start_vm Machines.restart_vm Machines.stop_vm Machines.delete_vm
      Machines.resize_vm Machines.expand_disk Checkpoints.ensure_virtual_switch
      Checkpoints.restore_checkpoint Checkpoints.delete_checkpoint
  outcome-Succeeded s Request.list_vms result e = absurd (ground (arith, e))
  outcome-Succeeded s (Request.get_vm id) result e = absurd (ground (arith, e))
  outcome-Succeeded s (Request.create_vm c req) result e = absurd (ground (arith, e))
  outcome-Succeeded s (Request.start_vm id) result e = ground (arith, e)
  outcome-Succeeded s (Request.restart_vm id) result e = ground (arith, e)
  outcome-Succeeded s (Request.stop_vm id force) result e = ground (arith, e)
  outcome-Succeeded s (Request.delete_vm id disk) result e = ground (arith, e)
  outcome-Succeeded s Request.list_virtual_switches result e = absurd (ground (arith, e))
  outcome-Succeeded s (Request.ensure_virtual_switch name) result e = ground (arith, e)
  outcome-Succeeded s (Request.create_checkpoint c id name) result e = absurd (ground (arith, e))
  outcome-Succeeded s (Request.list_checkpoints id) result e = absurd (ground (arith, e))
  outcome-Succeeded s (Request.restore_checkpoint id name) result e = ground (arith, e)
  outcome-Succeeded s (Request.delete_checkpoint id name) result e = ground (arith, e)
  outcome-Succeeded s (Request.resize_vm id cpu mem) result e = ground (arith, e)
  outcome-Succeeded s (Request.expand_disk id size) result e = ground (arith, e)
  outcome-Succeeded s (Request.clone_vm c id name) result e = absurd (ground (arith, e))
