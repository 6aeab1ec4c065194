-- ===== src/Hyperv/Invariant/Updates.antt =====
-- Writes of virtual machines keep the invariant of the simulated engine (pkg/hyperv/engine.go).
use crybaby.Base.{
  ap, ℕ, ◌≡◌, refl, subst, String, ℤ, false, List, ◌∙◌, some, text_eq, inl, inr, arith, All,
  Option-cases, All-map,
}
use crybaby.Base.Assoc.{lookup, insert, lookup-insert}
use crybaby.Base.Assoc.Fields.{insert_new-Distinct, field-insert_same}
use crybaby.Base.Assoc.All.{lookup-All, insert-All, insert-Distinct}
use crybaby.Base.Result.{Result, ok, Result-cases}
use crybaby.Base.Unicode.{Unicode}
use crybaby.Hyperv.Engine.{Clock}
use crybaby.Hyperv.Invariant.{IsSettled, IsEntry, IsOwned, IsValid, is_taken-Absent}
use crybaby.Hyperv.Simulated.{SimulatedEngine, Error, store_vm, on_vm}
use crybaby.Hyperv.Simulated.OnVm.{on_vm_missing, on_vm_changed, on_vm_refused}
use crybaby.Hyperv.Simulated.Machines.{
  is_taken, created_vm, cloned_vm, started, halted, restarted, resized, expanded,
}
use crybaby.Types.Vm.{VirtualMachine, CreateVmRequest, VmCheckpoint}

IsOwned-insert :
    (k : String) (v : VirtualMachine) (vms : List (String × VirtualMachine))
    (m : List (String × List VmCheckpoint))
    → All (IsOwned vms) m
    → All (IsOwned (insert k v vms)) m
IsOwned-insert k v vms =
    All-map (IsOwned vms) (IsOwned (insert k v vms))
      (λ e h. (ground (arith, lookup-insert k e.0 v vms, h.0), h.1))

-- A new VM, or one in the place of the VM under its key.
pub store_new-IsValid :
    (u : Unicode) (s : SimulatedEngine) (vm : VirtualMachine)
    → IsSettled vm
    → is_taken u vm.name s.vms ≡ false
    → IsValid u s
    → IsValid u (store_vm s vm.id vm)
store_new-IsValid u s vm settled fresh v = record {
  keys_distinct = insert-Distinct vm.id vm s.vms v.keys_distinct;
  entries = insert-All IsEntry vm.id vm s.vms (refl, settled) v.entries;
  names_distinct =
      insert_new-Distinct (λ v. u.fold v.name) vm.id vm s.vms
        (is_taken-Absent u vm.name s.vms fresh) v.names_distinct;
  owned = IsOwned-insert vm.id vm s.vms s.checkpoints v.owned;
}

-- What an update of a VM may change.
pub record Updates (old new : VirtualMachine) : Type 0 where
  pub same_id : new.id ≡ old.id
  pub same_name : new.name ≡ old.name
  pub settled : IsSettled old → IsSettled new

pub store_old-IsValid :
    (u : Unicode) (s : SimulatedEngine) (k : String) (old new : VirtualMachine)
    → lookup k s.vms ≡ some old
    → Updates old new
    → IsValid u s
    → IsValid u (store_vm s k new)
store_old-IsValid u s k old new found up v =
    let entry = lookup-All IsEntry k s.vms v.entries found in
    record {
      keys_distinct = insert-Distinct k new s.vms v.keys_distinct;
      entries = insert-All IsEntry k new s.vms (up.same_id ∙ entry.0, up.settled entry.1) v.entries;
      names_distinct =
          rw (field-insert_same (λ v. u.fold v.name) k old new s.vms found (ap u.fold up.same_name))
            v.names_distinct;
      owned = IsOwned-insert k new s.vms s.checkpoints v.owned;
    }

pub on_vm-IsValid :
    (u : Unicode) (s : SimulatedEngine) (k : String)
    (change : VirtualMachine → Result Error VirtualMachine)
    → ((old new : VirtualMachine) → change old ≡ ok new → Updates old new)
    → IsValid u s
    → IsValid u (on_vm s k change).0
on_vm-IsValid u s k change keeps v = elim (Option-cases (lookup k s.vms)) [
  | inl missing ↦ rw (on_vm_missing s k change missing) v
  | inr (old, found) ↦ elim (Result-cases (change old)) [
    | inl (new, e) ↦
        rw (on_vm_changed s k change old new found e)
          (store_old-IsValid u s k old new found (keeps old new e) v)
    | inr (x, e) ↦ rw (on_vm_refused s k change old x found e) v
  ]
]

pub always-Updates :
    (f : VirtualMachine → VirtualMachine)
    → ((vm : VirtualMachine) → Updates vm (f vm))
    → (old new : VirtualMachine) → ◌≡◌ {A = Result Error VirtualMachine} (ok (f old)) (ok new)
    → Updates old new
always-Updates f h old new e = subst (Updates old) (cc e) (h old)

pub started-Updates : (vm : VirtualMachine) → Updates vm (started vm)
started-Updates vm = ground arith

pub halted-Updates : (vm : VirtualMachine) → Updates vm (halted vm)
halted-Updates vm = ground arith

pub restarted-Updates : (vm : VirtualMachine) → Updates vm (restarted vm)
restarted-Updates vm = ground arith

pub resized-Updates :
    (cpu : ℤ) (mem : ℕ) (old new : VirtualMachine) → resized cpu mem old ≡ ok new → Updates old new
resized-Updates cpu mem old new e = ground arith

pub expanded-Updates :
    (size : ℕ) (old new : VirtualMachine) → expanded size old ≡ ok new → Updates old new
expanded-Updates size old new e = ground arith

pub created-IsSettled :
    (c : Clock) (s : SimulatedEngine) (r : CreateVmRequest) → IsSettled (created_vm c s r)
created-IsSettled c s r = ground arith

pub cloned-IsSettled :
    (c : Clock) (s : SimulatedEngine) (src : VirtualMachine) (name : String)
    → IsSettled (cloned_vm c s src name)
cloned-IsSettled c s src name = ground arith
