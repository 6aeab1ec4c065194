-- ===== src/Hyperv/Invariant/Machines.antt =====
-- Creating, cloning and deleting a virtual machine keeps the invariant (pkg/hyperv/engine.go).
use crybaby.Base.{
  ◌≡◌, String, Bool, List, [], ◌∷◌, some, ◌==◌, text_eq, inl, inr, arith, All, Bool-cases,
  Option-cases,
}
use crybaby.Base.Assoc.{lookup, erase, lookup-erase}
use crybaby.Base.Assoc.Fields
use crybaby.Base.Assoc.All.{erase-All, erase-Distinct}
use crybaby.Base.Unicode.{Unicode}
use crybaby.Hyperv.Engine.{Clock}
use crybaby.Hyperv.Invariant.{IsEntry, IsOwned, IsValid}
use crybaby.Hyperv.Simulated.{SimulatedEngine}
use crybaby.Hyperv.Simulated.Machines.{
  is_taken, create_vm, clone_vm, delete_vm, created_vm, cloned_vm,
}
use crybaby.Types.Vm.{VirtualMachine, CreateVmRequest, VmCheckpoint}
use crybaby.Hyperv.Invariant.Updates.{store_new-IsValid, created-IsSettled, cloned-IsSettled}

pub create_vm-IsValid :
    (u : Unicode) (c : Clock) (s : SimulatedEngine) (req : CreateVmRequest)
    → IsValid u s
    → IsValid u (create_vm u c s req).0
unfolding create_vm
create_vm-IsValid u c s req v = elim (Bool-cases (is_taken u req.name s.vms)) [
  | inl taken ↦ rw taken v
  | inr fresh ↦
      rw fresh (store_new-IsValid u s (created_vm c s req) (created-IsSettled c s req) fresh v)
]

pub clone_of-IsValid :
    (u : Unicode) (c : Clock) (s : SimulatedEngine) (id name : String) (src : VirtualMachine)
    → lookup id s.vms ≡ some src
    → IsValid u s
    → IsValid u (clone_vm u c s id name).0
unfolding clone_vm
clone_of-IsValid u c s id name src found v = elim (Bool-cases (name == "")) [
  | inl empty ↦ rw (found, clone_vm, empty) v
  | inr named ↦ elim (Bool-cases (is_taken u name s.vms)) [
    | inl taken ↦ rw (found, clone_vm, named, taken) v
    | inr fresh ↦
        rw (found, clone_vm, named, fresh)
          (store_new-IsValid u s (cloned_vm c s src name) (cloned-IsSettled c s src name) fresh v)
  ]
]

pub clone_vm-IsValid :
    (u : Unicode) (c : Clock) (s : SimulatedEngine) (id name : String)
    → IsValid u s
    → IsValid u (clone_vm u c s id name).0
unfolding clone_vm
clone_vm-IsValid u c s id name v = elim (Option-cases (lookup id s.vms)) [
  | inl missing ↦ rw (missing, clone_vm) v
  | inr (src, found) ↦ clone_of-IsValid u c s id name src found v
]

IsOwned-erase :
    (k : String) (vms : List (String × VirtualMachine)) (m : List (String × List VmCheckpoint))
    → All (IsOwned vms) m
    → All (IsOwned (erase k vms)) (erase k m)
unfolding erase
IsOwned-erase k vms [] h = tt
IsOwned-erase k vms ((j, cps) ∷ m) h = elim (Bool-cases (j == k)) [
  | inl here ↦ rw here (IsOwned-erase k vms m h.1)
  | inr there ↦
      rw there ((ground (arith, lookup-erase k j vms, h.0.0), h.0.1), IsOwned-erase k vms m h.1)
]

pub delete_vm-IsValid :
    (u : Unicode) (s : SimulatedEngine) (id : String) (disk : Bool)
    → IsValid u s
    → IsValid u (delete_vm s id disk).0
unfolding delete_vm
delete_vm-IsValid u s id disk v = elim (Option-cases (lookup id s.vms)) [
  | inl missing ↦ rw (missing, delete_vm) v
  | inr (vm, found) ↦
      rw (found, delete_vm)
        (record {
          keys_distinct = erase-Distinct id s.vms v.keys_distinct;
          entries = erase-All IsEntry id s.vms v.entries;
          names_distinct = Fields.erase-Distinct (λ v. u.fold v.name) id s.vms v.names_distinct;
          owned = IsOwned-erase id s.vms s.checkpoints v.owned;
        })
]
