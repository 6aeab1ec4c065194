-- ===== src/Hyperv/Creation.antt =====
-- Creating, cloning, finding and deleting machines (pkg/hyperv/engine.go).
use crybaby.Base.{
  ◌*◌, ◌%◌, ◌^◌, suc, ◌≡◌, refl, String, Bool, true, false, List, [], ◌∷◌, none, some, text_eq, ◌≢◌,
  arith, length, All,
}
use crybaby.Base.Assoc.{
  lookup, insert, lookup-insert_self, lookup-insert_ne, length-insert_old, length-insert_new,
  lookup-erase_self, lookup-erase_ne,
}
use crybaby.Base.Result.{ok, err}
use crybaby.Base.Unicode.{Unicode, equal_fold}
use crybaby.Hyperv.Engine.{Clock}
use crybaby.Hyperv.Invariant.{IsValid, IsEntry}
use crybaby.Hyperv.Simulated.{SimulatedEngine, vm_not_found, name_taken, vm_named}
use crybaby.Hyperv.Simulated.Checkpoints.{list_checkpoints, checkpoints_of}
use crybaby.Hyperv.Simulated.Machines.{
  find_vm, get_vm, is_taken, create_vm, clone_vm, delete_vm, created_vm, cloned_vm,
}
use crybaby.Types.Vm.{VirtualMachine, CreateVmRequest, stopped}

module _ (u : Unicode) where
  find_vm-insert :
      (name : String) (vm : VirtualMachine) (m : List (String × VirtualMachine))
      → vm.name ≡ name
      → is_taken u name m ≡ false
      → All IsEntry m
      → lookup name m ≡ none
      → find_vm u name (insert vm.id vm m) ≡ some vm
  unfolding find_vm is_taken insert lookup
  find_vm-insert name vm [] e fresh entries absent = ground arith
  find_vm-insert name vm (x ∷ m) e fresh entries absent = ground (arith, find_vm-insert name vm m e)

  is_taken-lookup :
      (name k : String) (old : VirtualMachine) (m : List (String × VirtualMachine))
      → lookup k m ≡ some old
      → equal_fold u old.name name ≡ true
      → is_taken u name m ≡ true
  unfolding is_taken lookup
  is_taken-lookup name k old [] found same = cc
  is_taken-lookup name k old (x ∷ m) found same = ground (arith, is_taken-lookup name k old m)

  -- In a valid engine, a request for a name that no machine has, up to case and as an identifier,
  -- at a time whose identifier is free, makes one machine, stopped, with the processors and the
  -- memory that were asked for and a disk of the GiB that were asked for, as a product of 64 bits.
  -- It can be got by its name and stands under its identifier; no other entry changes.
  pub create_vm_lem :
      (c : Clock) (s : SimulatedEngine) (req : CreateVmRequest)
      → IsValid u s
      → is_taken u req.name s.vms ≡ false
      → lookup req.name s.vms ≡ none
      → lookup (vm_named c.stamp) s.vms ≡ none
      → let t = (create_vm u c s req).0 in
        let vm = created_vm c s req in
        ((create_vm u c s req).1 ≡ ok vm)
        × (get_vm u t req.name ≡ ok vm)
        × (lookup vm.id t.vms ≡ some vm)
        × ((k : String) → k ≢ vm.id → lookup k t.vms ≡ lookup k s.vms)
        × (length t.vms ≡ suc (length s.vms))
        × (vm.name ≡ req.name)
        × (vm.state ≡ stopped)
        × (vm.cpu_count ≡ req.cpu_count)
        × (vm.memory_mb ≡ req.memory_mb)
        × (vm.disk_size_bytes ≡ req.disk_size_gb * 2 ^ 30 % 2 ^ 64)
  unfolding create_vm get_vm
  create_vm_lem c s req v fresh absent new = (
    ground arith,
    ground (arith, find_vm-insert req.name (created_vm c s req) s.vms refl fresh v.entries absent),
    ground (arith, lookup-insert_self (vm_named c.stamp) (created_vm c s req) s.vms),
    (λ k ne. ground (arith, lookup-insert_ne (vm_named c.stamp) k (created_vm c s req) s.vms ne)),
    ground (arith, length-insert_new (vm_named c.stamp) (created_vm c s req) s.vms new),
    refl,
    refl,
    refl,
    refl,
    refl,
  )

  -- A request for a name that is taken, in whatever case, is refused and changes nothing.
  pub create_vm_taken :
      (c : Clock) (s : SimulatedEngine) (req : CreateVmRequest) (k : String) (old : VirtualMachine)
      → lookup k s.vms ≡ some old
      → equal_fold u old.name req.name ≡ true
      → create_vm u c s req ≡ (s, err (name_taken req.name))
  unfolding create_vm
  create_vm_taken c s req k old found same =
      ground (arith, is_taken-lookup req.name k old s.vms found same)

  -- Identifiers repeat every million nanoseconds: a machine created under a free name when its
  -- identifier is in use replaces the machine that has it, inherits that machine's checkpoints,
  -- and the caller is told of a success.
  pub create_vm_collision :
      (c : Clock) (s : SimulatedEngine) (req : CreateVmRequest) (old : VirtualMachine)
      → lookup (vm_named c.stamp) s.vms ≡ some old
      → is_taken u req.name s.vms ≡ false
      → let t = (create_vm u c s req).0 in
        let vm = created_vm c s req in
        ((create_vm u c s req).1 ≡ ok vm)
        × (lookup (vm_named c.stamp) t.vms ≡ some vm)
        × (length t.vms ≡ length s.vms)
        × (list_checkpoints t vm.id ≡ ok (checkpoints_of s vm.id))
  unfolding create_vm list_checkpoints
  create_vm_collision c s req old found fresh = (
    ground arith,
    ground (arith, lookup-insert_self (vm_named c.stamp) (created_vm c s req) s.vms),
    ground (arith, length-insert_old (vm_named c.stamp) (created_vm c s req) s.vms),
    ground (arith, lookup-insert_self (vm_named c.stamp) (created_vm c s req) s.vms),
  )

  -- A clone of a machine that exists, under a free name that is not empty and at a time whose
  -- identifier is free, has the source's processors, memory and disk size, is stopped whatever the
  -- source does, and leaves the source and every other machine as they were.
  pub clone_vm_lem :
      (c : Clock) (s : SimulatedEngine) (id name : String) (src : VirtualMachine)
      → lookup id s.vms ≡ some src
      → name ≢ ""
      → is_taken u name s.vms ≡ false
      → lookup (vm_named c.stamp) s.vms ≡ none
      → let t = (clone_vm u c s id name).0 in
        (vm : VirtualMachine) × ((clone_vm u c s id name).1 ≡ ok vm)
        × (lookup vm.id t.vms ≡ some vm)
        × ((k : String) → k ≢ vm.id → lookup k t.vms ≡ lookup k s.vms)
        × (lookup id t.vms ≡ some src)
        × (vm.name ≡ name)
        × (vm.state ≡ stopped)
        × (vm.cpu_count ≡ src.cpu_count)
        × (vm.memory_mb ≡ src.memory_mb)
        × (vm.disk_size_bytes ≡ src.disk_size_bytes)
  unfolding clone_vm
  clone_vm_lem c s id name src found named fresh new =
      let vm = cloned_vm c s src name in
      (
        vm,
        ground arith,
        ground (arith, lookup-insert_self vm.id vm s.vms),
        (λ k ne. ground (arith, lookup-insert_ne vm.id k vm s.vms ne)),
        ground (arith, lookup-insert_ne vm.id id vm s.vms (λ same. ground arith)),
        refl,
        refl,
        refl,
        refl,
        refl,
      )

-- A machine that exists is gone with its checkpoints when it is deleted; the others keep theirs.
-- Deleting it again fails.
pub delete_vm_lem :
    (s : SimulatedEngine) (id : String) (disk : Bool) (vm : VirtualMachine)
    → lookup id s.vms ≡ some vm
    → let t = (delete_vm s id disk).0 in
      (lookup id t.vms ≡ none)
      × (checkpoints_of t id ≡ [])
      × ((k : String)
          → k ≢ id
          → (lookup k t.vms ≡ lookup k s.vms) × (checkpoints_of t k ≡ checkpoints_of s k))
      × (delete_vm t id disk ≡ (t, err (vm_not_found id)))
unfolding delete_vm
delete_vm_lem s id disk vm found = (
  ground (arith, lookup-erase_self id s.vms),
  ground (arith, lookup-erase_self id s.checkpoints),
  (λ k ne. (
    ground (arith, lookup-erase_ne id k s.vms ne),
    ground (arith, lookup-erase_ne id k s.checkpoints ne),
  )),
  ground (arith, lookup-erase_self id s.vms),
)
