-- ===== src/Tests/Engine.antt =====
-- The theorems on the simulated engine at concrete inputs (pkg/hyperv/engine.go).
use crybaby.Base.{
  ◌*◌, ◌^◌, ◌*◌, ◌^◌, ◌≤◌, ◌≡◌, ◌≢◌, refl, String, pos, false, [], ◌∷◌, none, some, arith,
  text_discrete, length, ℕ_discrete, text_eq,
}
use crybaby.Base.Decimal.{show}
use crybaby.Base.Assoc.{lookup, insert}
use crybaby.Base.Result.{ok}
use crybaby.Hyperv.Creation.{create_vm_lem, create_vm_collision}
use crybaby.Hyperv.Disks.{expand_disk-grows}
use crybaby.Hyperv.Invariant.{IsValid}
use crybaby.Hyperv.Simulated.{SimulatedEngine, demo_vm, demo_id, gib}
use crybaby.Hyperv.Simulated.Machines.{create_vm, created_vm, get_vm, is_taken, expand_disk}
use crybaby.Hyperv.Simulated.Checkpoints.{
  checkpoints_of, list_checkpoints, delete_checkpoint, without_checkpoint,
}
use crybaby.Types.Vm.{stopped}
use crybaby.Tests.Samples.{plain, clock, sample_engine, new_vm}

sample_found : lookup demo_id sample_engine.vms ≡ some (demo_vm "node-1" 0)
unfolding lookup text_discrete
sample_found = refl

sample_free : lookup "vm-5" sample_engine.vms ≡ none
unfolding lookup text_discrete
sample_free = refl

sample_absent : lookup "web" sample_engine.vms ≡ none
unfolding lookup text_discrete
sample_absent = refl

sample_fresh : is_taken plain "web" sample_engine.vms ≡ false
unfolding is_taken text_discrete
sample_fresh = refl

sample_engine-IsValid : IsValid plain sample_engine
sample_engine-IsValid = record {
  keys_distinct = (tt, tt);
  entries = ((refl, ground arith), tt);
  names_distinct = (tt, tt);
  owned = tt;
}

create_vm_lem_example :
    let t = (create_vm plain clock sample_engine new_vm).0 in
    let vm = created_vm clock sample_engine new_vm in
    ((create_vm plain clock sample_engine new_vm).1 ≡ ok vm)
    × (get_vm plain t "web" ≡ ok vm)
    × (lookup vm.id t.vms ≡ some vm)
    × ((k : String) → k ≢ vm.id → lookup k t.vms ≡ lookup k sample_engine.vms)
    × (length t.vms ≡ 2)
    × (vm.name ≡ "web")
    × (vm.state ≡ stopped)
    × (vm.cpu_count ≡ pos 1)
    × (vm.memory_mb ≡ 1024)
    × (vm.disk_size_bytes ≡ 10 * 2 ^ 30)
unfolding show
create_vm_lem_example =
    create_vm_lem plain clock sample_engine new_vm sample_engine-IsValid sample_fresh sample_absent
      sample_free

-- An engine with a machine under the identifier that the clock gives next.
abbrev crowded_engine : SimulatedEngine
crowded_engine = record sample_engine {
  vms = ("vm-5", record (demo_vm "node-1" 0) { id = "vm-5" }) ∷ [];
}

crowded_found :
    lookup "vm-5" crowded_engine.vms ≡ some (record (demo_vm "node-1" 0) { id = "vm-5" })
unfolding lookup text_discrete
crowded_found = refl

crowded_fresh : is_taken plain "web" crowded_engine.vms ≡ false
unfolding is_taken text_discrete
crowded_fresh = refl

create_vm_collision_example :
    let t = (create_vm plain clock crowded_engine new_vm).0 in
    let vm = created_vm clock crowded_engine new_vm in
    ((create_vm plain clock crowded_engine new_vm).1 ≡ ok vm)
    × (lookup "vm-5" t.vms ≡ some vm)
    × (length t.vms ≡ 1)
    × (list_checkpoints t vm.id ≡ ok (checkpoints_of crowded_engine vm.id))
unfolding show
create_vm_collision_example =
    create_vm_collision plain clock crowded_engine new_vm
      (record (demo_vm "node-1" 0) { id = "vm-5" }) crowded_found crowded_fresh

expand_found :
    lookup demo_id (expand_disk sample_engine demo_id 80).0.vms
    ≡ some (record (demo_vm "node-1" 0) { disk_size_bytes = 80 * gib })
unfolding lookup expand_disk insert text_discrete ℕ_discrete
expand_found = refl

expand_disk-grows_example : 40 * gib ≤ 80 * gib
expand_disk-grows_example =
    expand_disk-grows sample_engine demo_id 80 demo_id (demo_vm "node-1" 0)
      (record (demo_vm "node-1" 0) { disk_size_bytes = 80 * gib }) sample_found expand_found

-- An engine whose machine has a checkpoint.
abbrev saved_engine : SimulatedEngine
saved_engine = record sample_engine {
  checkpoints =
      (demo_id, record { id = "cp-1"; vm_id = demo_id; name = "base"; created_at = 0 } ∷ []) ∷ [];
}

saved_deleted : (delete_checkpoint saved_engine demo_id "base").1 ≡ ok tt
unfolding delete_checkpoint lookup without_checkpoint text_discrete
saved_deleted = refl
