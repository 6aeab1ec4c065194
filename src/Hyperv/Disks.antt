-- ===== src/Hyperv/Disks.antt =====
-- Resizing a machine and expanding its disk (pkg/hyperv/engine.go).
use crybaby.Base.{
  ℕ, ◌*◌, ◌%◌, ◌^◌, ◌≤◌, ◌<◌, ◌≡◌, String, ℤ, true, false, text_discrete, none, some, text_eq, ◌⊎◌,
  inl, inr, arith, Option-cases, ◌↔◌,
}
use crybaby.Base.Assoc.{lookup, lookup-insert_self}
use crybaby.Base.Int.{nonpositive}
use crybaby.Base.Result.{ok, err, Result-cases}
use crybaby.Hyperv.Lifecycle.{on_vm_other}
use crybaby.Hyperv.Simulated.OnVm.{on_vm_changed, on_vm_refused}
use crybaby.Hyperv.Simulated.{
  SimulatedEngine, vm_not_found, cpu_too_small, memory_too_small, gib, store_vm,
}
use crybaby.Hyperv.Simulated.Machines.{resize_vm, expand_disk, expanded}
use crybaby.Types.Vm.{VirtualMachine}

-- No disk ever shrinks, whatever size is asked for and however the request ends.
pub expand_disk-grows :
    (s : SimulatedEngine) (id : String) (size : ℕ) (k : String) (old new : VirtualMachine)
    → lookup k s.vms ≡ some old
    → lookup k (expand_disk s id size).0.vms ≡ some new
    → old.disk_size_bytes ≤ new.disk_size_bytes
unfolding expand_disk
expand_disk-grows s id size k old new found later = elim (text_discrete k id) [
  | no ne ↦ ground (arith, on_vm_other s id (expanded size) k ne)
  | yes same ↦ elim (Result-cases (expanded size old)) [
    | inl (bigger, e) ↦ ground (
      arith,
      on_vm_changed s k (expanded size) old bigger found e,
      lookup-insert_self k bigger s.vms,
    )
    | inr (x, e) ↦ ground (arith, on_vm_refused s k (expanded size) old x found e)
  ]
]

-- Below 2^34 GiB a request succeeds exactly if it is for more than the machine has, and then gives
-- exactly what it asks for.
pub expand_disk_exact :
    (s : SimulatedEngine) (id : String) (size : ℕ) (vm : VirtualMachine)
    → lookup id s.vms ≡ some vm
    → size < 2 ^ 34
    → (((expand_disk s id size).1 ≡ ok tt) ↔ (vm.disk_size_bytes < size * gib))
      × ((expand_disk s id size).1 ≡ ok tt
          → lookup id (expand_disk s id size).0.vms
            ≡ some (record vm { disk_size_bytes = size * gib }))
unfolding expand_disk
expand_disk_exact s id size vm found bound =
    let fits : size * gib % 2 ^ 64 ≡ size * gib = omega arith in
    (
      (ground arith, ground arith),
      ground (arith, lookup-insert_self id (record vm { disk_size_bytes = size * gib }) s.vms),
    )

-- Every outcome of a resize: the machine must exist, then have a processor, then 512 MB.
pub resize_vm_cases :
    (s : SimulatedEngine) (id : String) (cpu : ℤ) (mem : ℕ)
    → ((lookup id s.vms ≡ none) × (resize_vm s id cpu mem ≡ (s, err (vm_not_found id))))
      ⊎ ((vm : VirtualMachine) × (lookup id s.vms ≡ some vm)
          × (((nonpositive cpu ≡ true) × (resize_vm s id cpu mem ≡ (s, err cpu_too_small)))
              ⊎ ((nonpositive cpu ≡ false)
                  × (mem < 512)
                  × (resize_vm s id cpu mem ≡ (s, err memory_too_small)))
              ⊎ ((nonpositive cpu ≡ false)
                  × (512 ≤ mem)
                  × (resize_vm s id cpu mem
                      ≡ (store_vm s id (record vm { cpu_count = cpu; memory_mb = mem }), ok tt)))))
unfolding resize_vm
resize_vm_cases s id cpu mem = elim (Option-cases (lookup id s.vms)) [
  | inl missing ↦ inl (missing, ground arith)
  | inr (vm, found) ↦ inr (vm, found, ground arith)
]
