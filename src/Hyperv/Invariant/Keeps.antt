-- ===== src/Hyperv/Invariant/Keeps.antt =====
-- Every operation of the simulated engine keeps its invariant (pkg/hyperv/engine.go).
use crybaby.Base.{String, List, [], ◌∷◌, text_eq, arith}
use crybaby.Base.Result.{ok}
use crybaby.Base.Unicode.{Unicode}
use crybaby.Hyperv.Calls.{
  Update, start, restart, stop, resize, expand, update_vm, Call, create, clone, update, delete,
  ensure_switch, checkpoint, delete_checkpoint, step, run,
}
use crybaby.Hyperv.Invariant.{IsValid}
use crybaby.Hyperv.Simulated.{SimulatedEngine}
use crybaby.Hyperv.Simulated.Machines.{
  start_vm, restart_vm, stop_vm, resize_vm, expand_disk, started, halted, restarted, resized,
  expanded,
}
use crybaby.Hyperv.Simulated.Checkpoints.{ensure_virtual_switch}
use crybaby.Hyperv.Invariant.Updates.{
  on_vm-IsValid, always-Updates, started-Updates, halted-Updates, restarted-Updates,
  resized-Updates, expanded-Updates,
}
use crybaby.Hyperv.Invariant.Machines.{create_vm-IsValid, clone_vm-IsValid, delete_vm-IsValid}
use crybaby.Hyperv.Invariant.Checkpoints.{create_checkpoint-IsValid, delete_checkpoint-IsValid}

pub ensure_virtual_switch-IsValid :
    (u : Unicode) (s : SimulatedEngine) (name : String)
    → IsValid u s
    → IsValid u (ensure_virtual_switch s name)
unfolding ensure_virtual_switch
ensure_virtual_switch-IsValid u s name v = ground arith

update_vm-IsValid :
    (u : Unicode) (s : SimulatedEngine) (id : String) (change : Update)
    → IsValid u s
    → IsValid u (update_vm s id change).0
unfolding update_vm start_vm restart_vm stop_vm resize_vm expand_disk
update_vm-IsValid u s id start v =
    on_vm-IsValid u s id (λ vm. ok (started vm)) (always-Updates started started-Updates) v
update_vm-IsValid u s id restart v =
    on_vm-IsValid u s id (λ vm. ok (restarted vm)) (always-Updates restarted restarted-Updates) v
update_vm-IsValid u s id (stop force) v =
    on_vm-IsValid u s id (λ vm. ok (halted vm)) (always-Updates halted halted-Updates) v
update_vm-IsValid u s id (resize cpu mem) v =
    on_vm-IsValid u s id (resized cpu mem) (resized-Updates cpu mem) v
update_vm-IsValid u s id (expand size) v =
    on_vm-IsValid u s id (expanded size) (expanded-Updates size) v

-- Every call, failed ones included, keeps the engine's invariant.
pub step-IsValid :
    (u : Unicode) (s : SimulatedEngine) (c : Call) → IsValid u s → IsValid u (step u s c)
unfolding step
step-IsValid u s (create c req) v = create_vm-IsValid u c s req v
step-IsValid u s (clone c id name) v = clone_vm-IsValid u c s id name v
step-IsValid u s (update id change) v = update_vm-IsValid u s id change v
step-IsValid u s (delete id disk) v = delete_vm-IsValid u s id disk v
step-IsValid u s (ensure_switch name) v = ensure_virtual_switch-IsValid u s name v
step-IsValid u s (checkpoint c id name) v = create_checkpoint-IsValid u c s id name v
step-IsValid u s (delete_checkpoint id name) v = delete_checkpoint-IsValid u s id name v

-- From a valid engine, every history of calls leads to a valid engine.
pub run-IsValid :
    (u : Unicode) (s : SimulatedEngine) (cs : List Call) → IsValid u s → IsValid u (run u s cs)
unfolding run
run-IsValid u s [] v = v
run-IsValid u s (c ∷ cs) v = run-IsValid u (step u s c) cs (step-IsValid u s c v)
