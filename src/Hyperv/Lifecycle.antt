-- ===== src/Hyperv/Lifecycle.antt =====
-- Starting, stopping, restarting, resizing: what the calls on existing machines do in sequence
-- (pkg/hyperv/engine.go).
use crybaby.Base.{
  length, ◌≡◌, refl, sym, String, Bool, List, none, some, text_eq, ◌≢◌, inl, inr, arith,
  Option-cases,
}
use crybaby.Base.Assoc.{
  lookup, lookup-insert_self, lookup-insert_ne, insert-insert_comm, insert-insert_self,
  length-insert_old,
}
use crybaby.Base.Result.{Result, ok, err, Result-cases}
use crybaby.Hyperv.Calls.{Update, start, restart, stop, resize, expand, update_vm}
use crybaby.Hyperv.Simulated.{SimulatedEngine, Error, store_vm, on_vm}
use crybaby.Hyperv.Simulated.OnVm.{on_vm_missing, on_vm_changed, on_vm_refused}
use crybaby.Hyperv.Simulated.Machines.{
  start_vm, restart_vm, stop_vm, resize_vm, expand_disk, started, halted, restarted, resized,
  expanded,
}
use crybaby.Types.Vm.{VirtualMachine}

abbrev pub Change : Type 0
Change = VirtualMachine → Result Error VirtualMachine

-- What an operation on one VM does depends on the VM alone: it is refused, or stores a new value.
data Outcome (m : List (String × VirtualMachine)) (k : String) (f : Change) : Type 0 where
  missing : lookup k m ≡ none → Outcome m k f
  refused :
      (old : VirtualMachine) (x : Error) → lookup k m ≡ some old → f old ≡ err x → Outcome m k f
  changed : (old new : VirtualMachine) → lookup k m ≡ some old → f old ≡ ok new → Outcome m k f

outcome : (m : List (String × VirtualMachine)) (k : String) (f : Change) → Outcome m k f
outcome m k f = elim (Option-cases (lookup k m)) [
  | inl e ↦ missing e
  | inr (old, found) ↦ elim (Result-cases (f old)) [
    | inl (new, e) ↦ changed old new found e
    | inr (x, e) ↦ refused old x found e
  ]
]

-- The other machines, and all else, are left alone.
pub on_vm_other :
    (s : SimulatedEngine) (k : String) (f : Change) (j : String)
    → j ≢ k
    → lookup j (on_vm s k f).0.vms ≡ lookup j s.vms
on_vm_other s k f j ne = go (outcome s.vms k f)
  where
    go : Outcome s.vms k f → lookup j (on_vm s k f).0.vms ≡ lookup j s.vms
    go (missing e) = rw (on_vm_missing s k f e)
    go (refused old x found e) = rw (on_vm_refused s k f old x found e)
    go (changed old new found e) =
        rw (on_vm_changed s k f old new found e) (lookup-insert_ne k j new s.vms ne)

unfoldable pub change_of : Update → Change
change_of start vm = ok (started vm)
change_of restart vm = ok (restarted vm)
change_of (stop force) vm = ok (halted vm)
change_of (resize cpu mem) vm = resized cpu mem vm
change_of (expand size) vm = expanded size vm

update_vm-change :
    (s : SimulatedEngine) (id : String) (c : Update) → update_vm s id c ≡ on_vm s id (change_of c)
unfolding update_vm start_vm restart_vm stop_vm resize_vm expand_disk change_of
update_vm-change s id start = refl
update_vm-change s id restart = refl
update_vm-change s id (stop force) = refl
update_vm-change s id (resize cpu mem) = refl
update_vm-change s id (expand size) = refl

module _ (s : SimulatedEngine) (j k : String) (f g : Change) (ne : j ≢ k) where
  comm_of_outcomes :
      Outcome s.vms j f
      → Outcome s.vms k g
      → (on_vm (on_vm s j f).0 k g).0 ≡ (on_vm (on_vm s k g).0 j f).0
  comm_of_outcomes (changed old new found e) (changed old' new' found' e') = ground (
    arith,
    lookup-insert_ne j k new s.vms (λ same. ne (sym same)),
    lookup-insert_ne k j new' s.vms ne,
    insert-insert_comm j k new new' s.vms ne,
  )
  comm_of_outcomes (changed old new found e) (missing e') =
      ground (arith, lookup-insert_ne j k new s.vms (λ same. ne (sym same)))
  comm_of_outcomes (changed old new found e) (refused old' x' found' e') =
      ground (arith, lookup-insert_ne j k new s.vms (λ same. ne (sym same)))
  comm_of_outcomes (missing e) (changed old' new' found' e') =
      ground (arith, lookup-insert_ne k j new' s.vms ne)
  comm_of_outcomes (refused old x found e) (changed old' new' found' e') =
      ground (arith, lookup-insert_ne k j new' s.vms ne)
  comm_of_outcomes (missing e) (missing e') = ground arith
  comm_of_outcomes (missing e) (refused old' x' found' e') = ground arith
  comm_of_outcomes (refused old x found e) (missing e') = ground arith
  comm_of_outcomes (refused old x found e) (refused old' x' found' e') = ground arith

-- Changes of two different machines end in one state in either order, with whatever outcome: the
-- engine's lock may admit concurrent requests about them in any order.
pub update_vm-update_vm_comm :
    (s : SimulatedEngine) (j k : String) (c d : Update)
    → j ≢ k
    → (update_vm (update_vm s j c).0 k d).0 ≡ (update_vm (update_vm s k d).0 j c).0
update_vm-update_vm_comm s j k c d ne =
    rw
      (
        update_vm-change s j c,
        update_vm-change s k d,
        update_vm-change (on_vm s j (change_of c)).0 k d,
        update_vm-change (on_vm s k (change_of d)).0 j c,
      )
      (comm_of_outcomes s j k (change_of c) (change_of d) ne (outcome s.vms j (change_of c))
        (outcome s.vms k (change_of d)))

-- A change of one machine leaves the other machines, the checkpoints, the switches and the number
-- of machines as they are, and succeeds only on a machine that exists.
pub update_vm_frame :
    (s : SimulatedEngine) (k : String) (c : Update)
    → let t = (update_vm s k c).0 in
      ((j : String) → j ≢ k → lookup j t.vms ≡ lookup j s.vms)
      × (t.checkpoints ≡ s.checkpoints)
      × (t.switches ≡ s.switches)
      × (length t.vms ≡ length s.vms)
      × ((update_vm s k c).1 ≡ ok tt → lookup k s.vms ≢ none)
update_vm_frame s k c = rw (update_vm-change s k c) (go (outcome s.vms k (change_of c)))
  where
    f : Change
    f = change_of c

    go :
        Outcome s.vms k f
        → ((j : String) → j ≢ k → lookup j (on_vm s k f).0.vms ≡ lookup j s.vms)
          × ((on_vm s k f).0.checkpoints ≡ s.checkpoints)
          × ((on_vm s k f).0.switches ≡ s.switches)
          × (length (on_vm s k f).0.vms ≡ length s.vms)
          × ((on_vm s k f).1 ≡ ok tt → lookup k s.vms ≢ none)
    go (missing e) = (on_vm_other s k f, ground arith, ground arith, ground arith, ground arith)
    go (refused old x found e) =
        (on_vm_other s k f, ground arith, ground arith, ground arith, ground arith)
    go (changed old new found e) = (
      on_vm_other s k f,
      ground arith,
      ground arith,
      ground (arith, length-insert_old k new s.vms),
      ground arith,
    )

-- Power commands on one machine that exists: the last one decides its state, and a forced stop is
-- a stop. Restarting a machine keeps the addresses that starting it gave.
pub last_power_command_decides :
    (s : SimulatedEngine) (k : String) (vm : VirtualMachine) (force force' : Bool)
    → lookup k s.vms ≡ some vm
    → ((stop_vm (start_vm s k).0 k force).0 ≡ (stop_vm s k force').0)
      × ((start_vm (stop_vm s k force).0 k).0 ≡ (start_vm s k).0)
      × ((stop_vm (restart_vm s k).0 k force).0 ≡ (stop_vm s k force').0)
      × ((restart_vm (start_vm s k).0 k).0 ≡ store_vm s k (restarted (started vm)))
unfolding start_vm stop_vm restart_vm
last_power_command_decides s k vm force force' found = (
  ground (
    arith,
    lookup-insert_self k (started vm) s.vms,
    insert-insert_self k (halted vm) (started vm) s.vms,
  ),
  ground (
    arith,
    lookup-insert_self k (halted vm) s.vms,
    insert-insert_self k (started vm) (halted vm) s.vms,
  ),
  ground (
    arith,
    lookup-insert_self k (restarted vm) s.vms,
    insert-insert_self k (halted vm) (restarted vm) s.vms,
  ),
  ground (
    arith,
    lookup-insert_self k (started vm) s.vms,
    insert-insert_self k (restarted (started vm)) (started vm) s.vms,
  ),
)
