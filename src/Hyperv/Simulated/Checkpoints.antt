-- ===== src/Hyperv/Simulated/Checkpoints.antt =====
-- The operations of `simulatedEngine` on virtual switches and on checkpoints.
use crybaby.Base.{
  ◌%◌, String, Bool, false, ◌||◌, List, [], ◌∷◌, ◌++◌, Option, none, some, ◌==◌, text_eq, nat_eq,
  if◌then◌else◌,
}
use crybaby.Base.Assoc.{lookup, insert}
use crybaby.Base.Decimal.{show}
use crybaby.Base.Result.{Result, ok, err}
use crybaby.Base.Text.{◌<>◌}
use crybaby.Hyperv.Engine.{Clock}
use crybaby.Types.Node.{Time}
use crybaby.Types.Vm.{VmCheckpoint}
use mathlib.Core.Option
use crybaby.Hyperv.Simulated.{SimulatedEngine, Error, vm_not_found, checkpoint_not_found}

unfoldable pub list_virtual_switches : SimulatedEngine → List String
list_virtual_switches s = s.switches

unfoldable pub has_switch : String → List String → Bool
has_switch name [] = false
has_switch name (sw ∷ sws) = sw == name || has_switch name sws

unfoldable pub ensure_virtual_switch : SimulatedEngine → String → SimulatedEngine
unfolding has_switch
ensure_virtual_switch s name =
    if has_switch name s.switches then s else record s { switches = s.switches ++ name ∷ [] }

-- The checkpoints of a VM: a missing key of a Go map reads as the empty list.
abbrev pub checkpoints_of : SimulatedEngine → String → List VmCheckpoint
checkpoints_of s vm_id = Option.get_or (lookup vm_id s.checkpoints) []

-- `fmt.Sprintf("cp-%d", time.Now().UnixNano()%1000000)`
abbrev pub checkpoint_named : Time → String
checkpoint_named stamp = "cp-" <> show (stamp % 1000000)

abbrev pub new_checkpoint : Clock → String → String → VmCheckpoint
new_checkpoint c vm_id name = record {
  id = checkpoint_named c.stamp;
  vm_id = vm_id;
  name = if name == "" then "Snapshot-" <> c.formatted else name;
  created_at = c.now;
}

unfoldable pub create_checkpoint :
    Clock → SimulatedEngine → String → String → SimulatedEngine × Result Error VmCheckpoint
create_checkpoint c s vm_id name = elim (lookup vm_id s.vms) [
  | none ↦ (s, err (vm_not_found vm_id))
  | some vm ↦
      let cp = new_checkpoint c vm.id name in
      (
        record s { checkpoints = insert vm_id (checkpoints_of s vm_id ++ cp ∷ []) s.checkpoints },
        ok cp,
      )
]

unfoldable pub list_checkpoints : SimulatedEngine → String → Result Error (List VmCheckpoint)
list_checkpoints s vm_id = elim (lookup vm_id s.vms) [
  | none ↦ err (vm_not_found vm_id)
  | some vm ↦ ok (checkpoints_of s vm_id)
]

abbrev pub is_called : String → VmCheckpoint → Bool
is_called name cp = cp.name == name || cp.id == name

unfoldable pub has_checkpoint : String → List VmCheckpoint → Bool
has_checkpoint name [] = false
has_checkpoint name (cp ∷ cps) = is_called name cp || has_checkpoint name cps

-- The simulation keeps no contents to restore.
unfoldable pub restore_checkpoint : SimulatedEngine → String → String → Result Error (Unit {0})
unfolding has_checkpoint
restore_checkpoint s vm_id name = elim (lookup vm_id s.vms) [
  | none ↦ err (vm_not_found vm_id)
  | some vm ↦
      if has_checkpoint name (checkpoints_of s vm_id)
      then ok tt
      else err (checkpoint_not_found name)
]

-- `append(list[:i], list[i+1:]...)` at the first checkpoint of the name, if there is one
unfoldable pub without_checkpoint : String → List VmCheckpoint → Option (List VmCheckpoint)
without_checkpoint name [] = none
without_checkpoint name (cp ∷ cps) =
    if is_called name cp
    then some cps
    else Option.map (λ rest. cp ∷ rest) (without_checkpoint name cps)

unfoldable pub delete_checkpoint :
    SimulatedEngine → String → String → SimulatedEngine × Result Error (Unit {0})
unfolding without_checkpoint
delete_checkpoint s vm_id name = elim (lookup vm_id s.vms) [
  | none ↦ (s, err (vm_not_found vm_id))
  | some vm ↦ elim (without_checkpoint name (checkpoints_of s vm_id)) [
    | none ↦ (s, err (checkpoint_not_found name))
    | some rest ↦ (record s { checkpoints = insert vm_id rest s.checkpoints }, ok tt)
  ]
]
