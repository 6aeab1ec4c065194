-- ===== src/Hyperv/Windows/Checkpoints.antt =====
-- The operations of `windowsEngine` on checkpoints and switches (pkg/hyperv/engine.go).
use crybaby.Base.{ℕ, suc, ◌%◌, String, List, [], ◌∷◌, none, some, ◌==◌, text_eq, if◌then◌else◌}
use crybaby.Base.Decimal.{show}
use crybaby.Base.Result.{ok, err}
use crybaby.Base.Spaces.{trim_space, has_prefix}
use crybaby.Base.Text.{◌<>◌}
use crybaby.Hyperv.Engine.{Clock, Returns}
use crybaby.Hyperv.Windows.{Host, PsSnap, command, failed}
use crybaby.Hyperv.Windows.Machines.{is_blank, bracketed}
use crybaby.Hyperv.Windows.Scripts.{
  switches_script, ensure_switch_script, checkpoint_script, checkpoints_script, restore_script,
  delete_checkpoint_script,
}
use crybaby.Types.Node.{Time}
use crybaby.Types.Vm.{VmCheckpoint}

abbrev pub default_switches : List String
default_switches = "Default Switch" ∷ []

-- `if len(list) > 0 { return list }`, and the default otherwise
abbrev pub or_default : List String → List String
or_default [] = default_switches
or_default (x ∷ xs) = x ∷ xs

-- The checkpoints that `ListCheckpoints` makes, each with its reading of the clock.
unfoldable pub listed_checkpoints : String → (ℕ → Time) → ℕ → List PsSnap → List VmCheckpoint
listed_checkpoints vm_id clock i [] = []
listed_checkpoints vm_id clock i (item ∷ items) =
    record { id = item.id; vm_id = vm_id; name = item.name; created_at = clock i }
    ∷ listed_checkpoints vm_id clock (suc i) items

-- The name of `CreateCheckpoint`: the time where none is given.
abbrev pub checkpoint_name : Clock → String → String
checkpoint_name c name = if name == "" then "Snapshot-" <> c.formatted else name

module _ {S : Type 0} (h : Host S) where
  -- What `ListVirtualSwitches` makes of the text that was printed.
  unfoldable pub read_switches : String → List String
  read_switches out =
      if is_blank out
      then default_switches
      else if has_prefix out "["
      then or_default (h.decode_names out)
      else if has_prefix out "\""
      then (let single = h.decode_name out in
          if single == "" then default_switches else single ∷ [])
      else default_switches

  unfoldable pub list_virtual_switches : S → Returns S (List String)
  unfolding read_switches
  list_virtual_switches s =
      let (s', out, e) = h.execute s switches_script in
      elim e [
        | some m ↦ (s', ok default_switches)
        | none ↦ (s', ok (read_switches (trim_space out)))
      ]

  unfoldable pub ensure_virtual_switch : S → String → Returns S (Unit {0})
  ensure_virtual_switch s switch_name =
      let (s', out, e) = h.execute s (ensure_switch_script switch_name) in
      elim e [ none ↦ (s', ok tt) | some m ↦ (s', err m) ]

  -- The checkpoint that `CreateCheckpoint` returns for the text that was printed. If it cannot be
  -- read, the checkpoint is given an identifier of the clock's.
  unfoldable pub read_checkpoint : Clock → String → String → String → VmCheckpoint
  read_checkpoint c vm_id name out = elim (h.decode_snapshot (trim_space out)) [
    | err e ↦ record {
      id = "cp-" <> show (c.stamp % 1000000);
      vm_id = vm_id;
      name = name;
      created_at = c.now;
    }
    | ok s ↦ record { id = s.id; vm_id = vm_id; name = s.name; created_at = c.now }
  ]

  -- `CreateCheckpoint` once the name is settled
  unfoldable pub taking : Clock → S → String → String → Returns S VmCheckpoint
  unfolding read_checkpoint
  taking c s vm_id name =
      let (s', out, e) = h.execute s (checkpoint_script vm_id name) in
      elim e [
        | some m ↦ (s', err (failed "failed to create checkpoint" m out))
        | none ↦ (s', ok (read_checkpoint c vm_id name out))
      ]

  unfoldable pub create_checkpoint : Clock → S → String → String → Returns S VmCheckpoint
  unfolding taking
  create_checkpoint c s vm_id name = taking c s vm_id (checkpoint_name c name)

  -- What `ListCheckpoints` makes of the text that was printed.
  unfoldable pub read_checkpoints : S → String → String → List VmCheckpoint
  unfolding listed_checkpoints
  read_checkpoints s vm_id out =
      if is_blank out then [] else elim (h.decode_snapshots (bracketed out)) [
        | ok raw ↦ listed_checkpoints vm_id (h.clock s) 0 raw
        | err e ↦ []
      ]

  unfoldable pub list_checkpoints : S → String → Returns S (List VmCheckpoint)
  unfolding read_checkpoints
  list_checkpoints s vm_id =
      let (s', out, e) = h.execute s (checkpoints_script vm_id) in
      elim e [ some m ↦ (s', ok []) | none ↦ (s', ok (read_checkpoints s' vm_id (trim_space out))) ]

  unfoldable pub restore_checkpoint : S → String → String → Returns S (Unit {0})
  restore_checkpoint s vm_id name =
      command h "failed to restore checkpoint" s (restore_script vm_id name)

  unfoldable pub delete_checkpoint : S → String → String → Returns S (Unit {0})
  delete_checkpoint s vm_id name =
      command h "failed to delete checkpoint" s (delete_checkpoint_script vm_id name)
