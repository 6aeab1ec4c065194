-- ===== src/Hyperv/Invariant/Checkpoints.antt =====
-- The operations on checkpoints keep the invariant (pkg/hyperv/engine.go).
use crybaby.Base.{
  ◌≡◌, subst, String, List, [], ◌∷◌, none, some, text_eq, ◌≢◌, inl, inr, arith, All, Bool-cases,
  Option-cases, All-append,
}
use crybaby.Base.Assoc.{lookup, insert}
use crybaby.Base.Assoc.All.{lookup-All, insert-All}
use crybaby.Base.Unicode.{Unicode}
use crybaby.Hyperv.Engine.{Clock}
use crybaby.Hyperv.Invariant.{IsEntry, IsOwned, IsValid}
use crybaby.Hyperv.Simulated.{SimulatedEngine}
use crybaby.Hyperv.Simulated.Checkpoints.{
  ensure_virtual_switch, create_checkpoint, without_checkpoint, is_called, new_checkpoint,
  checkpoints_of,
}
use crybaby.Hyperv.Simulated.Checkpoints
use crybaby.Types.Vm.{VmCheckpoint}

-- The checkpoints under a key, none if it is missing, name the VM.
checkpoints_of-owned :
    (u : Unicode) (s : SimulatedEngine) (k : String)
    → IsValid u s
    → All (λ (cp : VmCheckpoint). cp.vm_id ≡ k) (checkpoints_of s k)
checkpoints_of-owned u s k v = elim (Option-cases (lookup k s.checkpoints)) [
  | inl missing ↦ rw missing tt
  | inr (cps, found) ↦ rw found (lookup-All (IsOwned s.vms) k s.checkpoints v.owned found).1
]

-- Other checkpoints under the key of a VM.
pub store_checkpoints-IsValid :
    (u : Unicode) (s : SimulatedEngine) (k : String) (cps : List VmCheckpoint)
    → lookup k s.vms ≢ none
    → All (λ (cp : VmCheckpoint). cp.vm_id ≡ k) cps
    → IsValid u s
    → IsValid u (record s { checkpoints = insert k cps s.checkpoints })
store_checkpoints-IsValid u s k cps has own v = record {
  keys_distinct = v.keys_distinct;
  entries = v.entries;
  names_distinct = v.names_distinct;
  owned = insert-All (IsOwned s.vms) k cps s.checkpoints (has, own) v.owned;
}

pub create_checkpoint-IsValid :
    (u : Unicode) (c : Clock) (s : SimulatedEngine) (id name : String)
    → IsValid u s
    → IsValid u (create_checkpoint c s id name).0
unfolding create_checkpoint
create_checkpoint-IsValid u c s id name v = elim (Option-cases (lookup id s.vms)) [
  | inl missing ↦ rw (missing, create_checkpoint) v
  | inr (vm, found) ↦
      let entry = lookup-All IsEntry id s.vms v.entries found in
      rw (found, create_checkpoint)
        (store_checkpoints-IsValid u s id _ (ground arith)
          (All-append (λ (cp : VmCheckpoint). cp.vm_id ≡ id) (checkpoints_of s id)
            (new_checkpoint c vm.id name ∷ []) (checkpoints_of-owned u s id v) (entry.0, tt))
          v)
]

without_checkpoint-All :
    (P : VmCheckpoint → Type 0) (name : String) (cps : List VmCheckpoint) {rest : List VmCheckpoint}
    → without_checkpoint name cps ≡ some rest
    → All P cps
    → All P rest
unfolding without_checkpoint
without_checkpoint-All P name [] e h = cc
without_checkpoint-All P name (cp ∷ cps) {rest} e h = elim (Bool-cases (is_called name cp)) [
  | inl here ↦ let same : cps ≡ rest = ground arith in subst (All P) same h.1
  | inr there ↦ elim (Option-cases (without_checkpoint name cps)) [
    | inl missing ↦ absurd (ground arith)
    | inr (r, found) ↦
        let same : cp ∷ r ≡ rest = ground arith in
        subst (All P) same (h.0, without_checkpoint-All P name cps found h.1)
  ]
]

pub delete_checkpoint-IsValid :
    (u : Unicode) (s : SimulatedEngine) (id name : String)
    → IsValid u s
    → IsValid u (Checkpoints.delete_checkpoint s id name).0
unfolding Checkpoints.delete_checkpoint
delete_checkpoint-IsValid u s id name v = elim (Option-cases (lookup id s.vms)) [
  | inl missing ↦ rw (missing, Checkpoints.delete_checkpoint) v
  | inr (vm, found) ↦ elim (Option-cases (without_checkpoint name (checkpoints_of s id))) [
    | inl absent ↦
        rw (found, Checkpoints.delete_checkpoint, absent, Checkpoints.delete_checkpoint) v
    | inr (rest, e) ↦
        rw (found, Checkpoints.delete_checkpoint, e, Checkpoints.delete_checkpoint)
          (store_checkpoints-IsValid u s id rest (ground arith)
            (without_checkpoint-All (λ (cp : VmCheckpoint). cp.vm_id ≡ id) name
              (checkpoints_of s id) e (checkpoints_of-owned u s id v))
            v)
  ]
]
