-- ===== src/Hyperv/Snapshots.antt =====
-- Checkpoints: creating, listing, restoring and deleting them (pkg/hyperv/engine.go).
use crybaby.Base.{
  ◌≡◌, refl, ap, subst, String, true, false, List, [], ◌∷◌, ◌++◌, some, text_eq, ◌≢◌, inl, inr,
  arith, Bool-cases, Option-cases,
}
use crybaby.Base.Assoc.{lookup, insert, lookup-insert_self, lookup-insert_ne}
use crybaby.Base.Result.{ok}
use crybaby.Hyperv.Engine.{Clock}
use crybaby.Hyperv.Simulated.{SimulatedEngine}
use crybaby.Hyperv.Simulated.Checkpoints.{
  checkpoints_of, new_checkpoint, create_checkpoint, list_checkpoints, is_called, has_checkpoint,
  restore_checkpoint, without_checkpoint, delete_checkpoint,
}
use crybaby.Types.Vm.{VirtualMachine, VmCheckpoint}

has_checkpoint-append :
    (name : String) (cps : List VmCheckpoint) (cp : VmCheckpoint)
    → is_called name cp ≡ true
    → has_checkpoint name (cps ++ cp ∷ []) ≡ true
unfolding has_checkpoint
has_checkpoint-append name [] cp h = ground arith
has_checkpoint-append name (x ∷ cps) cp h = ground (arith, has_checkpoint-append name cps cp h)

-- A new checkpoint of a machine that exists is listed after the earlier ones, can be restored at
-- once by its name and by its identifier, and other machines' checkpoints stay as they were.
pub create_checkpoint_lem :
    (c : Clock) (s : SimulatedEngine) (id name : String) (vm : VirtualMachine)
    → lookup id s.vms ≡ some vm
    → let t = (create_checkpoint c s id name).0 in
      let cp = new_checkpoint c vm.id name in
      ((create_checkpoint c s id name).1 ≡ ok cp)
      × (list_checkpoints t id ≡ ok (checkpoints_of s id ++ cp ∷ []))
      × (restore_checkpoint t id cp.name ≡ ok tt)
      × (restore_checkpoint t id cp.id ≡ ok tt)
      × ((k : String) → k ≢ id → list_checkpoints t k ≡ list_checkpoints s k)
unfolding create_checkpoint list_checkpoints restore_checkpoint
create_checkpoint_lem c s id name vm found =
    let cp = new_checkpoint c vm.id name in
    let old = checkpoints_of s id in
    let new = lookup-insert_self id (old ++ cp ∷ []) s.checkpoints in
    (
      ground arith,
      ground (arith, new),
      ground (arith, new, has_checkpoint-append cp.name old cp (ground arith)),
      ground (arith, new, has_checkpoint-append cp.id old cp (ground arith)),
      (λ k ne. ground (arith, lookup-insert_ne id k (old ++ cp ∷ []) s.checkpoints ne)),
    )

without-append :
    (name : String) (cps : List VmCheckpoint) (cp : VmCheckpoint)
    → has_checkpoint name cps ≡ false
    → is_called name cp ≡ true
    → without_checkpoint name (cps ++ cp ∷ []) ≡ some cps
unfolding has_checkpoint without_checkpoint
without-append name [] cp new h = ground arith
without-append name (x ∷ cps) cp new h = ground (arith, without-append name cps cp)

-- To delete a checkpoint right after its creation for a machine that exists, by a name that is not
-- empty and that no earlier one answers to, brings the list of checkpoints back.
pub create_checkpoint-delete_checkpoint :
    (c : Clock) (s : SimulatedEngine) (id name : String) (vm : VirtualMachine)
    → lookup id s.vms ≡ some vm
    → name ≢ ""
    → has_checkpoint name (checkpoints_of s id) ≡ false
    → let t = delete_checkpoint (create_checkpoint c s id name).0 id name in
      (t.1 ≡ ok tt) × (list_checkpoints t.0 id ≡ list_checkpoints s id)
unfolding create_checkpoint delete_checkpoint list_checkpoints
create_checkpoint-delete_checkpoint c s id name vm found named new =
    let cp = new_checkpoint c vm.id name in
    let old = checkpoints_of s id in
    let stored = lookup-insert_self id (old ++ cp ∷ []) s.checkpoints in
    let removed = without-append name old cp new (ground arith) in
    let again = lookup-insert_self id old (insert id (old ++ cp ∷ []) s.checkpoints) in
    (ground (arith, stored, removed), ground (arith, stored, removed, again))

-- What `DeleteCheckpoint` takes out of a list: the first checkpoint that answers to the name.
pub record FirstOut (name : String) (cps rest : List VmCheckpoint) : Type 0 where
  pub before : List VmCheckpoint
  pub out : VmCheckpoint
  pub behind : List VmCheckpoint
  pub whole : cps ≡ before ++ out ∷ behind
  pub left : rest ≡ before ++ behind
  pub called : is_called name out ≡ true
  pub passed : has_checkpoint name before ≡ false

FirstOut-cons :
    (name : String) (cp : VmCheckpoint) (cps rest : List VmCheckpoint)
    → is_called name cp ≡ false
    → FirstOut name cps rest
    → FirstOut name (cp ∷ cps) (cp ∷ rest)
unfolding has_checkpoint
FirstOut-cons name cp cps rest other f = record {
  before = cp ∷ f.before;
  out = f.out;
  behind = f.behind;
  whole = ap (◌∷◌ cp) f.whole;
  left = ap (◌∷◌ cp) f.left;
  called = f.called;
  passed = ground arith;
}

without_checkpoint-FirstOut :
    (name : String) (cps : List VmCheckpoint) {rest : List VmCheckpoint}
    → without_checkpoint name cps ≡ some rest
    → FirstOut name cps rest
unfolding without_checkpoint has_checkpoint
without_checkpoint-FirstOut name [] e = absurd (cc)
without_checkpoint-FirstOut name (cp ∷ cps) {rest} e = elim (Bool-cases (is_called name cp)) [
  | inl here ↦ record {
    before = [];
    out = cp;
    behind = cps;
    whole = refl;
    left = ground arith;
    called = here;
    passed = refl;
  }
  | inr there ↦ elim (Option-cases (without_checkpoint name cps)) [
    | inl missing ↦ absurd (ground arith)
    | inr (r, found) ↦
        let same : cp ∷ r ≡ rest = ground arith in
        subst (FirstOut name (cp ∷ cps)) same
          (FirstOut-cons name cp cps r there (without_checkpoint-FirstOut name cps found))
  ]
]

-- A deletion that succeeds takes out exactly the first checkpoint whose name or identifier was
-- given, and keeps the others in their order.
pub delete_checkpoint-FirstOut :
    (s : SimulatedEngine) (id name : String)
    → (delete_checkpoint s id name).1 ≡ ok tt
    → FirstOut name (checkpoints_of s id) (checkpoints_of (delete_checkpoint s id name).0 id)
unfolding delete_checkpoint
delete_checkpoint-FirstOut s id name success = elim (Option-cases (lookup id s.vms)) [
  | inl missing ↦ absurd (ground arith)
  | inr (vm, found) ↦ elim (Option-cases (without_checkpoint name (checkpoints_of s id))) [
    | inl none_left ↦ absurd (ground arith)
    | inr (rest, e) ↦
        let same : rest ≡ checkpoints_of (delete_checkpoint s id name).0 id =
          ground (arith, lookup-insert_self id rest s.checkpoints) in
        subst (FirstOut name (checkpoints_of s id)) same
          (without_checkpoint-FirstOut name (checkpoints_of s id) e)
  ]
]
