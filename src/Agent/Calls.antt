-- ===== src/Agent/Calls.antt =====
-- What one request does to a simulated engine: at most one of the engine's calls, and nothing if
-- the answer is an error (cmd/agent/main.go with pkg/hyperv/engine.go).
pub mod Handlers
pub mod Serve
pub mod Steps
pub mod Windows
use crybaby.Agent.{Response, Task, answer, respond, failure, Payload}
use crybaby.Agent.Host.{dispatch, serve, Route, route}
use crybaby.Agent.Vms.{
  handle_vms, handle_vm, handle_checkpoints, handle_resize, handle_expand_disk, handle_clone,
  handle_action, handle_vm_parts, handle_vm_path, handle_switches, decoding,
}
use crybaby.Base.{
  ℕ, ◌<◌, ◌≤◌, ◌≡◌, refl, String, Bool, true, false, List, [], ◌∷◌, ◌==◌, text_eq, ◌⊎◌, inl, inr,
  arith, Bool-cases, Option, some, none, if◌then◌else◌, ◌&&◌,
}
use crybaby.Base.Assoc.{lookup}
use crybaby.Base.Result.{Result, ok, err, Result-cases}
use crybaby.Base.Strings.{split, trim_prefix}
use crybaby.Base.Unicode.{Unicode}
use crybaby.Http.{Method, get, post, put, delete, other, method_eq, Request, Decoders}
use crybaby.Hyperv.Calls.{
  simulated, told, Update, start, restart, stop, resize, expand, update_vm, Call, create, clone,
  update, ensure_switch, checkpoint, delete_checkpoint, step,
}
use crybaby.Hyperv.Calls
use crybaby.Hyperv.Engine.{Clock}
use crybaby.Hyperv.Simulated.{SimulatedEngine, Error}
use crybaby.Hyperv.Simulated.Machines
use crybaby.Hyperv.Simulated.Checkpoints

-- One call of the engine or none; none if the answer is an error.
pub record OneCall (u : Unicode) (s : SimulatedEngine) (t : SimulatedEngine) (code : ℕ)
    : Type 0 where
  pub one : (t ≡ s) ⊎ ((c : Call) × (t ≡ step u s c))
  pub failed : 400 ≤ code → t ≡ s

-- A read leaves the engine as it was.
pub OneCall-none : (u : Unicode) (s : SimulatedEngine) (code : ℕ) → OneCall u s s code
OneCall-none u s code = record { one = inl refl; failed = λ _. refl }

-- An operation that leaves the engine as it was when it returns an error.
pub OneCall-respond :
    {A : Type 0} (u : Unicode) (s : SimulatedEngine) (c : Call)
    (r : SimulatedEngine × Result Error A) (code : ℕ) (f : A → Response)
    → r.0 ≡ step u s c
    → ((e : Error) → r.1 ≡ err e → r.0 ≡ s)
    → ((a : A) → (f a).code < 400)
    → let t = respond (r.0, told r.1) code f in OneCall u s t.0 t.1.code
OneCall-respond u s c (t, ok a) code f stepped kept good = record {
  one = inr (c, stepped);
  failed = λ h. absurd (omega (arith, good a));
}
OneCall-respond u s c (t, err e) code f stepped kept good = record {
  one = inl (kept e refl);
  failed = λ _. kept e refl;
}

pub OneCall-read :
    {A : Type 0} (u : Unicode) (s : SimulatedEngine) (r : Result Error A) (code : ℕ)
    (f : A → Response)
    → let t = respond (s, told r) code f in OneCall u s t.0 t.1.code
OneCall-read u s (ok a) code f = OneCall-none u s _
OneCall-read u s (err e) code f = OneCall-none u s _

pub update_vm_failed :
    (s : SimulatedEngine) (id : String) (c : Update) (e : Error)
    → (update_vm s id c).1 ≡ err e
    → (update_vm s id c).0 ≡ s
unfolding update_vm Machines.start_vm Machines.restart_vm Machines.stop_vm Machines.resize_vm
    Machines.expand_disk
update_vm_failed s id start e h = ground arith
update_vm_failed s id restart e h = ground arith
update_vm_failed s id (stop force) e h = ground arith
update_vm_failed s id (resize cpu mem) e h = ground arith
update_vm_failed s id (expand size) e h = ground arith

pub create_vm_failed :
    (u : Unicode) (c : Clock) (s : SimulatedEngine) (req : _) (e : Error)
    → (Machines.create_vm u c s req).1 ≡ err e
    → (Machines.create_vm u c s req).0 ≡ s
unfolding Machines.create_vm
create_vm_failed u c s req e h = ground arith

pub clone_vm_failed :
    (u : Unicode) (c : Clock) (s : SimulatedEngine) (id name : String) (e : Error)
    → (Machines.clone_vm u c s id name).1 ≡ err e
    → (Machines.clone_vm u c s id name).0 ≡ s
unfolding Machines.clone_vm
clone_vm_failed u c s id name e h = ground arith

pub delete_vm_failed :
    (s : SimulatedEngine) (id : String) (disk : Bool) (e : Error)
    → (Machines.delete_vm s id disk).1 ≡ err e
    → (Machines.delete_vm s id disk).0 ≡ s
unfolding Machines.delete_vm
delete_vm_failed s id disk e h = ground arith

pub create_checkpoint_failed :
    (c : Clock) (s : SimulatedEngine) (id name : String) (e : Error)
    → (Checkpoints.create_checkpoint c s id name).1 ≡ err e
    → (Checkpoints.create_checkpoint c s id name).0 ≡ s
unfolding Checkpoints.create_checkpoint
create_checkpoint_failed c s id name e h = ground arith

pub delete_checkpoint_failed :
    (s : SimulatedEngine) (id name : String) (e : Error)
    → (Checkpoints.delete_checkpoint s id name).1 ≡ err e
    → (Checkpoints.delete_checkpoint s id name).0 ≡ s
unfolding Checkpoints.delete_checkpoint
delete_checkpoint_failed s id name e h = ground arith
