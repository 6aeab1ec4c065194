-- ===== src/Agent/Calls/Serve.antt =====
-- Histories of requests to an agent with the simulated engine (cmd/agent/main.go with
-- pkg/hyperv/engine.go).
use crybaby.Agent.{method_not_allowed}
use crybaby.Agent.Calls.Handlers.{serve-OneCall}
use crybaby.Agent.Host.{serve}
use crybaby.Agent.Vms.{handle_resize, handle_expand_disk, handle_clone, handle_action}
use crybaby.Base.{text_discrete, ◌≡◌, String, List, [], ◌∷◌, text_eq, ◌⊎◌, inl, inr, arith, some}
use crybaby.Base.Assoc.{lookup, lookup-insert_self}
use crybaby.Types.Vm.{VirtualMachine}
use crybaby.Hyperv.Simulated.Machines.{started, start_vm, halted, stop_vm, restarted, restart_vm}
use crybaby.Base.Unicode.{Unicode}
use crybaby.Http.{post, method_eq, Request, Decoders}
use crybaby.Hyperv.Calls.{simulated}
use crybaby.Hyperv.Engine.{Clock}
use crybaby.Hyperv.Simulated.{SimulatedEngine, new_simulated_engine}
use crybaby.Hyperv.Invariant.{IsValid, new_simulated_engine-IsValid}
use crybaby.Hyperv.Invariant.Keeps.{step-IsValid}
use crybaby.Types.Node.{Time}

-- The engine after a list of requests, each with its own reading of the clock.
unfoldable pub serve_all :
    Unicode → Decoders → SimulatedEngine → List (Clock × Request) → SimulatedEngine
serve_all u d s [] = s
serve_all u d s ((c, r) ∷ rs) = serve_all u d (serve (simulated u) d c s r).0 rs

pub serve-IsValid :
    (u : Unicode) (d : Decoders) (c : Clock) (s : SimulatedEngine) (r : Request)
    → IsValid u s
    → IsValid u (serve (simulated u) d c s r).0
serve-IsValid u d c s r v = elim (serve-OneCall u d c s r).one [
  | inl same ↦ rw same v
  | inr (call, stepped) ↦ rw stepped (step-IsValid u s call v)
]

serve_all_keeps :
    (u : Unicode) (d : Decoders) (s : SimulatedEngine) (rs : List (Clock × Request))
    → IsValid u s
    → IsValid u (serve_all u d s rs)
unfolding serve_all
serve_all_keeps u d s [] v = v
serve_all_keeps u d s ((c, r) ∷ rs) v =
    serve_all_keeps u d (serve (simulated u) d c s r).0 rs (serve-IsValid u d c s r v)

-- Whatever requests an agent is sent, in whatever order, the engine that it began with stays
-- valid: every machine under its own identifier and under one name up to case, stopped machines
-- at rest, and no checkpoint without its machine.
pub serve_all-IsValid :
    (u : Unicode) (d : Decoders) (node_id : String) (now : Time) (rs : List (Clock × Request))
    → IsValid u (serve_all u d (new_simulated_engine node_id now) rs)
serve_all-IsValid u d node_id now rs =
    serve_all_keeps u d (new_simulated_engine node_id now) rs
      (new_simulated_engine-IsValid u node_id now)

-- Starting, stopping and restarting a machine that exists are carried out and answered with 200
-- under every method, GET included, where resizing, expanding and cloning answer 405 to all but POST
-- and change nothing.
pub start_any_method :
    (u : Unicode) (d : Decoders) (c : Clock) (s : SimulatedEngine) (r : Request) (id : String)
    (rest : List String) (v : VirtualMachine)
    → lookup id s.vms ≡ some v
    → let t = λ (action : String). handle_action (simulated u) d c s r id action rest in
      (lookup id (t "start").0.vms ≡ some (started v))
      × ((t "start").1.code ≡ 200)
      × (lookup id (t "stop").0.vms ≡ some (halted v))
      × ((t "stop").1.code ≡ 200)
      × (lookup id (t "restart").0.vms ≡ some (restarted v))
      × ((t "restart").1.code ≡ 200)
      × ((t "resize" ≡ (s, method_not_allowed)) ⊎ (r.method ≡ post))
      × ((t "expand-disk" ≡ (s, method_not_allowed)) ⊎ (r.method ≡ post))
      × ((t "clone" ≡ (s, method_not_allowed)) ⊎ (r.method ≡ post))
unfolding handle_action start_vm stop_vm restart_vm text_discrete handle_resize handle_expand_disk
    handle_clone
start_any_method u d c s r id rest v found = (
  ground (arith, lookup-insert_self id (started v) s.vms),
  ground arith,
  ground (arith, lookup-insert_self id (halted v) s.vms),
  ground arith,
  ground (arith, lookup-insert_self id (restarted v) s.vms),
  ground arith,
  ground arith,
  ground arith,
  ground arith,
)
