-- ===== src/Tests/Agent.antt =====
-- The theorems on an agent's requests at concrete inputs (cmd/agent/main.go).
use crybaby.Agent.{method_not_allowed}
use crybaby.Agent.Calls.{OneCall}
use crybaby.Agent.Calls.Handlers.{serve-OneCall}
use crybaby.Agent.Calls.Serve.{serve_all, serve_all-IsValid, start_any_method}
use crybaby.Agent.Host.{serve}
use crybaby.Agent.Vms.{handle_action}
use crybaby.Base.{◌⊎◌, String, ◌≡◌, [], ◌∷◌, some, refl, text_discrete}
use crybaby.Base.Assoc.{lookup}
use crybaby.Http.{get, post, Request}
use crybaby.Hyperv.Calls.{simulated}
use crybaby.Hyperv.Invariant.{IsValid}
use crybaby.Hyperv.Simulated.{demo_vm, demo_id, new_simulated_engine}
use crybaby.Hyperv.Simulated.Machines.{started, restarted, halted}
use crybaby.Tests.Samples.{plain, clock, sample_engine, decoders}

abbrev creating : Request
creating = record { method = post; path = "/api/v1/vms"; body = "{}" }

abbrev starting : Request
starting = record { method = get; path = "/api/v1/vms/vm-5/start"; body = "" }

serve_all-IsValid_example : IsValid plain (
    serve_all plain decoders
      (new_simulated_engine "node-1" 0)
      ((clock, creating) ∷ (clock, starting) ∷ []))
serve_all-IsValid_example =
    serve_all-IsValid plain decoders "node-1" 0 ((clock, creating) ∷ (clock, starting) ∷ [])

serve-OneCall_example :
    let t = serve (simulated plain) decoders clock sample_engine creating in
    OneCall plain sample_engine t.0 t.1.code
serve-OneCall_example = serve-OneCall plain decoders clock sample_engine creating

sample_found : lookup demo_id sample_engine.vms ≡ some (demo_vm "node-1" 0)
unfolding lookup text_discrete
sample_found = refl

start_any_method_example :
    let t = λ (action : String).
      handle_action (simulated plain) decoders clock sample_engine starting demo_id action [] in
    (lookup demo_id (t "start").0.vms ≡ some (started (demo_vm "node-1" 0)))
    × ((t "start").1.code ≡ 200)
    × (lookup demo_id (t "stop").0.vms ≡ some (halted (demo_vm "node-1" 0)))
    × ((t "stop").1.code ≡ 200)
    × (lookup demo_id (t "restart").0.vms ≡ some (restarted (demo_vm "node-1" 0)))
    × ((t "restart").1.code ≡ 200)
    × ((t "resize" ≡ (sample_engine, method_not_allowed)) ⊎ (starting.method ≡ post))
    × ((t "expand-disk" ≡ (sample_engine, method_not_allowed)) ⊎ (starting.method ≡ post))
    × ((t "clone" ≡ (sample_engine, method_not_allowed)) ⊎ (starting.method ≡ post))
start_any_method_example =
    start_any_method plain decoders clock sample_engine starting demo_id [] (demo_vm "node-1" 0)
      sample_found
