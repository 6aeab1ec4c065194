-- ===== src/Cluster.antt =====
-- An agent and the controller together: what a turn of the agent's heartbeat (cmd/agent/main.go)
-- does to the controller's registry (cmd/controller/main.go, pkg/cluster/registry.go), and how the
-- host that an agent tells is found again.
pub mod Machines
use crybaby.Agent.Heartbeat.{with_active, heartbeat_payload, running_in, count_running-running_in}
use crybaby.Agent.Hardware.{Sample, collect_metrics}
use crybaby.Agent.Startup.{heartbeat_turn}
use crybaby.Base.{
  ℕ, ◌+◌, ◌≤◌, ◌≡◌, refl, ap, ◌∙◌, String, pos, true, List, [], ◌∷◌, All, some, text_eq, ◌==◌,
  ==_refl, arith, text_discrete, ℕ_discrete,
}
use crybaby.Base.Assoc.{lookup}
use crybaby.Base.Result.{Result, ok, err}
use crybaby.Base.Strings.{trim_prefix, split, occurrences, split-append}
use crybaby.Base.Text.{◌<>◌}
use crybaby.Controller.{Incoming, World, answer, status}
use crybaby.Controller.Nodes.{handle_action, handle_parts, handle_node_subroutes, recorded}
use crybaby.Controller.Paths.{trim_prefix-append, slashed}
use crybaby.Dashboard.{node_timeout}
use crybaby.Http.{post, method_eq}
use crybaby.Hyperv.Engine.{Engine}
use crybaby.Registry.{Registry, Error, update_heartbeat}
use crybaby.Registry.Liveness.{sweeps, update_heartbeat-sweeps}
use crybaby.Types.Node.{Node, Time, HeartbeatPayload, online}
use crybaby.Types.Vm.{VirtualMachine}

-- The path of a heartbeat behind the controller's URL.
abbrev pub heartbeat_path : String → String
heartbeat_path id = "/api/v1/nodes/" <> (id <> "/" <> "heartbeat")

split-heartbeat :
    (id : String)
    → occurrences b'/' id ≡ 0
    → split b'/' (id <> "/" <> "heartbeat") ≡ (id, "heartbeat" ∷ [])
unfolding split ℕ_discrete
split-heartbeat id plain =
    ap (split b'/') (slashed id "heartbeat") ∙ split-append "/" id "heartbeat" plain

heartbeat_action :
    (w : World) (r : Registry) (i : Incoming) (path id : String) (p : HeartbeatPayload)
    → i.request.method ≡ post
    → w.decoders.heartbeat i.request.body ≡ (p, true)
    → handle_action w r i path id "heartbeat"
      ≡ recorded w (update_heartbeat w.now r id p.metrics (p.version ∷ []))
unfolding handle_action text_discrete
heartbeat_action w r i path id p posted decoded =
    let test : (i.request.method == post) ≡ true = ap (λ m. m == post) posted ∙ ==_refl post in
    rw (test, decoded) refl

heartbeat_routed :
    (w : World) (r : Registry) (i : Incoming) (id : String)
    → i.request.path ≡ heartbeat_path id
    → occurrences b'/' id ≡ 0
    → handle_node_subroutes w r i ≡ handle_action w r i (id <> "/" <> "heartbeat") id "heartbeat"
unfolding handle_node_subroutes handle_parts
heartbeat_routed w r i id at plain =
    let path = id <> "/" <> "heartbeat" in
    let behind : trim_prefix i.request.path "/api/v1/nodes/" ≡ path =
      ap (λ x. trim_prefix x "/api/v1/nodes/") at ∙ trim_prefix-append "/api/v1/nodes/" path in
    ap (λ x. handle_parts w r i x (split b'/' x).0 (split b'/' x).1) behind
    ∙ ap (λ x. handle_parts w r i path x.0 x.1) (split-heartbeat id plain)

zero_add : (n : ℕ) → 0 + n ≡ n
zero_add n = omega arith

recorded_ok :
    (w : World) (t : Registry × Result Error (Unit {0}))
    → t.1 ≡ ok tt
    → recorded w t ≡ (t.0, answer 200 (status "recorded"), [])
recorded_ok w (r, ok u) e = refl
recorded_ok w (r, err m) e = absurd (ground (arith, e))

turn_counts :
    {S : Type 0} (hv : Engine S) (sample : Sample) (id : String) (s : S) (vms : List VirtualMachine)
    → (hv.list_vms s).1 ≡ ok vms
    → (heartbeat_turn hv sample id s).1.metrics.active_vm_count ≡ pos (running_in vms)
unfolding heartbeat_turn with_active heartbeat_payload
turn_counts hv sample id s vms e =
    ap (λ x. (with_active (collect_metrics sample) x).active_vm_count) e
    ∙ ap pos (count_running-running_in 0 vms ∙ zero_add (running_in vms))

-- A turn of an agent's heartbeat, sent as a POST to its path and decoded as it was made, for a
-- registered node whose identifier has no slash: the controller answers 200, and also after sweeps
-- of the reaper within 15 seconds the node is online, last seen when the heartbeat came, and
-- has as many active machines as the agent's engine tells running ones.
pub heartbeat_turn-handle_node_subroutes :
    {S : Type 0} (hv : Engine S) (sample : Sample) (s : S) (vms : List VirtualMachine) (w : World)
    (r : Registry) (i : Incoming) (id : String) (n : Node) (times : List Time)
    → (hv.list_vms s).1 ≡ ok vms
    → i.request.method ≡ post
    → i.request.path ≡ heartbeat_path id
    → occurrences b'/' id ≡ 0
    → w.decoders.heartbeat i.request.body ≡ ((heartbeat_turn hv sample id s).1, true)
    → lookup id r.nodes ≡ some n
    → All (λ now. now ≤ w.now + node_timeout) times
    → let t = handle_node_subroutes w r i in
      (t.1.code ≡ 200)
      × (b : Node) × (lookup id (sweeps node_timeout times t.0).nodes ≡ some b)
      × (b.status ≡ online)
      × (b.last_seen ≡ w.now)
      × (b.latest_metrics.active_vm_count ≡ pos (running_in vms))
heartbeat_turn-handle_node_subroutes hv sample s vms w r i id n times listed posted at plain decoded
      known fresh =
    let p = (heartbeat_turn hv sample id s).1 in
    let whole : handle_node_subroutes w r i
        ≡ recorded w (update_heartbeat w.now r id p.metrics (p.version ∷ [])) =
      heartbeat_routed w r i id at plain
      ∙ heartbeat_action w r i (id <> "/" <> "heartbeat") id p posted decoded in
    let (b, done, kept, on, metrics, seen, same, others) =
      (update_heartbeat-sweeps w.now r id p.metrics (p.version ∷ []) node_timeout times
          (omega arith) fresh).1
        n known in
    let told : handle_node_subroutes w r i ≡ (
      (update_heartbeat w.now r id p.metrics (p.version ∷ [])).0,
      answer 200 (status "recorded"),
      [],
    ) =
      whole ∙ recorded_ok w (update_heartbeat w.now r id p.metrics (p.version ∷ [])) done in
    (
      ap (λ o. o.1.code) told,
      b,
      ap (λ o. lookup id (sweeps node_timeout times o.0).nodes) told ∙ kept,
      on,
      seen,
      ap (λ m. m.active_vm_count) metrics ∙ turn_counts hv sample id s vms listed,
    )
