-- ===== src/Tests/Cluster.antt =====
-- The theorems on an agent and the controller together at concrete inputs (cmd/agent,
-- cmd/controller/main.go).
use crybaby.Agent.Hardware.{Sample}
use crybaby.Agent.Heartbeat.{running_in}
use crybaby.Agent.Startup.{heartbeat_turn}
use crybaby.Agent.Calls.{OneCall}
use crybaby.Agent.Host.{serve}
use crybaby.Cluster.Machines.{at_agent, handle_node_subroutes-serve}
use crybaby.Base.{◌≡◌, refl, pos, true, [], ◌∷◌, some, arith, text_discrete, ℕ_discrete}
use crybaby.Base.Assoc.{lookup}
use crybaby.Base.Result.{ok}
use crybaby.Base.Strings.{occurrences}
use crybaby.Cluster.{heartbeat_turn-handle_node_subroutes}
use crybaby.Controller.{World, Incoming}
use crybaby.Controller.Nodes.{handle_node_subroutes}
use crybaby.Dashboard.{node_timeout}
use crybaby.Http.{post}
use crybaby.Hyperv.Calls.{simulated}
use crybaby.Hyperv.Simulated.{demo_vm}
use crybaby.Hyperv.Simulated.Machines.{list_vms}
use crybaby.Registry.Liveness.{sweeps}
use crybaby.Tests.Samples.{clock, plain, sample_engine, decoders, world, one_node, node_of}
use crybaby.Types.Node.{Node, online}

abbrev sample : Sample
sample = record { now = 9; uptime = 3; alloc = 4; cpu_pct = 5; disk_pct = 6; percent = λ n. n }

-- The payload of the heartbeat, and a controller that decodes it.
abbrev decoding_world : World
decoding_world = record world {
  decoders = record decoders {
    heartbeat = λ _. ((heartbeat_turn (simulated plain) sample "n1" sample_engine).1, true);
  };
}

abbrev beating : Incoming
beating = record {
  request = record { method = post; path = "/api/v1/nodes/n1/heartbeat"; body = "{}" };
  raw_query = "";
  remote_addr = "192.168.1.2:5000";
}

sample_list : ((simulated plain).list_vms sample_engine).1 ≡ ok (demo_vm "node-1" 0 ∷ [])
unfolding list_vms
sample_list = refl

sample_node : lookup "n1" (one_node online).nodes ≡ some (node_of online)
unfolding lookup text_discrete
sample_node = refl

plain_id : occurrences b'/' "n1" ≡ 0
unfolding occurrences ℕ_discrete
plain_id = refl

heartbeat_turn-handle_node_subroutes_example :
    let t = handle_node_subroutes decoding_world (one_node online) beating in
    (t.1.code ≡ 200)
    × (b : Node) × (lookup "n1" (sweeps node_timeout (31 ∷ []) t.0).nodes ≡ some b)
    × (b.status ≡ online)
    × (b.last_seen ≡ 30)
    × (b.latest_metrics.active_vm_count ≡ pos (running_in (demo_vm "node-1" 0 ∷ [])))
heartbeat_turn-handle_node_subroutes_example =
    heartbeat_turn-handle_node_subroutes (simulated plain) sample sample_engine
      (demo_vm "node-1" 0 ∷ []) decoding_world (one_node online) beating "n1" (node_of online)
      (31 ∷ []) sample_list refl refl plain_id refl sample_node (omega arith, tt)

-- A controller whose one node answers what reaches it.
abbrev starting_demo : Incoming
starting_demo = record {
  request = record {
    method = post;
    path = "/api/v1/nodes/n1/vms/c1000000-0000-0000-0000-000000000001/start";
    body = "";
  };
  raw_query = "";
  remote_addr = "192.168.1.9:5000";
}

abbrev agent_world : World
agent_world = record world {
  send = λ _ _ _. ok (
    (serve (simulated plain) decoders clock sample_engine
        (at_agent starting_demo "c1000000-0000-0000-0000-000000000001/start")).1.code,
    "{}",
  );
}

handle_node_subroutes-serve_example :
    let a =
      serve
        (simulated plain)
        decoders
        clock
        sample_engine
        (at_agent starting_demo "c1000000-0000-0000-0000-000000000001/start") in
    let t = handle_node_subroutes agent_world (one_node online) starting_demo in
    (t.0 ≡ one_node online) × (t.1.code ≡ a.1.code) × OneCall plain sample_engine a.0 t.1.code
handle_node_subroutes-serve_example =
    handle_node_subroutes-serve plain decoders clock sample_engine (λ _. "{}") agent_world
      (one_node online) starting_demo "n1" "c1000000-0000-0000-0000-000000000001/start"
      (node_of online) refl plain_id sample_node (λ e. ground arith) refl refl
