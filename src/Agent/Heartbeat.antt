-- ===== src/Agent/Heartbeat.antt =====
-- The heartbeat that the agent's loop makes: the metrics with the number of running machines
-- (cmd/agent/main.go), and the requests that it sends to the controller.
use crybaby.Base.{
  ℕ, suc, ◌+◌, ◌≡◌, ℤ, pos, String, List, [], ◌∷◌, Option, none, some, ◌==◌, nat_eq, text_eq,
  if◌then◌else◌, arith,
}
use crybaby.Base.Decimal.{show}
use crybaby.Base.Result.{Result, ok, err}
use crybaby.Base.Text.{◌<>◌}
use crybaby.Types.Node.{
  NodeHardware, NodeMetrics, RegisterNodeRequest, HeartbeatPayload, RegisterNodeResponse,
}
use crybaby.Types.Vm.{VirtualMachine, running, state_eq}

abbrev pub agent_version : String
agent_version = "0.6.0"

-- the loop over the machines
unfoldable pub count_running : ℕ → List VirtualMachine → ℕ
count_running active [] = active
count_running active (vm ∷ vms) =
    count_running (if vm.state == running then suc active else active) vms

-- `metrics` are those that the host reports; a failed query leaves their count.
unfoldable pub with_active : NodeMetrics → Result String (List VirtualMachine) → NodeMetrics
unfolding count_running
with_active metrics (ok vms) = record metrics { active_vm_count = pos (count_running 0 vms) }
with_active metrics (err e) = metrics

unfoldable pub heartbeat_payload : String → NodeMetrics → HeartbeatPayload
heartbeat_payload node_id metrics = record {
  node_id = node_id;
  version = agent_version;
  metrics = metrics;
}

unfoldable pub heartbeat_url : String → String → String
heartbeat_url controller_url node_id = controller_url <> "/api/v1/nodes/" <> node_id <> "/heartbeat"

pub record Config : Type 0 where
  pub controller_url : String
  pub cluster_token : String
  pub node_name : String
  pub agent_port : ℤ

-- The name of a node that the configuration does not name.
unfoldable pub default_name : Config → NodeHardware → Config
default_name cfg hw =
    if cfg.node_name == ""
    then if hw.hostname == ""
      then record cfg { node_name = "win11-node" }
      else record cfg { node_name = hw.hostname }
    else cfg

unfoldable pub register_request : Config → NodeHardware → String → RegisterNodeRequest
register_request cfg hw pub_key = record {
  cluster_token = cfg.cluster_token;
  node_name = cfg.node_name;
  version = agent_version;
  hardware = hw;
  wireguard_pub_key = pub_key;
}

-- What a POST to the controller ends in: no answer, or a code and a body.
pub data Posted : Type 0 where
  unreachable : String → Posted
  answered : ℕ → String → Posted

abbrev pub decoded : Result String RegisterNodeResponse → Result String RegisterNodeResponse
decoded (ok r) = ok r
decoded (err e) = err ("failed to decode response: " <> e)

unfoldable pub register_outcome :
    (String → Result String RegisterNodeResponse) → Posted → Result String RegisterNodeResponse
register_outcome decode (unreachable e) = err ("network error connecting to controller: " <> e)
register_outcome decode (answered code body) =
    if code == 200
    then decoded (decode body)
    else err ("controller returned HTTP status " <> show code)

-- `sendHeartbeat`: `none` is the success.
unfoldable pub heartbeat_outcome : Posted → Option String
heartbeat_outcome (unreachable e) = some e
heartbeat_outcome (answered code body) =
    if code == 200 then none else some ("server returned status: " <> show code)

-- The number of running machines, without the accumulator.
abbrev pub running_in : List VirtualMachine → ℕ
running_in [] = 0
running_in (vm ∷ vms) = if vm.state == running then suc (running_in vms) else running_in vms

pub count_running-running_in :
    (n : ℕ) (vms : List VirtualMachine) → count_running n vms ≡ n + running_in vms
unfolding count_running
count_running-running_in n [] = omega arith
count_running-running_in n (vm ∷ vms) =
    ground (arith, count_running-running_in n vms, count_running-running_in (suc n) vms)
