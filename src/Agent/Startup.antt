-- ===== src/Agent/Startup.antt =====
-- `main` of cmd/agent/main.go: how an agent is configured, joins the cluster, and what each turn of
-- its heartbeat does.
use crybaby.Agent.Hardware.{Machine, detect_hardware, Sample, collect_metrics}
use crybaby.Agent.Heartbeat.{
  Config, default_name, register_request, register_outcome, Posted, with_active, heartbeat_payload,
}
use crybaby.Base.{String, Option, none, some}
use crybaby.Base.Result.{Result, ok, err}
use crybaby.Base.Text.{◌<>◌}
use crybaby.Hyperv.Engine.{Engine}
use crybaby.Mesh.{KeyPair}
use crybaby.Types.Node.{NodeHardware, RegisterNodeRequest, RegisterNodeResponse, HeartbeatPayload}

-- What the agent starts from: its flags, what decoding the file of the configuration changes, if
-- there is one, the host, and a new key.
pub record Launch : Type 0 where
  pub flags : Config
  pub file : Option (Config → Config)
  pub machine : Machine
  pub key : Result String KeyPair

unfoldable pub configured : Launch → Config
configured l = elim l.file [ none ↦ l.flags | some overlay ↦ overlay l.flags ]

unfoldable pub launch_hardware : Launch → NodeHardware
unfolding configured detect_hardware
launch_hardware l = detect_hardware l.machine (configured l).agent_port

-- The configuration with a name for the node.
unfoldable pub named : Launch → Config
unfolding configured launch_hardware default_name
named l = default_name (configured l) (launch_hardware l)

abbrev pub joined : Result String RegisterNodeResponse → Result String RegisterNodeResponse
joined (ok r) = ok r
joined (err e) = err ("Registration failed: " <> e)

-- Until the agent has joined; an error ends it. `post` is the request to a URL.
unfoldable pub join_cluster :
    (String → Result String RegisterNodeResponse)
    → (String → RegisterNodeRequest → Posted)
    → Launch
    → Result String RegisterNodeResponse
unfolding named launch_hardware register_request register_outcome
join_cluster decode post l = elim l.key [
  | err e ↦ err ("Failed to generate local WireGuard keys: " <> e)
  | ok key ↦
      let cfg = named l in
      let url = cfg.controller_url <> "/api/v1/nodes/register" in
      joined (
        register_outcome decode
          (post url (register_request cfg (launch_hardware l) key.public_key)))
]

-- The payload of one turn, with the machines that the engine tells.
unfoldable pub heartbeat_turn : {S : Type 0} → Engine S → Sample → String → S → S × HeartbeatPayload
unfolding collect_metrics with_active heartbeat_payload
heartbeat_turn hv sample node_id s =
    let (s', vms) = hv.list_vms s in
    (s', heartbeat_payload node_id (with_active (collect_metrics sample) vms))

-- The switch that is ensured beside the server.
abbrev pub lan_switch : String
lan_switch = "Crybaby-LAN"

-- The engine before the first request.
unfoldable pub healed : {S : Type 0} → Engine S → S → S
healed hv s = (hv.ensure_virtual_switch s lan_switch).0
