-- ===== src/Dashboard.antt =====
-- What cmd/controller/main.go keeps the dashboards up to date with: the periodic telemetry, the
-- reaper, the connections of dashboards, and the forwarding between a browser and a terminal.
pub mod Ticks
pub mod Relay
pub mod Page
use crybaby.Base.{
  ℕ, ◌*◌, ◌+◌, String, ℤ, pos, Bool, true, false, not, ◌||◌, List, [], ◌∷◌, ◌++◌, Option, none,
  some, ◌==◌, nat_eq, text_eq, ltb, if◌then◌else◌,
}
use crybaby.Base.Decimal.{show_int}
use crybaby.Base.Int.{int_eq}
use crybaby.Base.Text.{◌<>◌}
use crybaby.History.{HistoryBuffer, add, get_points}
use crybaby.Hub.{Hub, broadcast_json, register}
use crybaby.Registry.{Registry, get_node, list_nodes, reap_offline_nodes}
use crybaby.Registry.Summary.{Floats, get_cluster_summary}
use crybaby.Types.Cluster.{ClusterSummary, TelemetryPoint, TerminalMessage, error}
use crybaby.Types.Node.{Node, Time, Float64}
use mathlib.Core.Option

-- The state of the controller's process.
pub record Server : Type 0 where
  pub registry : Registry
  pub history : HistoryBuffer
  pub hub : Hub

-- float64 arithmetic and encoding/json.
pub record Library : Type 0 where
  pub floats : Floats
  -- `float64(used) / float64(total) * 100.0`, and `0`
  pub percent : ℕ → ℕ → Float64
  pub zero_float : Float64
  -- a tick and the initial state as JSON
  pub marshal_tick : ClusterSummary → List Node → List TelemetryPoint → Option String
  pub marshal_initial : ClusterSummary → List Node → Option String

unfoldable pub ram_pct : Library → ClusterSummary → Float64
ram_pct l s =
    if ltb 0 s.total_ram_bytes then l.percent s.used_ram_bytes s.total_ram_bytes else l.zero_float

-- One turn of the telemetry loop; `seconds` is the clock's reading.
unfoldable pub telemetry_tick : Library → ℤ → Server → Server
unfolding ram_pct
telemetry_tick l seconds s =
    let summary = get_cluster_summary l.floats s.registry in
    let nodes = list_nodes s.registry in
    let history = add seconds s.history summary.avg_cpu_usage_pct (ram_pct l summary) in
    record s {
      history = history;
      hub = broadcast_json (l.marshal_tick summary nodes (get_points history)) s.hub;
    }

-- 15 seconds, in nanoseconds
abbrev pub node_timeout : ℕ
node_timeout = 15000000000

-- One turn of the reaper.
unfoldable pub reaper_tick : Time → Server → Server
reaper_tick now s = record s { registry = reap_offline_nodes now node_timeout s.registry }

-- `handleClusterHistory`
unfoldable pub handle_cluster_history : Server → ℕ × List TelemetryPoint
handle_cluster_history s = (200, get_points s.history)

-- The answer of `handleHealth`: status, app, version and the clock's reading.
abbrev pub handle_health : Time → ℕ × String × String × String × Time
handle_health now = (200, "ok", "crybaby-controller", "0.1.0-dev", now)

-- `handleWebSocketTelemetry` for a connection, if the upgrade succeeds: it is registered and then
-- written the initial state.
unfoldable pub greeted : Option String → ℕ → Hub → Hub
greeted none c h = h
greeted (some text) c h = record h { written = (c, text) ∷ h.written }

unfoldable pub handle_websocket_telemetry : Library → Option ℕ → Server → Server
unfolding greeted
handle_websocket_telemetry l none s = s
handle_websocket_telemetry l (some c) s =
    let summary = get_cluster_summary l.floats s.registry in
    record s {
      hub = greeted (l.marshal_initial summary (list_nodes s.registry)) c (register c s.hub);
    }

-- The agent's terminal for a node.
unfoldable pub target_ws : Node → String
target_ws n =
    "ws://"
    <> n.ip_address
    <> ":"
    <> show_int (if n.agent_port == pos 0 then pos 8081 else n.agent_port)
    <> "/api/v1/ws/terminal"

-- A turn of one of the two forwarding loops, with the message that it has read and written or `none`
-- for an error of either, or the return of the handler, for which it waits until a loop has ended.
pub data Forward : Type 0 where
  to_agent to_browser : Option String → Forward
  returns : Forward

-- The messages written to either side, the last first; whether the loop to the agent and the one to
-- the browser have ended, and whether the handler has returned.
pub record Relayed : Type 0 where
  pub agent : List String
  pub browser : List String
  pub agent_ended : Bool
  pub browser_ended : Bool
  pub closed : Bool

-- An error ends a loop, and the other goes on until the return of the handler closes both
-- connections.
unfoldable pub forward : Forward → Relayed → Relayed
forward (to_agent none) s = if s.closed || s.agent_ended then s else record s { agent_ended = true }
forward (to_agent (some m)) s =
    if s.closed || s.agent_ended then s else record s { agent = m ∷ s.agent }
forward (to_browser none) s =
    if s.closed || s.browser_ended then s else record s { browser_ended = true }
forward (to_browser (some m)) s =
    if s.closed || s.browser_ended then s else record s { browser = m ∷ s.browser }
forward returns s = if s.agent_ended || s.browser_ended then record s { closed = true } else s

-- The turns in the order in which they are taken.
unfoldable pub relay : List Forward → Relayed → Relayed
unfolding forward
relay [] s = s
relay (t ∷ ts) s = relay ts (forward t s)

-- What `handleWebSocketTerminalProxy` does: an answer 404, nothing for a failed upgrade, the error
-- that the browser is written if the agent cannot be dialled, or what was forwarded.
pub data ProxyOutcome : Type 0 where
  unknown_node not_upgraded : ProxyOutcome
  unreachable : TerminalMessage → ProxyOutcome
  relayed : String → Relayed → ProxyOutcome

abbrev pub unreachable_message : String → String → TerminalMessage
unreachable_message target e = record {
  type = error;
  content = "Node agent unreachable at " <> target <> ": " <> e;
  rows = 0;
  cols = 0;
}

abbrev pub nothing_relayed : Relayed
nothing_relayed = record {
  agent = [];
  browser = [];
  agent_ended = false;
  browser_ended = false;
  closed = false;
}

-- `upgraded` tells whether the browser's connection is there, `dial` the error of the agent's.
unfoldable pub handle_terminal_proxy :
    Registry → String → Bool → (String → Option String) → List Forward → ProxyOutcome
unfolding target_ws relay
handle_terminal_proxy r node_id upgraded dial turns = elim (get_node r node_id) [
  | none ↦ unknown_node
  | some n ↦
      if upgraded
      then elim (dial (target_ws n)) [
        | some e ↦ unreachable (unreachable_message (target_ws n) e)
        | none ↦ relayed (target_ws n) (relay turns nothing_relayed)
      ]
      else not_upgraded
]

-- What `main` starts with: the password and the token of the flags, unless the environment has
-- others, and a random token where there is none.
unfoldable pub master_password : String → String → String
master_password flag env = if not (env == "") then env else flag

unfoldable pub cluster_token : String → String → String → String
cluster_token flag env random =
    let given = if not (env == "") then env else flag in if given == "" then random else given

-- `hex.EncodeToString([]byte(token + password))`
abbrev pub signing_secret : (String → String) → String → String → String
signing_secret hex token password = hex (token <> password)
