-- ===== src/Controller.antt =====
-- cmd/controller/main.go: what the handlers of the controller answer, what they send to the
-- agents, and what they read of the world. Headers are not modelled.
pub mod Proxy
pub mod Nodes
pub mod Cluster
pub mod Reach
pub mod Calls
pub mod Paths
use crybaby.Base.{ℕ, suc, String, ℤ, pos, negsuc, Bool, List, [], Option}
use crybaby.Base.Result.{Result, ok, err}
use crybaby.Base.Text.{◌<>◌}
use crybaby.Http.{Method, Request, Decoders}
use crybaby.Registry.{Registry, Readings, Storage, Error, unauthorized, not_found, node_not_found}
use crybaby.Auth.{Crypto, Authenticator}
use crybaby.Registry.Summary.{Floats}
use crybaby.Types.Cluster.{AuthResponse, ClusterSummary}
use crybaby.Types.Node.{Time, Node, AgentUpdateRequest, AgentUpdateResponse, RegisterNodeResponse}
use crybaby.Wol.{Lan}

abbrev pub controller_version : String
controller_version = "0.6.0"

-- A request with what the handlers read of it besides its method, path and body.
pub record Incoming : Type 0 where
  pub request : Request
  pub raw_query : String
  pub remote_addr : String

pub data Payload : Type 0 where
  -- the text of `http.Error`, and `map[string]string{"error": …}`
  failure error : String → Payload
  -- `map[string]string{"status": …}`
  status : String → Payload
  removed : String → Payload
  node : Node → Payload
  nodes : List Node → Payload
  woken : String → String → Payload
  triggered : Payload
  updating : AgentUpdateResponse → Payload
  -- the body of an agent's answer
  relayed : String → Payload
  registered : RegisterNodeResponse → Payload
  summary : ClusterSummary → Payload
  session : AuthResponse → Payload

pub record Response : Type 0 where
  pub code : ℕ
  pub payload : Payload

abbrev pub answer : ℕ → Payload → Response
answer c p = record { code = c; payload = p }

-- What a handler sends besides its answer.
pub data Sent : Type 0 where
  posted_update : String → AgentUpdateRequest → Sent
  proxied : Method → String → String → Sent
  magic : List ℕ → Sent
  -- to the dashboards: `telemetry_tick`
  broadcast : ClusterSummary → List Node → Sent

-- The registry after a request, the answer, and what was sent.
abbrev pub Outcome : Type 0
Outcome = Registry × Response × List Sent

-- The answer to a request sent to an agent: an error, or a code and a body.
abbrev pub Reply : Type 0
Reply = Result String (ℕ × String)

-- What the handlers use besides the registry.
pub record World : Type 0 where
  pub decoders : Decoders
  pub storage : Storage
  pub readings : Readings
  -- the clock at the update of a heartbeat
  pub now : Time
  pub lan : Lan
  pub floats : Floats
  pub crypto : Crypto
  pub auth : Authenticator
  -- the clock at the expiry and the issue of a token
  pub expiry_read : Time
  pub issue_read : Time
  -- the public key of `GenerateKeyPair`
  pub public_key : String
  -- `os.Stat` of the agent's binary succeeds
  pub has_binary : Bool
  -- `getOutboundIP`
  pub outbound_ip : String
  pub port : String
  -- `http.Post`, and the decoder of an agent's answer
  pub post : String → AgentUpdateRequest → Reply
  pub decode_update : String → AgentUpdateResponse × Bool
  -- the texts of the errors of encoding/json and os
  pub library_text : Error → String
  -- the error of `http.NewRequest`, and the client's `Do`
  pub new_request : Method → String → Option String
  pub send : Method → String → String → Reply

-- `err.Error()`
abbrev pub error_text : World → Error → String
error_text w unauthorized = "invalid or unauthorized cluster token"
error_text w not_found = "node not found"
error_text w (node_not_found id) = "node not found: " <> id
error_text w e = w.library_text e
