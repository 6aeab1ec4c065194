-- ===== src/Http.antt =====
-- What the handlers of cmd/agent/main.go and cmd/controller/main.go use of net/http and
-- encoding/json: a request, its method, its path, and decoders of its body. A decoder returns what
-- it has filled in, also when it ends with an error, and whether it ended with none.
use crybaby.Base.{String, Bool, Eq, text_discrete}
use crybaby.Types.Cluster.{AuthRequest}
use crybaby.Types.Node.{AgentUpdateRequest, RegisterNodeRequest, HeartbeatPayload}
use crybaby.Types.Vm.{
  CreateVmRequest, CreateCheckpointRequest, ResizeVmRequest, ExpandDiskRequest, CloneVmRequest,
}

pub data Method : Type 0 where
  get post put delete : Method
  other : String → Method

unfoldable pub method_discrete : Discrete Method
method_discrete = hlevel text_discrete

instance abbrev pub method_eq : Eq Method
method_eq = record { dec = method_discrete }

pub record Request : Type 0 where
  pub method : Method
  pub path : String
  pub body : String

abbrev pub Decoder : Type 0 → Type 0
Decoder A = String → A × Bool

pub record Decoders : Type 0 where
  pub create_vm : Decoder CreateVmRequest
  pub checkpoint : Decoder CreateCheckpointRequest
  pub resize : Decoder ResizeVmRequest
  pub expand : Decoder ExpandDiskRequest
  pub clone : Decoder CloneVmRequest
  pub agent_update : Decoder AgentUpdateRequest
  pub register_node : Decoder RegisterNodeRequest
  pub heartbeat : Decoder HeartbeatPayload
  pub login : Decoder AuthRequest
