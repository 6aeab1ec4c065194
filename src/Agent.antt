-- ===== src/Agent.antt =====
-- cmd/agent/main.go: what the handlers of an agent's RPC server answer, and what they leave to do.
pub mod Vms
pub mod Host
pub mod Heartbeat
pub mod Hardware
pub mod Startup
pub mod Calls
use crybaby.Base.{ℕ, String, List, ◌<◌}
use crybaby.Base.Result.{Result, ok, err}
use crybaby.Hyperv.Engine.{Returns}
use crybaby.Types.Node.{AgentUpdateResponse}
use crybaby.Types.Vm.{VirtualMachine, VmCheckpoint}

pub data Payload : Type 0 where
  -- the text of `http.Error`
  failure : String → Payload
  -- `map[string]string{"status": …}`
  status : String → Payload
  vms : List VirtualMachine → Payload
  vm : VirtualMachine → Payload
  checkpoints : List VmCheckpoint → Payload
  checkpoint : VmCheckpoint → Payload
  switches : List String → Payload
  updating : AgentUpdateResponse → Payload
  -- the connection is taken over by a terminal session
  upgraded : Payload

pub record Response : Type 0 where
  pub code : ℕ
  pub payload : Payload

-- What a handler starts in the background after its answer.
pub data Task : Type 0 where
  reboot shutdown : Task
  apply_update : String → String → Task

abbrev pub answer : ℕ → Payload → Response
answer c p = record { code = c; payload = p }

-- `http.Error(w, err.Error(), code)` on an error, else the answer that `f` makes.
abbrev pub respond : {S A : Type 0} → Returns S A → ℕ → (A → Response) → S × Response
respond (s, ok a) code f = (s, f a)
respond (s, err e) code f = (s, answer code (failure e))

abbrev pub method_not_allowed : Response
method_not_allowed = answer 405 (failure "Method not allowed")
