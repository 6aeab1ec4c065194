-- ===== src/Agent/Host.antt =====
-- The handlers of `/api/v1/host/reboot`, `/api/v1/host/shutdown` and `/api/v1/agent/update`, and
-- the multiplexer over all paths (cmd/agent/main.go).
use crybaby.Agent.{
  failure, status, updating, upgraded, Response, Task, reboot, shutdown, apply_update, answer,
  method_not_allowed,
}
use crybaby.Agent.Vms.{handle_vms, handle_vm_path, handle_switches}
use crybaby.Base.{
  String, Bool, true, false, List, [], ◌∷◌, none, some, ◌==◌, text_eq, if◌then◌else◌,
}
use crybaby.Base.Strings.{after_prefix}
use crybaby.Base.Text.{◌<>◌}
use crybaby.Http.{post, method_eq, Request, Decoders}
use crybaby.Hyperv.Engine.{Clock, Engine}
use crybaby.Types.Node.{AgentUpdateRequest}

unfoldable pub handle_reboot : Request → Response × List Task
handle_reboot r =
    if r.method == post
    then (answer 200 (status "reboot_initiated"), reboot ∷ [])
    else (method_not_allowed, [])

unfoldable pub handle_shutdown : Request → Response × List Task
handle_shutdown r =
    if r.method == post
    then (answer 200 (status "shutdown_initiated"), shutdown ∷ [])
    else (method_not_allowed, [])

abbrev pub update_accepted : AgentUpdateRequest → Response
update_accepted req = answer 200 (
    updating (record {
      status = "updating";
      message = "Agent update to " <> req.target_version <> " initiated, restarting service...";
    }))

unfoldable pub accept_update : AgentUpdateRequest × Bool → Response × List Task
accept_update (req, true) =
    if req.download_url == ""
    then (answer 400 (failure "DownloadURL cannot be empty"), [])
    else (update_accepted req, apply_update req.download_url req.target_version ∷ [])
accept_update (req, false) = (answer 400 (failure "Invalid update request JSON"), [])

unfoldable pub handle_update : Decoders → Request → Response × List Task
unfolding accept_update
handle_update d r =
    if r.method == post then accept_update (d.agent_update r.body) else (method_not_allowed, [])

-- The patterns of `startAgentRPCServer`. None but `/api/v1/vms/` ends in a slash, so the others
-- are met by their own path alone.
pub data Route : Type 0 where
  to_vms to_vm_path to_switches to_terminal to_reboot to_shutdown to_update not_found : Route

unfoldable pub route : String → Route
route path =
    if path == "/api/v1/vms"
    then Route.to_vms
    else if path == "/api/v1/switches"
    then Route.to_switches
    else if path == "/api/v1/ws/terminal"
    then Route.to_terminal
    else if path == "/api/v1/host/reboot"
    then Route.to_reboot
    else if path == "/api/v1/host/shutdown"
    then Route.to_shutdown
    else if path == "/api/v1/agent/update"
    then Route.to_update
    else elim (after_prefix "/api/v1/vms/" path) [
      | some _ ↦ Route.to_vm_path
      | none ↦ Route.not_found
    ]

module _ {S : Type 0} (hv : Engine S) (d : Decoders) (c : Clock) where
  abbrev quiet : S × Response → S × Response × List Task
  quiet (s, a) = (s, a, [])

  unfoldable pub dispatch : Route → S → Request → S × Response × List Task
  dispatch Route.to_vms s r = quiet (handle_vms hv d c s r)
  dispatch Route.to_vm_path s r = quiet (handle_vm_path hv d c s r)
  dispatch Route.to_switches s r = quiet (handle_switches hv d c s r)
  dispatch Route.to_terminal s r = (s, answer 101 upgraded, [])
  dispatch Route.to_reboot s r = let (a, tasks) = handle_reboot r in (s, a, tasks)
  dispatch Route.to_shutdown s r = let (a, tasks) = handle_shutdown r in (s, a, tasks)
  dispatch Route.to_update s r = let (a, tasks) = handle_update d r in (s, a, tasks)
  dispatch Route.not_found s r = (s, answer 404 (failure "404 page not found"), [])

  -- One request to the agent.
  unfoldable pub serve : S → Request → S × Response × List Task
  unfolding dispatch
  serve s r = dispatch (route r.path) s r
