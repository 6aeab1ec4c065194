-- ===== src/Controller/Nodes.antt =====
-- `handleNodeSubroutes` (cmd/controller/main.go): the requests under `/api/v1/nodes/`.
use crybaby.Base.{
  ℕ, String, Bool, true, false, List, [], ◌∷◌, map, none, some, ◌==◌, text_eq, if◌then◌else◌,
}
use crybaby.Base.Result.{Result, ok, err}
use crybaby.Base.Strings.{trim_prefix, split}
use crybaby.Base.Text.{◌<>◌}
use crybaby.Controller.{
  Incoming, error, status, removed, node, woken, Response, answer, Sent, magic, World, Outcome,
  error_text,
}
use crybaby.Controller.Proxy.{proxy_to_node, update_node}
use crybaby.Http.{get, post, delete, method_eq}
use crybaby.Registry.{Registry, Error, remove_node, get_node, update_heartbeat}
use crybaby.Types.Node.{Node, HeartbeatPayload}
use crybaby.Wol.{send_wake_on_lan}

abbrev pub method_not_allowed : Response
method_not_allowed = answer 405 (error "Method not allowed")

abbrev pub unknown_node : Response
unknown_node = answer 404 (error "Node not found")

abbrev pub removal : String → Registry × Result Error (Unit {0}) → Outcome
removal id (r, ok _) = (r, answer 200 (removed id), [])
removal id (r, err _) = (r, unknown_node, [])

abbrev pub waking : Node → String → List (List ℕ) × Result String (Unit {0}) → Response × List Sent
waking n id (packets, ok _) = (answer 200 (woken n.hardware.mac_address id), map magic packets)
waking n id (packets, err e) =
    (answer 500 (error ("Failed to send WoL packet: " <> e)), map magic packets)

-- The node, and what is done with it if it is known.
abbrev pub with_node : Registry → String → (Node → Response × List Sent) → Outcome
with_node r id f = elim (get_node r id) [
  | none ↦ (r, unknown_node, [])
  | some n ↦ let (a, sent) = f n in (r, a, sent)
]

module _ (w : World) where
  -- the node alone
  unfoldable pub handle_node : Registry → Incoming → String → Outcome
  handle_node r i id =
      if i.request.method == delete
      then removal id (remove_node w.storage r id)
      else if i.request.method == get
      then with_node r id (λ n. (answer 200 (node n), []))
      else (r, method_not_allowed, [])

  abbrev pub recorded : Registry × Result Error (Unit {0}) → Outcome
  recorded (r, ok _) = (r, answer 200 (status "recorded"), [])
  recorded (r, err e) = (r, answer 404 (error (error_text w e)), [])

  abbrev pub beat : Registry → String → HeartbeatPayload × Bool → Outcome
  beat r id (p, true) = recorded (update_heartbeat w.now r id p.metrics (p.version ∷ []))
  beat r id (p, false) = (r, answer 400 (error "Invalid heartbeat JSON"), [])

  abbrev pub wake : String → Node → Response × List Sent
  wake id n =
      if n.hardware.mac_address == ""
      then (answer 400 (error "Node has no registered MAC address"), [])
      else waking n id (send_wake_on_lan w.lan n.hardware.mac_address)

  -- `path` is the whole path behind `/api/v1/nodes/`.
  unfoldable pub handle_action : Registry → Incoming → String → String → String → Outcome
  handle_action r i path id action =
      if action == "heartbeat"
      then if i.request.method == post
        then beat r id (w.decoders.heartbeat i.request.body)
        else (r, method_not_allowed, [])
      else if action == "update"
      then if i.request.method == post
        then with_node r id (update_node w)
        else (r, method_not_allowed, [])
      else if action == "wol"
      then if i.request.method == post
        then with_node r id (wake id)
        else (r, method_not_allowed, [])
      else if action == "vms"
      then with_node r id (λ n. proxy_to_node w n (trim_prefix path (id <> "/")) i)
      else if action == "switches"
      then with_node r id (λ n. proxy_to_node w n "switches" i)
      else if action == "reboot"
      then if i.request.method == post
        then with_node r id (λ n. proxy_to_node w n "host/reboot" i)
        else (r, method_not_allowed, [])
      else if action == "shutdown"
      then if i.request.method == post
        then with_node r id (λ n. proxy_to_node w n "host/shutdown" i)
        else (r, method_not_allowed, [])
      else (r, answer 404 (error "Unknown node subroute"), [])

  -- the parts of the path
  unfoldable pub handle_parts : Registry → Incoming → String → String → List String → Outcome
  handle_parts r i path id [] = handle_node r i id
  handle_parts r i path id (action ∷ _) = handle_action r i path id action

  unfoldable pub handle_node_subroutes : Registry → Incoming → Outcome
  unfolding handle_parts
  handle_node_subroutes r i =
      let path = trim_prefix i.request.path "/api/v1/nodes/" in
      let (id, parts) = split b'/' path in handle_parts r i path id parts
