-- ===== src/Controller/Cluster.antt =====
-- The handlers of the cluster as a whole and of a registration, and the multiplexer over them
-- (cmd/controller/main.go), with the configuration of pkg/mesh/wireguard.go.
use crybaby.Auth.{verify_password, issue_token}
use crybaby.Base.{
  ℕ, String, ℤ, pos, Bool, true, false, [], ◌∷◌, Option, none, some, ◌==◌, nat_eq, text_eq,
  if◌then◌else◌,
}
use crybaby.Base.Result.{Result, ok, err}
use crybaby.Base.Strings.{after_prefix}
use crybaby.Base.Text.{◌<>◌}
use crybaby.Controller.{
  Incoming, failure, error, status, nodes, registered, session, summary, Response, answer,
  broadcast, World, Outcome, error_text,
}
use crybaby.Controller.Nodes.{method_not_allowed, handle_node_subroutes}
use crybaby.Http.{post, method_eq}
use crybaby.Registry.{Registry, Error, register_node, reset_cluster, list_nodes}
use crybaby.Registry.Summary.{get_cluster_summary}
use crybaby.Types.Cluster.{AuthRequest}
use crybaby.Types.Node.{Node, RegisterNodeRequest}
use Prim.Native.Char.{code}

-- `s[:strings.LastIndex(s, sep)]`, if the character stands in the text
unfoldable pub before_last : ℕ → String → Option String
before_last sep String.[] = none
before_last sep (String.◌∷◌ c s) = elim (before_last sep s) [
  | some p ↦ some (String.◌∷◌ c p)
  | none ↦ if code c == sep then some "" else none
]

unfoldable pub remote_ip : String → String
unfolding before_last
remote_ip addr = elim (before_last b':' addr) [ none ↦ addr | some ip ↦ ip ]

-- The controller's own mesh address is an argument of the source that it does not use.
unfoldable pub node_wireguard_config : String → String → String → String → String → String
node_wireguard_config node_private_key node_mesh_ip controller_public_key endpoint _ =
    "[Interface]\nPrivateKey = " <> node_private_key <> "\nAddress = " <> node_mesh_ip
    <> "/16\n\n[Peer]\nPublicKey = " <> controller_public_key <> "\nEndpoint = " <> endpoint
    <> "\nAllowedIPs = 10.42.0.0/16\nPersistentKeepalive = 25\n"

abbrev pub no_method : Response
no_method = answer 405 (failure "Method not allowed")

module _ (w : World) where
  abbrev pub welcome : String → Node → Response
  welcome ip n = answer 200 (
      registered (record {
        node_id = n.id;
        mesh_ip = n.mesh_ip;
        controller_mesh_ip = "10.42.0.1";
        wireguard_config =
            node_wireguard_config "<NODE_PRIVATE_KEY>" n.mesh_ip w.public_key (ip <> ":" <> w.port)
              "10.42.0.1";
        heartbeat_sec = pos 5;
      }))

  abbrev pub registration : String → Registry × Result Error Node → Outcome
  registration ip (r, ok n) = (r, welcome ip n, [])
  registration ip (r, err e) = (r, answer 401 (failure (error_text w e)), [])

  abbrev pub registering : Registry → Incoming → RegisterNodeRequest × Bool → Outcome
  registering r i (req, true) =
      let ip = remote_ip i.remote_addr in
      registration ip (register_node w.storage w.readings r req ip)
  registering r i (req, false) = (r, answer 400 (failure "Invalid JSON payload"), [])

  unfoldable pub handle_register_node : Registry → Incoming → Outcome
  handle_register_node r i =
      if i.request.method == post
      then registering r i (w.decoders.register_node i.request.body)
      else (r, no_method, [])

  abbrev session_of : Option (String × ℤ) → Response
  session_of none = answer 500 (failure "Token generation failed")
  session_of (some (token, exp)) = answer 200 (session (record { token = token; expires_at = exp }))

  -- 24 hours, in nanoseconds
  abbrev day : ℕ
  day = 86400000000000

  abbrev log_in : AuthRequest × Bool → Response
  log_in (req, true) =
      if verify_password w.crypto w.auth req.password
      then session_of (issue_token w.crypto w.expiry_read w.issue_read w.auth day)
      else answer 401 (failure "Invalid password credentials")
  log_in (req, false) = answer 400 (failure "Bad request")

  unfoldable pub handle_login : Registry → Incoming → Outcome
  handle_login r i = (
    r,
    if i.request.method == post then log_in (w.decoders.login i.request.body) else no_method,
    [],
  )

  unfoldable pub handle_cluster_status : Registry → Incoming → Outcome
  handle_cluster_status r i = (r, answer 200 (summary (get_cluster_summary w.floats r)), [])

  unfoldable pub handle_nodes : Registry → Incoming → Outcome
  handle_nodes r i = (r, answer 200 (nodes (list_nodes r)), [])

  abbrev pub resetting : Registry × Result Error (Unit {0}) → Outcome
  resetting (r, ok _) = (
    r,
    answer 200 (status "Cluster reset successfully. All nodes cleared."),
    broadcast (get_cluster_summary w.floats r) (list_nodes r) ∷ [],
  )
  resetting (r, err e) = (r, answer 500 (error ("Reset cluster failed: " <> error_text w e)), [])

  unfoldable pub handle_cluster_reset : Registry → Incoming → Outcome
  handle_cluster_reset r i =
      if i.request.method == post
      then resetting (reset_cluster w.storage r)
      else (r, method_not_allowed, [])

  -- The patterns of `registerRoutes` whose handlers use the registry. A path of its own is
  -- preferred to the subtree `/api/v1/nodes/`; the other patterns leave the registry alone.
  unfoldable pub serve : Registry → Incoming → Option Outcome
  serve r i =
      let path = i.request.path in
      if path == "/api/v1/auth/login"
      then some (handle_login r i)
      else if path == "/api/v1/cluster/status"
      then some (handle_cluster_status r i)
      else if path == "/api/v1/nodes"
      then some (handle_nodes r i)
      else if path == "/api/v1/nodes/register"
      then some (handle_register_node r i)
      else if path == "/api/v1/cluster/reset"
      then some (handle_cluster_reset r i)
      else elim (after_prefix "/api/v1/nodes/" path) [
        | some _ ↦ some (handle_node_subroutes w r i)
        | none ↦ none
      ]
