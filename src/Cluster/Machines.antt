-- ===== src/Cluster/Machines.antt =====
-- A request to the controller for a node's machines, through its agent to the engine
-- (cmd/controller/main.go, cmd/agent/main.go, pkg/hyperv/engine.go).
use crybaby.Agent.Calls.{OneCall}
use crybaby.Agent.Calls.Handlers.{serve-OneCall}
use crybaby.Agent.Host.{serve}
use crybaby.Agent.{Payload}
use crybaby.Base.{
  ◌==◌, text_eq, if◌then◌else◌, pos, ◌≡◌, ◌≢◌, refl, ℕ, ap, ◌∙◌, sym, subst, String, none, some,
}
use crybaby.Base.Assoc.{lookup}
use crybaby.Base.Result.{ok}
use crybaby.Base.Strings.{occurrences}
use crybaby.Base.Text.{◌<>◌}
use crybaby.Base.Unicode.{Unicode}
use crybaby.Controller.{Incoming, World}
use crybaby.Controller.Nodes.{handle_node_subroutes}
use crybaby.Base.Decimal.{show_int}
use text.Mathlib.TextLemmas.{append_assoc}
use crybaby.Base.Int.{int_eq}
use crybaby.Controller.Paths.{handle_node_subroutes_proxied}
use crybaby.Controller.Proxy.{target_url, relay, port_of}
use crybaby.Http.{Request, Decoders}
use crybaby.Hyperv.Calls.{simulated}
use crybaby.Hyperv.Engine.{Clock}
use crybaby.Hyperv.Simulated.{SimulatedEngine}
use crybaby.Registry.{Registry}
use crybaby.Types.Node.{Node, offline}

-- The request that the agent is sent for one to the controller.
abbrev pub at_agent : Incoming → String → Request
at_agent i rest = record {
  method = i.request.method;
  path = "/api/v1/vms/" <> rest;
  body = i.request.body;
}

-- Where the agent of a node is reached: its port, the path of the request and the query, if there is
-- one.
abbrev pub agent_url : Node → Request → String → String
agent_url n q raw_query =
    let port = if n.agent_port == pos 0 then pos 8081 else n.agent_port in
    let url = "http://" <> n.ip_address <> ":" <> show_int port <> q.path in
    if raw_query == "" then url else url <> "?" <> raw_query

joined_path :
    (host rest : String) → host <> "/api/v1/" <> ("vms/" <> rest) ≡ host <> ("/api/v1/vms/" <> rest)
joined_path host rest =
    append_assoc host "/api/v1/" ("vms/" <> rest)
    ∙ ap (λ z. host <> z) (sym (append_assoc "/api/v1/" "vms/" rest))

target_url-agent_url :
    (n : Node) (i : Incoming) (rest : String)
    → target_url n ("vms/" <> rest) i.raw_query ≡ agent_url n (at_agent i rest) i.raw_query
unfolding target_url
target_url-agent_url n i rest =
    ap (λ url. if i.raw_query == "" then url else url <> "?" <> i.raw_query)
      (joined_path ("http://" <> n.ip_address <> ":" <> show_int (port_of n)) rest)

relay_code : (url : String) (code : ℕ) (body : String) → (relay url (ok (code, body))).code ≡ code
relay_code url code body = refl

-- A request to the controller for a machine of a node that is known and not offline, whose
-- identifier has no slash, where the request for the same place below `/api/v1/vms/` of the node's
-- agent can be made and is answered as the agent answers it (`render` is its answer as text): the
-- controller answers
-- with the agent's code, its registry stays as it is, the agent's engine has made at most one call,
-- and none if the controller answers with 400 or more.
pub handle_node_subroutes-serve :
    (u : Unicode) (d : Decoders) (c : Clock) (s : SimulatedEngine) (render : Payload → String)
    (w : World) (r : Registry) (i : Incoming) (id rest : String) (n : Node)
    → i.request.path ≡ "/api/v1/nodes/" <> (id <> "/" <> ("vms/" <> rest))
    → occurrences b'/' id ≡ 0
    → lookup id r.nodes ≡ some n
    → n.status ≢ offline
    → let url = agent_url n (at_agent i rest) i.raw_query in
      let a = serve (simulated u) d c s (at_agent i rest) in
      w.new_request i.request.method url ≡ none
      → w.send i.request.method url i.request.body ≡ ok (a.1.code, render a.1.payload)
      → let t = handle_node_subroutes w r i in
        (t.0 ≡ r) × (t.1.code ≡ a.1.code) × OneCall u s a.0 t.1.code
handle_node_subroutes-serve u d c s render w r i id rest n at plain e on made answered =
    let url = target_url n ("vms/" <> rest) i.raw_query in
    let whole = target_url-agent_url n i rest in
    let a = serve (simulated u) d c s (at_agent i rest) in
    let told =
      handle_node_subroutes_proxied w r i id rest n at plain e on
        (ap (w.new_request i.request.method) whole ∙ made) in
    let reply : w.send i.request.method url i.request.body ≡ ok (a.1.code, render a.1.payload) =
      ap (λ z. w.send i.request.method z i.request.body) whole ∙ answered in
    let same : (handle_node_subroutes w r i).1.code ≡ a.1.code =
      ap (λ t. t.1.code) told
      ∙ (ap (λ x. (relay url x).code) reply ∙ relay_code url a.1.code (render a.1.payload)) in
    (
      ap (λ t. t.0) told,
      same,
      subst (λ code. OneCall u s a.0 code) (sym same) (serve-OneCall u d c s (at_agent i rest)),
    )
