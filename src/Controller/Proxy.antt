-- ===== src/Controller/Proxy.antt =====
-- `proxyToNode` and the forwarding of an update to a node's agent (cmd/controller/main.go).
use crybaby.Base.{
  String, ℕ, ℤ, pos, Bool, true, false, List, [], ◌∷◌, none, some, ◌==◌, text_eq, ◌||◌,
  if◌then◌else◌, Option,
}
use crybaby.Base.Int.{int_eq}
use crybaby.Base.Decimal.{show_int}
use crybaby.Base.Result.{ok, err}
use crybaby.Base.Text.{◌<>◌}
use crybaby.Controller.{
  Incoming, error, triggered, updating, relayed, Response, answer, Sent, posted_update, proxied,
  World, Reply, controller_version,
}
use crybaby.Http.{Request}
use crybaby.Types.Node.{Node, offline, status_eq, AgentUpdateRequest, AgentUpdateResponse}

-- the agent's port, and the address of the request
abbrev pub port_of : Node → ℤ
port_of n = if n.agent_port == pos 0 then pos 8081 else n.agent_port

unfoldable pub target_url : Node → String → String → String
target_url n subpath raw_query =
    let url = "http://" <> n.ip_address <> ":" <> show_int (port_of n) <> "/api/v1/" <> subpath in
    if raw_query == "" then url else url <> "?" <> raw_query

abbrev pub relay : String → Reply → Response
relay url (ok (code, body)) = answer code (relayed body)
relay url (err e) =
    answer 502 (error ("Node agent tidak dapat dijangkau di " <> url <> " (" <> e <> ")"))

-- the request to the agent, unless it cannot be made
abbrev pub forward : World → Request → String → Option String → Response × List Sent
forward w r url (some e) = (answer 500 (error ("Gagal membuat proxy request: " <> e)), [])
forward w r url none = (relay url (w.send r.method url r.body), proxied r.method url r.body ∷ [])

unfoldable pub proxy_to_node : World → Node → String → Incoming → Response × List Sent
unfolding target_url
proxy_to_node w n subpath i =
    if n.status == offline
    then (
      answer 502 (
          error (
            "Node '" <> n.name
            <> "' saat ini OFFLINE. Pastikan PC menyala dan crybaby-agent aktif.")),
      [],
    )
    else let url = target_url n subpath i.raw_query in
      forward w i.request url (w.new_request i.request.method url)

abbrev pub agent_answer : ℕ → AgentUpdateResponse × Bool → Response
agent_answer code (r, true) = answer code (updating r)
agent_answer code (r, false) = answer code triggered

abbrev pub update_reply : World → String → Reply → Response
update_reply w url (ok (code, body)) = agent_answer code (w.decode_update body)
update_reply w url (err e) =
    answer 502 (error ("Gagal menghubungi agent pada " <> url <> ": " <> e))

-- The address that an agent downloads its binary from, and the agent's own.
abbrev pub download_url : World → String
download_url w =
    let lan_ip =
      if w.outbound_ip == "" || w.outbound_ip == "127.0.0.1" then "localhost" else w.outbound_ip in
    "http://" <> lan_ip <> ":" <> w.port <> "/api/v1/binaries/crybaby-agent.exe"

abbrev pub update_url : Node → String
update_url n =
    let host = if n.ip_address == "" then n.mesh_ip else n.ip_address in
    "http://" <> host <> ":" <> show_int n.agent_port <> "/api/v1/agent/update"

abbrev pub update_request : World → AgentUpdateRequest
update_request w = record { download_url = download_url w; target_version = controller_version }

-- the action `update`, for a node that is known
unfoldable pub update_node : World → Node → Response × List Sent
update_node w n =
    if n.status == offline
    then (
      answer 502 (error ("Node '" <> n.name <> "' saat ini OFFLINE dan tidak dapat di-update.")),
      [],
    )
    else if w.has_binary
    then (
      update_reply w (update_url n) (w.post (update_url n) (update_request w)),
      posted_update (update_url n) (update_request w) ∷ [],
    )
    else (
      answer 500 (
          error
            "Biner agent 'bin/crybaby-agent.exe' belum terkompilasi di controller. Jalankan 'GOOS=windows GOARCH=amd64 go build -o bin/crybaby-agent.exe ./cmd/agent' terlebih dahulu."),
      [],
    )
