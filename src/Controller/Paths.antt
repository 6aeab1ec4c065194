-- ===== src/Controller/Paths.antt =====
-- Where the requests for a node's machines are forwarded to, and what a removal that cannot be
-- saved answers (cmd/controller/main.go).
use crybaby.Base.{
  String, ◌≡◌, ◌≢◌, refl, ap, ◌∙◌, [], ◌∷◌, none, some, text_eq, arith, text_discrete, ℕ_discrete,
}
use crybaby.Base.Assoc.{lookup, erase, lookup-erase_self}
use crybaby.Base.Result.{ok, Result-cases}
use crybaby.Base.Strings.{trim_prefix, split, occurrences, split-append, after_prefix-append}
use crybaby.Base.Text.{◌<>◌}
use crybaby.Controller.{Incoming, proxied, World}
use crybaby.Controller.Nodes.{
  unknown_node, handle_node, handle_action, handle_parts, handle_node_subroutes,
}
use crybaby.Controller.Proxy.{target_url, relay, forward, proxy_to_node}
use crybaby.Http.{delete, method_eq, Request}
use crybaby.Registry.{Registry, remove_node, get_node, save}
use crybaby.Registry.Invariant.Writes.{save-nodes}
use crybaby.Types.Node.{Node, offline, status_eq}
use text.Mathlib.TextLemmas.{nil-append, cons-append, append_assoc}

pub slashed : (p q : String) → p <> "/" <> q ≡ p <> String.◌∷◌ "/" q
slashed p q =
    append_assoc p "/" q
    ∙ ap (λ x. p <> x) (cons-append "/" "" q ∙ ap (String.◌∷◌ "/") (nil-append q))

pub trim_prefix-append : (p s : String) → trim_prefix (p <> s) p ≡ s
unfolding trim_prefix
trim_prefix-append p s = ground (arith, after_prefix-append p s)

split-vms :
    (id rest : String)
    → occurrences b'/' id ≡ 0
    → split b'/' (id <> "/" <> ("vms/" <> rest))
      ≡ (id, "vms" ∷ (split b'/' rest).0 ∷ (split b'/' rest).1)
unfolding occurrences ℕ_discrete
split-vms id rest h =
    ap (split b'/') (slashed id ("vms/" <> rest))
    ∙ (split-append "/" id ("vms/" <> rest) h
        ∙ ap (λ x. (id, x.0 ∷ x.1))
            (ap (split b'/') (slashed "vms" rest) ∙ split-append "/" "vms" rest refl))

proxy_to_node_online :
    (w : World) (n : Node) (subpath : String) (i : Incoming)
    → n.status ≢ offline
    → let url = target_url n subpath i.raw_query in
      proxy_to_node w n subpath i ≡ forward w i.request url (w.new_request i.request.method url)
unfolding proxy_to_node
proxy_to_node_online w n subpath i on = ground arith

vms_action :
    (w : World) (r : Registry) (i : Incoming) (path id : String) (n : Node)
    → lookup id r.nodes ≡ some n
    → let done = proxy_to_node w n (trim_prefix path (id <> "/")) i in
      handle_action w r i path id "vms" ≡ (r, done.0, done.1)
unfolding handle_action get_node text_discrete
vms_action w r i path id n e = ground arith

forward_made :
    (w : World) (q : Request) (url : String)
    → w.new_request q.method url ≡ none
    → forward w q url (w.new_request q.method url)
      ≡ (relay url (w.send q.method url q.body), proxied q.method url q.body ∷ [])
forward_made w q url made = rw made refl

-- A request below `/api/v1/nodes/<id>/vms/` for a node that is known and not offline, whose
-- identifier has no slash, is forwarded as it is, once, to the same place below `/api/v1/vms/` of
-- the node's agent, if the new request can be made; it is answered as the agent answers, and the
-- registry is left alone.
pub handle_node_subroutes_proxied :
    (w : World) (r : Registry) (i : Incoming) (id rest : String) (n : Node)
    → i.request.path ≡ "/api/v1/nodes/" <> (id <> "/" <> ("vms/" <> rest))
    → occurrences b'/' id ≡ 0
    → lookup id r.nodes ≡ some n
    → n.status ≢ offline
    → let url = target_url n ("vms/" <> rest) i.raw_query in
      w.new_request i.request.method url ≡ none
      → handle_node_subroutes w r i ≡ (
        r,
        relay url (w.send i.request.method url i.request.body),
        proxied i.request.method url i.request.body ∷ [],
      )
unfolding handle_node_subroutes handle_parts
handle_node_subroutes_proxied w r i id rest n at plain e on made =
    let path = id <> "/" <> ("vms/" <> rest) in
    let url = target_url n ("vms/" <> rest) i.raw_query in
    let behind : trim_prefix i.request.path "/api/v1/nodes/" ≡ path =
      ap (λ x. trim_prefix x "/api/v1/nodes/") at ∙ trim_prefix-append "/api/v1/nodes/" path in
    let whole : handle_node_subroutes w r i ≡ handle_action w r i path id "vms" =
      ap (λ x. handle_parts w r i x (split b'/' x).0 (split b'/' x).1) behind
      ∙ ap (λ x. handle_parts w r i path x.0 x.1) (split-vms id rest plain) in
    let subpath : proxy_to_node w n (trim_prefix path (id <> "/")) i
        ≡ forward w i.request url (w.new_request i.request.method url) =
      ap (λ x. proxy_to_node w n x i) (trim_prefix-append (id <> "/") ("vms/" <> rest))
      ∙ proxy_to_node_online w n ("vms/" <> rest) i on in
    (whole ∙ vms_action w r i path id n e)
    ∙ ap (λ x. (r, x.0, x.1)) (subpath ∙ forward_made w i.request url made)

-- A removal that cannot be saved to the state file is answered as that of an unknown node, though
-- the node is gone.
pub handle_node_unsaved :
    (w : World) (r : Registry) (i : Incoming) (id : String) (n : Node)
    → i.request.method ≡ delete
    → lookup id r.nodes ≡ some n
    → (save w.storage (record r { nodes = erase id r.nodes })).1 ≢ ok tt
    → ((handle_node w r i id).1 ≡ unknown_node) × (lookup id (handle_node w r i id).0.nodes ≡ none)
unfolding handle_node remove_node
handle_node_unsaved w r i id n del e fails =
    let r' = record r { nodes = erase id r.nodes } in
    let failed = Result-cases (save w.storage r').1 in
    let kept = save-nodes w.storage r' in
    let gone = lookup-erase_self id r.nodes in
    (ground (arith, failed), ground (arith, failed, kept, gone))
