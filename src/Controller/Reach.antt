-- ===== src/Controller/Reach.antt =====
-- What a request under `/api/v1/nodes/` can reach: which agents, and how it changes the registry
-- (cmd/controller/main.go).
use crybaby.Base.{
  ℕ, String, ◌≡◌, refl, Bool, true, false, List, [], ◌∷◌, map, some, ◌==◌, text_eq, arith, All,
  Bool-cases, Option-cases, inl, inr, if◌then◌else◌,
}
use crybaby.Base.Assoc.{lookup}
use crybaby.Base.Result.{Result, ok, err, Result-cases}
use crybaby.Base.Strings.{trim_prefix, split}
use crybaby.Controller.{Incoming, Response, Sent, magic, World, Outcome}
use crybaby.Controller.Nodes.{
  with_node, waking, beat, wake, handle_node, handle_action, handle_parts, handle_node_subroutes,
}
use crybaby.Controller.Proxy.{proxy_to_node, update_node}
use crybaby.Http.{post, method_eq}
use crybaby.Registry.{Registry, remove_node, get_node, update_heartbeat}
use crybaby.Types.Node.{Node, HeartbeatPayload, offline, status_eq}
use crybaby.Wol.{send_wake_on_lan}

-- The node and the action that a request names.
abbrev pub target : Incoming → String × List String
target i = split b'/' (trim_prefix i.request.path "/api/v1/nodes/")

-- A packet of Wake-on-LAN, which needs no agent.
abbrev pub IsMagic : Sent → Type 0
IsMagic s = (packet : List ℕ) × (s ≡ magic packet)

All-magic : (packets : List (List ℕ)) → All IsMagic (map magic packets)
All-magic [] = tt
All-magic (p ∷ ps) = ((p, refl), All-magic ps)

-- A test passes a handler on to one of two.
pub if-P : {A : Type 0} (P : A → Type 0) (b : Bool) (x y : A) → P x → P y → P (if b then x else y)
if-P P true x y hx hy = hx
if-P P false x y hx hy = hy

module _ (w : World) (r : Registry) (i : Incoming) where
  -- Nothing but such packets is sent.
  abbrev IsQuiet : Outcome → Type 0
  IsQuiet o = All IsMagic o.2

  beat-IsQuiet : (id : String) (p : HeartbeatPayload × Bool) → IsQuiet (beat w r id p)
  unfolding update_heartbeat
  beat-IsQuiet id (p, true) = ground (arith, Option-cases (lookup id r.nodes))
  beat-IsQuiet id (p, false) = tt

  waking-IsMagic :
      (n : Node) (id : String) (o : List (List ℕ) × Result String (Unit {0}))
      → All IsMagic (waking n id o).1
  waking-IsMagic n id (ps, ok _) = All-magic ps
  waking-IsMagic n id (ps, err e) = All-magic ps

  wake-IsMagic : (id : String) (n : Node) → All IsMagic (wake w id n).1
  wake-IsMagic id n = elim (Bool-cases (n.hardware.mac_address == "")) [
    | inl e ↦ rw e tt
    | inr e ↦ rw e (waking-IsMagic n id (send_wake_on_lan w.lan n.hardware.mac_address))
  ]

  proxy-IsQuiet :
      (n : Node) (subpath : String) → n.status ≡ offline → (proxy_to_node w n subpath i).1 ≡ []
  unfolding proxy_to_node
  proxy-IsQuiet n subpath off = ground arith

  update-IsQuiet : (n : Node) → n.status ≡ offline → (update_node w n).1 ≡ []
  unfolding update_node
  update-IsQuiet n off = ground arith

  with_node-IsQuiet :
      (id : String) (n : Node) (f : Node → Response × List Sent)
      → lookup id r.nodes ≡ some n
      → All IsMagic (f n).1
      → IsQuiet (with_node r id f)
  unfolding get_node
  with_node-IsQuiet id n f e h = rw (e, with_node) h

  offline_action :
      (path id action : String) (n : Node)
      → lookup id r.nodes ≡ some n
      → n.status ≡ offline
      → IsQuiet (handle_action w r i path id action)
  unfolding handle_action
  offline_action path id action n e off =
      let none_sent : (f : Node → Response × List Sent)
          → (f n).1 ≡ []
          → IsQuiet (with_node r id f) =
        λ f h. with_node-IsQuiet id n f e (rw h tt) in
      let is_post = i.request.method == post in
      let step_ = if-P IsQuiet in
      step_ (action == "heartbeat") _ _
        (step_ is_post _ _ (beat-IsQuiet id (w.decoders.heartbeat i.request.body)) tt)
        (step_ (action == "update") _ _ (step_ is_post _ _ (none_sent _ (update-IsQuiet n off)) tt)
          (step_ (action == "wol") _ _
            (step_ is_post _ _ (with_node-IsQuiet id n _ e (wake-IsMagic id n)) tt)
            (step_ (action == "vms") _ _ (none_sent _ (proxy-IsQuiet n _ off)) (
              step_ (action == "switches") _ _ (none_sent _ (proxy-IsQuiet n _ off)) (
                step_ (action == "reboot") _ _
                  (step_ is_post _ _ (none_sent _ (proxy-IsQuiet n _ off)) tt)
                  (step_ (action == "shutdown") _ _
                    (step_ is_post _ _ (none_sent _ (proxy-IsQuiet n _ off)) tt) tt))))))

  offline_node : (id : String) → IsQuiet (handle_node w r i id)
  unfolding handle_node get_node
  offline_node id =
      ground (arith, Option-cases (lookup id r.nodes), Result-cases (remove_node w.storage r id).1)

  offline_parts :
      (path id : String) (parts : List String) (n : Node)
      → lookup id r.nodes ≡ some n
      → n.status ≡ offline
      → IsQuiet (handle_parts w r i path id parts)
  unfolding handle_parts
  offline_parts path id [] n e off = offline_node id
  offline_parts path id (action ∷ rest) n e off = offline_action path id action n e off

  -- A request below `/api/v1/nodes/` for a node that is marked offline has no request forwarded to
  -- its agent and no update posted, whatever the method and the rest of the path: at most Wake-on-LAN
  -- packets are sent.
  pub handle_node_subroutes_offline :
      (n : Node)
      → lookup (target i).0 r.nodes ≡ some n
      → n.status ≡ offline
      → IsQuiet (handle_node_subroutes w r i)
  unfolding handle_node_subroutes
  handle_node_subroutes_offline n e off = offline_parts _ (target i).0 (target i).1 n e off
