-- ===== src/Controller/Calls.antt =====
-- What a request to the controller does to its registry (cmd/controller/main.go).
use crybaby.Base.{
  ◌+◌, ◌*◌, ◌^◌, ◌<◌, String, ◌≡◌, refl, subst, sym, ◌≤◌, Bool, true, false, List, [], ◌∷◌, Option,
  none, some, ◌==◌, text_eq, arith, Option-cases, ◌⊎◌, inl, inr, if◌then◌else◌, length,
}
use crybaby.Base.Assoc.{lookup}
use crybaby.Base.Result.{Result, ok, err}
use crybaby.Base.Strings.{after_prefix}
use crybaby.Controller.{Incoming, Response, Sent, World, Outcome}
use crybaby.Controller.Cluster.{
  handle_register_node, handle_login, handle_cluster_status, handle_nodes, handle_cluster_reset,
  serve, registering, remote_ip, registration, resetting,
}
use crybaby.Controller.Nodes.{
  with_node, beat, removal, recorded, handle_node, handle_action, handle_parts,
  handle_node_subroutes,
}
use crybaby.Controller.Reach.{if-P}
use crybaby.Http.{get, post, delete, method_eq}
use crybaby.Registry.{
  Registry, Error, remove_node, reset_cluster, register_node, get_node, update_heartbeat,
}
use crybaby.Registry.Invariant.{Call, register, heartbeat, remove, reset, step, IsValid}
use crybaby.Registry.Invariant.Keeps.{step-IsValid, step-octet}
use crybaby.Types.Node.{Node, HeartbeatPayload, RegisterNodeRequest}

-- The registry after an outcome is the one before it, or one operation on it.
abbrev pub IsOneCall : World → Registry → Outcome → Type 0
IsOneCall w r o = (o.0 ≡ r) ⊎ ((c : Call) × (o.0 ≡ step w.storage r c))

module _ (w : World) (r : Registry) (i : Incoming) where
  abbrev Did : Outcome → Type 0
  Did = IsOneCall w r

  with_node-Did : (id : String) (f : Node → Response × List Sent) → Did (with_node r id f)
  unfolding get_node
  with_node-Did id f = inl (ground (arith, Option-cases (lookup id r.nodes)))

  recorded-kept : (o : Registry × Result Error (Unit {0})) → (recorded w o).0 ≡ o.0
  recorded-kept (r', ok _) = refl
  recorded-kept (r', err e) = refl

  beat-Did : (id : String) (p : HeartbeatPayload × Bool) → Did (beat w r id p)
  unfolding step
  beat-Did id (p, true) = inr (
    heartbeat w.now id p.metrics (p.version ∷ []),
    recorded-kept (update_heartbeat w.now r id p.metrics (p.version ∷ [])),
  )
  beat-Did id (p, false) = inl refl

  removal-kept : (id : String) (o : Registry × Result Error (Unit {0})) → (removal id o).0 ≡ o.0
  removal-kept id (r', ok _) = refl
  removal-kept id (r', err e) = refl

  handle_node-Did : (id : String) → Did (handle_node w r i id)
  unfolding handle_node step
  handle_node-Did id =
      if-P Did (i.request.method == delete) _ _
        (inr (remove id, removal-kept id (remove_node w.storage r id)))
        (if-P Did (i.request.method == get) _ _ (with_node-Did id _) (inl refl))

  handle_action-Did : (path id action : String) → Did (handle_action w r i path id action)
  unfolding handle_action
  handle_action-Did path id action =
      let is_post = i.request.method == post in
      let test = if-P Did in
      let posted : (f : Node → Response × List Sent) (o : Outcome)
          → Did o
          → Did (if is_post then with_node r id f else o) =
        λ f o h. test is_post _ _ (with_node-Did id f) h in
      test (action == "heartbeat") _ _
        (test is_post _ _ (beat-Did id (w.decoders.heartbeat i.request.body)) (inl refl))
        (test (action == "update") _ _ (posted _ _ (inl refl)) (
          test (action == "wol") _ _ (posted _ _ (inl refl)) (
            test (action == "vms") _ _ (with_node-Did id _) (
              test (action == "switches") _ _ (with_node-Did id _) (
                test (action == "reboot") _ _ (posted _ _ (inl refl))
                  (test (action == "shutdown") _ _ (posted _ _ (inl refl)) (inl refl)))))))

  handle_parts-Did :
      (path id : String) (parts : List String) → Did (handle_parts w r i path id parts)
  unfolding handle_parts
  handle_parts-Did path id [] = handle_node-Did id
  handle_parts-Did path id (action ∷ rest) = handle_action-Did path id action

  handle_node_subroutes-Did : Did (handle_node_subroutes w r i)
  unfolding handle_node_subroutes
  handle_node_subroutes-Did = handle_parts-Did _ _ _

  registration-kept :
      (ip : String) (o : Registry × Result Error Node) → (registration w ip o).0 ≡ o.0
  registration-kept ip (r', ok n) = refl
  registration-kept ip (r', err e) = refl

  registering-Did : (o : RegisterNodeRequest × Bool) → Did (registering w r i o)
  unfolding step
  registering-Did (req, true) =
      let ip = remote_ip i.remote_addr in
      inr (
        register w.readings req ip,
        registration-kept ip (register_node w.storage w.readings r req ip),
      )
  registering-Did (req, false) = inl refl

  resetting-kept : (o : Registry × Result Error (Unit {0})) → (resetting w o).0 ≡ o.0
  resetting-kept (r', ok _) = refl
  resetting-kept (r', err e) = refl

  handle_register_node-Did : Did (handle_register_node w r i)
  unfolding handle_register_node
  handle_register_node-Did =
      if-P Did (i.request.method == post) _ _
        (registering-Did (w.decoders.register_node i.request.body)) (inl refl)

  handle_cluster_reset-Did : Did (handle_cluster_reset w r i)
  unfolding handle_cluster_reset step
  handle_cluster_reset-Did =
      if-P Did (i.request.method == post) _ _
        (inr (reset, resetting-kept (reset_cluster w.storage r))) (inl refl)

  answered-Did : (x : Outcome) → Did x → (o : Outcome) → some x ≡ some o → Did o
  answered-Did x h o e = let same : x ≡ o = ground arith in subst Did same h

  -- A request to the controller leaves the registry as it is or makes one operation of it,
  -- whatever its method, path and body.
  pub controller_serve-IsOneCall : (o : Outcome) → serve w r i ≡ some o → Did o
  unfolding serve handle_login handle_cluster_status handle_nodes
  controller_serve-IsOneCall =
      let path = i.request.path in
      let test = if-P (λ (x : Option Outcome). (o : Outcome) → x ≡ some o → Did o) in
      test (path == "/api/v1/auth/login") _ _ (answered-Did (handle_login w r i) (inl refl)) (
        test (path == "/api/v1/cluster/status") _ _
          (answered-Did (handle_cluster_status w r i) (inl refl))
          (test (path == "/api/v1/nodes") _ _ (answered-Did (handle_nodes w r i) (inl refl)) (
            test (path == "/api/v1/nodes/register") _ _ (answered-Did _ handle_register_node-Did) (
              test (path == "/api/v1/cluster/reset") _ _ (answered-Did _ handle_cluster_reset-Did)
                (λ o e. elim (Option-cases (after_prefix "/api/v1/nodes/" path)) [
                  | inl none_ ↦ absurd (ground arith)
                  | inr (rest, found) ↦
                      answered-Did (handle_node_subroutes w r i) handle_node_subroutes-Did o
                        (ground arith)
                ])))))

-- The requests that the controller answers, one after the other, each with what the world gives it.
abbrev pub serve_all : Registry → List (World × Incoming) → Registry
serve_all r [] = r
serve_all r ((w, i) ∷ rest) = elim (serve w r i) [
  | none ↦ serve_all r rest
  | some o ↦ serve_all o.0 rest
]

one_call-IsValid :
    (w : World) (r : Registry) (o : Outcome)
    → IsOneCall w r o
    → r.next_mesh_octet < 2 ^ 63
    → IsValid r
    → IsValid o.0 × (o.0.next_mesh_octet ≤ r.next_mesh_octet + 2)
one_call-IsValid w r o (inl same) small v = (subst IsValid (sym same) v, ground (arith, same))
one_call-IsValid w r o (inr (c, e)) small v = (
  subst IsValid (sym e) (step-IsValid w.storage r c small v),
  ground (arith, e, step-octet w.storage r c),
)

-- Whatever requests a controller receives, a valid registry stays valid: no two nodes share an
-- identifier, a mesh address, or a hardware address that is not empty, and the octet to be handed
-- out is above those of all nodes. The bound leaves room for the octets that the requests can use
-- up.
pub controller_serve_all-IsValid :
    (r : Registry) (requests : List (World × Incoming))
    → r.next_mesh_octet + 2 * length requests < 2 ^ 63
    → IsValid r
    → IsValid (serve_all r requests)
controller_serve_all-IsValid r [] small v = v
controller_serve_all-IsValid r ((w, i) ∷ rest) small v = elim (Option-cases (serve w r i)) [
  | inl e ↦ rw (e, serve_all) (controller_serve_all-IsValid r rest (omega arith) v)
  | inr (o, e) ↦
      let (v', octet) =
        one_call-IsValid w r o (controller_serve-IsOneCall w r i o e) (omega arith) v in
      rw (e, serve_all) (controller_serve_all-IsValid o.0 rest (omega arith) v')
]
