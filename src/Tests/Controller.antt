-- ===== src/Tests/Controller.antt =====
-- The theorems on the controller's requests at concrete inputs (cmd/controller/main.go).
use crybaby.Base.{refl, true, false, [], ◌∷◌, some, All, text_discrete, text_eq, arith, ℕ_discrete}
use crybaby.Base.Assoc.{lookup}
use crybaby.Base.Strings.{split, trim_prefix, after_prefix}
use crybaby.Controller.{World}
use crybaby.Controller.Calls.{
  IsOneCall, controller_serve-IsOneCall, serve_all, controller_serve_all-IsValid,
}
use crybaby.Controller.Cluster.{handle_register_node, serve}
use crybaby.Controller.Nodes.{handle_node_subroutes}
use crybaby.Controller.Reach.{handle_node_subroutes_offline, IsMagic}
use crybaby.Http.{get, post, delete}
use crybaby.Registry.Invariant.{IsValid}
use crybaby.Tests.Samples.{world, asking, one_node, node_of, empty_registry}
use crybaby.Types.Node.{offline}

controller_serve-IsOneCall_example :
    IsOneCall world empty_registry
      (handle_register_node world empty_registry (asking post "/api/v1/nodes/register"))
unfolding serve text_discrete
controller_serve-IsOneCall_example =
    controller_serve-IsOneCall world empty_registry (asking post "/api/v1/nodes/register")
      (handle_register_node world empty_registry (asking post "/api/v1/nodes/register")) refl

empty_registry-IsValid : IsValid empty_registry
empty_registry-IsValid = record {
  keys_distinct = tt;
  ids = tt;
  macs_distinct = tt;
  mesh_distinct = tt;
  below = tt;
}

controller_serve_all-IsValid_example : IsValid (
    serve_all empty_registry (
      (world, asking post "/api/v1/nodes/register")
      ∷ (world, asking delete "/api/v1/nodes/n2")
      ∷ []))
controller_serve_all-IsValid_example =
    controller_serve_all-IsValid empty_registry
      ((world, asking post "/api/v1/nodes/register")
        ∷ (world, asking delete "/api/v1/nodes/n2")
        ∷ [])
      (omega arith) empty_registry-IsValid

handle_node_subroutes_offline_example :
    All IsMagic
      (handle_node_subroutes world (one_node offline) (asking get "/api/v1/nodes/n1/vms/web")).2
unfolding lookup split trim_prefix after_prefix text_discrete ℕ_discrete
handle_node_subroutes_offline_example =
    handle_node_subroutes_offline world (one_node offline) (asking get "/api/v1/nodes/n1/vms/web")
      (node_of offline) refl refl

-- A world whose disk is full.
abbrev full_world : World
full_world = record world {
  storage = record {
    marshal = λ _. some "{}";
    unmarshal = λ _ m. (m, true);
    write = λ old _. (old, false);
  };
}
