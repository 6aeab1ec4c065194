-- ===== src/Registry/Liveness.antt =====
-- Who is online: the heartbeats and the reaper (pkg/cluster/registry.go).
use crybaby.Base.{
  ℕ, ◌+◌, ◌-◌, ◌^◌, ◌≤◌, ◌<◌, ◌≡◌, refl, String, List, [], ◌∷◌, none, some, ◌≢◌, arith,
  text_discrete, text_eq, All,
}
use crybaby.Base.Assoc.{lookup, lookup-insert_self, lookup-insert_ne}
use crybaby.Base.Result.{ok, err}
use crybaby.Registry.{
  Registry, Nodes, node_not_found, update_heartbeat, reap_offline_nodes, reap_nodes, reaped, beaten,
}
use crybaby.Types.Node.{Time, NodeMetrics, Node, online, offline, status_eq}

lookup-reap_nodes :
    (now : Time) (timeout : ℕ) (id : String) (m : Nodes) (n : Node)
    → lookup id m ≡ some n
    → lookup id (reap_nodes now timeout m) ≡ some (reaped now timeout n)
unfolding lookup reap_nodes text_discrete
lookup-reap_nodes now timeout id [] n e = ground arith
lookup-reap_nodes now timeout id ((k, w) ∷ m) n e =
    ground (arith, lookup-reap_nodes now timeout id m n)

lookup-reap_nodes-none :
    (now : Time) (timeout : ℕ) (id : String) (m : Nodes)
    → lookup id m ≡ none
    → lookup id (reap_nodes now timeout m) ≡ none
unfolding lookup reap_nodes text_discrete
lookup-reap_nodes-none now timeout id [] e = refl
lookup-reap_nodes-none now timeout id ((k, w) ∷ m) e =
    ground (arith, lookup-reap_nodes-none now timeout id m)

-- For a timeout below 2^63 - 1 nanoseconds, a sweep takes a node offline that is online and has
-- been silent for longer than the timeout, leaves every other node as it is, and adds none.
pub reap_offline_nodes_lem :
    (now : Time) (timeout : ℕ) (r : Registry) (id : String) (n : Node)
    → lookup id r.nodes ≡ some n
    → timeout < 2 ^ 63 - 1
    → let after = lookup id (reap_offline_nodes now timeout r).nodes in
      ((n.status ≡ online)
        → (n.last_seen + timeout < now)
        → after ≡ some (record n { status = offline }))
      × ((n.status ≡ online) → (now ≤ n.last_seen + timeout) → after ≡ some n)
      × ((n.status ≢ online) → after ≡ some n)
      × ((j : String)
          → lookup j r.nodes ≡ none
          → lookup j (reap_offline_nodes now timeout r).nodes ≡ none)
unfolding reap_offline_nodes
reap_offline_nodes_lem now timeout r id n e small =
    let h = lookup-reap_nodes now timeout id r.nodes n e in
    (
      (λ on late. ground (arith, h)),
      (λ on fresh. ground (arith, h)),
      (λ off. ground (arith, h)),
      (λ j no. lookup-reap_nodes-none now timeout j r.nodes no),
    )

-- The sweeps at the given times, one after the other.
abbrev pub sweeps : ℕ → List Time → Registry → Registry
sweeps timeout [] r = r
sweeps timeout (now ∷ later) r = sweeps timeout later (reap_offline_nodes now timeout r)

stays_online :
    (timeout : ℕ) (times : List Time) (r : Registry) (id : String) (n : Node)
    → lookup id r.nodes ≡ some n
    → timeout < 2 ^ 63 - 1
    → n.status ≡ online
    → All (λ now. now ≤ n.last_seen + timeout) times
    → lookup id (sweeps timeout times r).nodes ≡ some n
stays_online timeout [] r id n e small on fresh = e
stays_online timeout (now ∷ later) r id n e small on fresh =
    stays_online timeout later (reap_offline_nodes now timeout r) id n
      ((reap_offline_nodes_lem now timeout r id n e small).1 on fresh.0) small on fresh.1

-- For a timeout below 2^63 - 1 nanoseconds and sweeps that come within it: the heartbeat of a
-- known node is recorded, and the node is online with the metrics reported, also after all the
-- sweeps; no other node is touched by the heartbeat. The heartbeat of an unknown node is refused
-- and changes nothing.
pub update_heartbeat-sweeps :
    (t : Time) (r : Registry) (id : String) (metrics : NodeMetrics) (version : List String)
    (timeout : ℕ) (times : List Time)
    → timeout < 2 ^ 63 - 1
    → All (λ now. now ≤ t + timeout) times
    → let r' = (update_heartbeat t r id metrics version).0 in
      ((lookup id r.nodes ≡ none)
        → update_heartbeat t r id metrics version ≡ (r, err (node_not_found id)))
      × ((n : Node)
          → lookup id r.nodes ≡ some n
          → (b : Node) × ((update_heartbeat t r id metrics version).1 ≡ ok tt)
            × (lookup id (sweeps timeout times r').nodes ≡ some b)
            × (b.status ≡ online)
            × (b.latest_metrics ≡ metrics)
            × (b.last_seen ≡ t)
            × (b.id ≡ n.id)
            × ((j : String) → j ≢ id → lookup j r'.nodes ≡ lookup j r.nodes))
unfolding update_heartbeat
update_heartbeat-sweeps t r id metrics version timeout times small fresh = (
  (λ e. ground arith),
  (λ n e.
      let b = beaten t metrics version n in
      (
        b,
        ground arith,
        stays_online timeout times (update_heartbeat t r id metrics version).0 id b
            (ground (arith, lookup-insert_self id b r.nodes)) small refl fresh,
        refl,
        refl,
        refl,
        refl,
        (λ j ne. ground (arith, lookup-insert_ne id j b r.nodes ne)),
      )),
)
