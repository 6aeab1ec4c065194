-- ===== src/Tests/Registry.antt =====
-- The theorems on the registry at concrete inputs (pkg/cluster/registry.go).
use crybaby.Base.{
  List, Distinct, ◌+◌, ◌-◌, ◌%◌, ◌^◌, ◌≤◌, ◌<◌, ◌≡◌, ◌≢◌, refl, String, pos, true, [], ◌∷◌, none,
  some, All, Absent, arith, text_discrete, text_eq, length, inl, inr, ==_differ, ==_eq, ==_refl,
  ◌==◌, Bool-cases,
}
use crybaby.Base.Assoc.{lookup, insert, keys}
use crybaby.Base.Assoc.Fields.{field}
use crybaby.Base.Decimal.{show}
use crybaby.Base.Result.{ok, err}
use crybaby.Registry.{
  register_node, admit, find_mac, validate_cluster_token, save, new_registry, no_metrics,
  update_heartbeat, reap_offline_nodes, node_not_found, Nodes,
}
use crybaby.Registry.Invariant.{IsValid, IsBelow, mesh_of}
use crybaby.Registry.Liveness.{reap_offline_nodes_lem, update_heartbeat-sweeps, sweeps}
use crybaby.Registry.Mesh.{scan_octet, mesh_ip}
use crybaby.Registry.Octets.{scan_octet-mesh_ip}
use crybaby.Registry.Persistence.{IsFaithful, HasSmallOctet, save-new_registry}
use crybaby.Registry.Registration.{
  register_node_again, register_node_new, register_node_exhausted, Arrival, IsNew, register_all,
}
use crybaby.Registry.Summary.{
  get_cluster_summary, get_cluster_summary_lem, count_online, sum_all, sum_online,
}
use crybaby.Tests.Samples.{
  hardware, nodes_discrete, nodes_eq, storage, readings, joining, empty_registry, one_node,
  registry_of, node_of, floats,
}
use crybaby.Types.Node.{RegisterNodeRequest, Node, online, offline}

empty_registry-IsValid : IsValid empty_registry
empty_registry-IsValid = record {
  keys_distinct = tt;
  ids = tt;
  macs_distinct = tt;
  mesh_distinct = tt;
  below = tt;
}

trusted : validate_cluster_token empty_registry "token" ≡ true
unfolding validate_cluster_token text_discrete
trusted = refl

no_mac : find_mac "aa" empty_registry.nodes ≡ none
unfolding find_mac
no_mac = refl

no_id : lookup "n2" empty_registry.nodes ≡ none
unfolding lookup
no_id = refl

register_node_new_example :
    let r' = (register_node storage readings empty_registry joining "192.168.1.2").0 in
    (n : Node) × ((register_node storage readings empty_registry joining "192.168.1.2").1 ≡ ok n)
    × (lookup n.id r'.nodes ≡ some n)
    × Absent n.mesh_ip (field mesh_of empty_registry.nodes)
    × (length r'.nodes ≡ 1)
    × (r'.next_mesh_octet ≡ 3)
register_node_new_example =
    register_node_new storage readings empty_registry joining "192.168.1.2" empty_registry-IsValid
      (omega arith) trusted no_mac no_id

-- Another machine, and a registry whose next octet is the last that fits.
abbrev joining_later : RegisterNodeRequest
joining_later = record joining { hardware = record hardware { mac_address = "bb" } }

abbrev arrivals : List Arrival
arrivals = (readings, joining, "192.168.1.2") ∷ []

second-IsNew :
    IsNew storage
      (register_all storage (registry_of [] 255) arrivals)
      (readings, joining_later, "192.168.1.3")
unfolding register_all register_node admit save validate_cluster_token text_discrete find_mac insert
    nodes_discrete
second-IsNew = (refl, refl)

register_node_exhausted_example :
    let r = register_all storage (registry_of [] 255) arrivals in
    let t = register_node storage readings r joining_later "192.168.1.3" in
    (n : Node) × (t.1 ≡ ok n)
    × (scan_octet n.mesh_ip ≡ some (pos 256))
    × (t.0.next_mesh_octet ≡ 257)
unfolding validate_cluster_token text_discrete find_mac
register_node_exhausted_example =
    register_node_exhausted storage (registry_of [] 255) arrivals readings joining_later
      "192.168.1.3" ((refl, refl), tt) second-IsNew (omega arith)

known_octet : scan_octet "10.42.0.2" ≡ some (pos 2)
unfolding show mesh_ip
known_octet = scan_octet-mesh_ip 2 (omega arith)

one_node-IsValid : IsValid (one_node online)
one_node-IsValid = record {
  keys_distinct = (tt, tt);
  ids = (refl, tt);
  macs_distinct = (inr tt, tt);
  mesh_distinct = (tt, tt);
  below = ((λ octet e. ground (arith, e, known_octet)), tt);
}

register_node_again_example :
    let r' = (register_node storage readings (one_node online) joining "192.168.1.9").0 in
    (n : Node) × ((register_node storage readings (one_node online) joining "192.168.1.9").1 ≡ ok n)
    × (lookup "n1" r'.nodes ≡ some n)
    × (n.id ≡ "n1")
    × (n.mesh_ip ≡ "10.42.0.2")
    × (n.name ≡ "pc-1")
    × (n.status ≡ online)
    × (n.last_seen ≡ 20)
    × ((j : String) → j ≢ "n1" → lookup j r'.nodes ≡ lookup j (one_node online).nodes)
    × (length r'.nodes ≡ 1)
    × (r'.next_mesh_octet ≡ 3)
unfolding validate_cluster_token find_mac text_discrete
register_node_again_example =
    register_node_again storage readings (one_node online) joining "192.168.1.9" "n1"
      (node_of online) one_node-IsValid refl refl

read_back :
    (m : Nodes) (text : String)
    → storage.marshal m ≡ some text
    → ((storage.unmarshal text []).1 ≡ true)
      × Distinct (keys (storage.unmarshal text []).0)
      × ((k : String) → lookup k (storage.unmarshal text []).0 ≡ lookup k m)
unfolding text_discrete
read_back m text e = elim (Bool-cases (m == (one_node online).nodes)) [
  | inl one ↦
      let same : text ≡ "one" = ground arith in
      rw (same, ==_eq m (one_node online).nodes one) (refl, (tt, tt), (λ k. refl))
  | inr rest ↦ elim (Bool-cases (m == [])) [
    | inl empty ↦
        let same : text ≡ "{}" = ground arith in rw (same, ==_eq m [] empty) (refl, tt, (λ k. refl))
    | inr more ↦ absurd (ground arith)
  ]
]

storage-IsFaithful : IsFaithful storage
storage-IsFaithful = record { written = λ _ _ _. refl; read_back = read_back }

sample_small : All HasSmallOctet (one_node online).nodes
sample_small = ((λ octet e. ground (arith, e, known_octet)), tt)

sample_saved : (save storage (one_node online)).1 ≡ ok tt
unfolding save text_discrete
sample_saved = ground (arith, ==_refl (one_node online).nodes)

save-new_registry_example :
    let q = new_registry storage "token" "state.json" (save storage (one_node online)).0.file in
    ((k : String) → lookup k q.nodes ≡ lookup k (one_node online).nodes)
    × All (IsBelow q.next_mesh_octet) q.nodes
    × Absent (mesh_ip q.next_mesh_octet) (field mesh_of q.nodes)
    × (q.next_mesh_octet < 2 ^ 63)
unfolding text_discrete
save-new_registry_example =
    save-new_registry storage (one_node online) "token" storage-IsFaithful
      (==_differ "state.json" "" refl) sample_small sample_saved

reap_offline_nodes_lem_example :
    let after = lookup "n1" (reap_offline_nodes 99 15 (one_node online)).nodes in
    ((online ≡ online) → (10 + 15 < 99) → after ≡ some (node_of offline))
    × ((online ≡ online) → (99 ≤ 10 + 15) → after ≡ some (node_of online))
    × ((online ≢ online) → after ≡ some (node_of online))
    × ((j : String)
        → lookup j (one_node online).nodes ≡ none
        → lookup j (reap_offline_nodes 99 15 (one_node online)).nodes ≡ none)
unfolding lookup text_discrete
reap_offline_nodes_lem_example =
    reap_offline_nodes_lem 99 15 (one_node online) "n1" (node_of online) refl (omega arith)

update_heartbeat-sweeps_example :
    let r = one_node offline in
    let r' = (update_heartbeat 30 r "n1" no_metrics []).0 in
    ((lookup "n1" r.nodes ≡ none)
      → update_heartbeat 30 r "n1" no_metrics [] ≡ (r, err (node_not_found "n1")))
    × ((n : Node)
        → lookup "n1" r.nodes ≡ some n
        → (b : Node) × ((update_heartbeat 30 r "n1" no_metrics []).1 ≡ ok tt)
          × (lookup "n1" (sweeps 15 (35 ∷ 40 ∷ []) r').nodes ≡ some b)
          × (b.status ≡ online)
          × (b.latest_metrics ≡ no_metrics)
          × (b.last_seen ≡ 30)
          × (b.id ≡ n.id)
          × ((j : String) → j ≢ "n1" → lookup j r'.nodes ≡ lookup j r.nodes))
update_heartbeat-sweeps_example =
    update_heartbeat-sweeps 30 (one_node offline) "n1" no_metrics [] 15 (35 ∷ 40 ∷ []) (omega arith)
      (omega arith, (omega arith, tt))

get_cluster_summary_lem_example :
    let r = one_node online in
    let s = get_cluster_summary floats r in
    (s.total_nodes ≡ pos 1)
    × (s.online_nodes ≡ pos (count_online r.nodes))
    × (s.offline_nodes ≡ pos (1 - count_online r.nodes))
    × (count_online r.nodes ≤ 1)
    × (s.total_ram_bytes ≡ sum_all (λ n. n.hardware.total_ram_bytes) r.nodes % 2 ^ 64)
    × (s.used_ram_bytes ≡ sum_online (λ n. n.latest_metrics.ram_used_bytes) r.nodes % 2 ^ 64)
    × (count_online r.nodes ≡ 0 → s.avg_cpu_usage_pct ≡ 0)
get_cluster_summary_lem_example = get_cluster_summary_lem floats (one_node online) (omega arith)
