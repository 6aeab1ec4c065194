-- ===== src/Registry/Summary.antt =====
-- `GetClusterSummary` (pkg/cluster/registry.go). Additions and the division of float64 are
-- arguments; sums of `int` and `uint64` wrap.
use crybaby.Base.{
  ℕ, suc, ◌+◌, ◌-◌, ◌%◌, ◌^◌, ◌≤◌, ◌<◌, ◌≡◌, refl, ℤ, pos, [], ◌∷◌, arith, ◌==◌, if◌then◌else◌,
  length,
}
use crybaby.Base.Int.{◌+ℤ◌, nonpositive}
use crybaby.Registry.{Registry, Nodes}
use crybaby.Types.Cluster.{ClusterSummary}
use crybaby.Types.Node.{Float64, Node, online, status_eq, status_discrete}

pub record Floats : Type 0 where
  pub add : Float64 → Float64 → Float64
  pub div : Float64 → Float64 → Float64
  pub of_int : ℤ → Float64

-- The summary under construction, the sum of the processors' loads, and the nodes it counts.
pub record Totals : Type 0 where
  pub summary : ClusterSummary
  pub total_cpu_usage : Float64
  pub active_online_cpus : ℤ

-- `uint64` sums
infixl 65 ◌+u◌
abbrev pub ◌+u◌ : ℕ → ℕ → ℕ
a +u b = (a + b) % 2 ^ 64

module _ (fl : Floats) where
  -- the branch on the node's status
  abbrev pub counted : Node → Totals → Totals
  counted n t =
      let s = t.summary in
      if n.status == online
      then (record {
        summary = record s {
          online_nodes = s.online_nodes +ℤ pos 1;
          used_ram_bytes = s.used_ram_bytes +u n.latest_metrics.ram_used_bytes;
          used_disk_bytes = s.used_disk_bytes +u n.latest_metrics.disk_used_bytes;
          total_active_vms = s.total_active_vms +ℤ n.latest_metrics.active_vm_count;
        };
        total_cpu_usage = fl.add t.total_cpu_usage n.latest_metrics.cpu_usage_pct;
        active_online_cpus = t.active_online_cpus +ℤ pos 1;
      })
      else record t { summary = record s { offline_nodes = s.offline_nodes +ℤ pos 1 } }

  -- the rest of the loop's body
  abbrev pub measured : Node → Totals → Totals
  measured n t =
      let s = t.summary in
      record t {
        summary = record s {
          total_cpu_cores = s.total_cpu_cores +ℤ n.hardware.cpu_cores;
          total_ram_bytes = s.total_ram_bytes +u n.hardware.total_ram_bytes;
          total_disk_bytes = s.total_disk_bytes +u n.hardware.total_disk_bytes;
        };
      }

  unfoldable pub sum_nodes : Nodes → Totals → Totals
  sum_nodes [] t = t
  sum_nodes ((_, n) ∷ m) t = sum_nodes m (measured n (counted n t))

  abbrev pub no_totals : ℕ → Totals
  no_totals count = record {
    summary = record {
      total_nodes = pos count;
      online_nodes = pos 0;
      offline_nodes = pos 0;
      total_cpu_cores = pos 0;
      avg_cpu_usage_pct = 0;
      total_ram_bytes = 0;
      used_ram_bytes = 0;
      total_disk_bytes = 0;
      used_disk_bytes = 0;
      total_active_vms = pos 0;
      mesh_network_cidr = "10.42.0.0/16";
    };
    total_cpu_usage = 0;
    active_online_cpus = pos 0;
  }

  unfoldable pub get_cluster_summary : Registry → ClusterSummary
  unfolding sum_nodes
  get_cluster_summary r =
      let t = sum_nodes r.nodes (no_totals (length r.nodes)) in
      if nonpositive t.active_online_cpus then t.summary else record t.summary {
        avg_cpu_usage_pct = fl.div t.total_cpu_usage (fl.of_int t.active_online_cpus);
      }

abbrev pub count_online : Nodes → ℕ
count_online [] = 0
count_online ((_, n) ∷ m) = if n.status == online then suc (count_online m) else count_online m

-- The sum of a measure over all the nodes, and over those that are online.
abbrev pub sum_all : (Node → ℕ) → Nodes → ℕ
sum_all f [] = 0
sum_all f ((_, n) ∷ m) = f n + sum_all f m

abbrev pub sum_online : (Node → ℕ) → Nodes → ℕ
sum_online f [] = 0
sum_online f ((_, n) ∷ m) = if n.status == online then f n + sum_online f m else sum_online f m

+ℤ_one : (a : ℕ) → suc a < 2 ^ 63 → pos a +ℤ pos 1 ≡ pos (suc a)
unfolding ◌+ℤ◌
+ℤ_one a small = ground arith

module _ (fl : Floats) where
  counts :
      (m : Nodes) (t : Totals) (a b : ℕ)
      → t.summary.online_nodes ≡ pos a
      → t.summary.offline_nodes ≡ pos b
      → a + b + length m < 2 ^ 63
      → let s = (sum_nodes fl m t).summary in
        (s.online_nodes ≡ pos (a + count_online m))
        × (s.offline_nodes ≡ pos (b + (length m - count_online m)))
        × (count_online m ≤ length m)
  unfolding sum_nodes
  counts [] t a b ea eb small = ground arith
  counts ((k, n) ∷ m) t a b ea eb small = elim (status_discrete n.status online) [
    | yes on ↦
        let h =
          counts m (measured fl n (counted fl n t)) (suc a) b
            (ground (arith, +ℤ_one a (omega arith))) (ground arith) (omega arith) in
        ground (arith, h)
    | no off ↦
        let h =
          counts m (measured fl n (counted fl n t)) a (suc b) (ground arith)
            (ground (arith, +ℤ_one b (omega arith))) (omega arith) in
        ground (arith, h)
  ]

  memory :
      (m : Nodes) (t : Totals)
      → t.summary.total_ram_bytes < 2 ^ 64
      → t.summary.used_ram_bytes < 2 ^ 64
      → let s = (sum_nodes fl m t).summary in
        (s.total_ram_bytes
          ≡ t.summary.total_ram_bytes +u sum_all (λ n. n.hardware.total_ram_bytes) m)
        × (s.used_ram_bytes
            ≡ t.summary.used_ram_bytes +u sum_online (λ n. n.latest_metrics.ram_used_bytes) m)
  unfolding sum_nodes
  memory [] t h u = ground arith
  memory ((k, n) ∷ m) t h u =
      let i = memory m (measured fl n (counted fl n t)) (omega arith) (ground arith) in
      ground (arith, i)

  average :
      (m : Nodes) (t : Totals)
      → t.active_online_cpus ≡ t.summary.online_nodes
      → let t' = sum_nodes fl m t in
        (t'.active_online_cpus ≡ t'.summary.online_nodes)
        × (t'.summary.avg_cpu_usage_pct ≡ t.summary.avg_cpu_usage_pct)
        × (t'.summary.total_nodes ≡ t.summary.total_nodes)
  unfolding sum_nodes
  average [] t e = (e, refl, refl)
  average ((k, n) ∷ m) t e =
      let i = average m (measured fl n (counted fl n t)) (ground (arith, e)) in ground (arith, i)

  -- Of fewer than 2^63 nodes, the summary counts all and those that are online, and the rest as
  -- offline; the memory installed is the sum over all nodes, the memory used the sum over the
  -- online ones, both modulo 2^64; with no node online the average load is zero.
  pub get_cluster_summary_lem :
      (r : Registry)
      → length r.nodes < 2 ^ 63
      → let s = get_cluster_summary fl r in
        (s.total_nodes ≡ pos (length r.nodes))
        × (s.online_nodes ≡ pos (count_online r.nodes))
        × (s.offline_nodes ≡ pos (length r.nodes - count_online r.nodes))
        × (count_online r.nodes ≤ length r.nodes)
        × (s.total_ram_bytes ≡ sum_all (λ n. n.hardware.total_ram_bytes) r.nodes % 2 ^ 64)
        × (s.used_ram_bytes ≡ sum_online (λ n. n.latest_metrics.ram_used_bytes) r.nodes % 2 ^ 64)
        × (count_online r.nodes ≡ 0 → s.avg_cpu_usage_pct ≡ 0)
  unfolding get_cluster_summary
  get_cluster_summary_lem r small =
      let t = no_totals fl (length r.nodes) in
      let c = counts r.nodes t 0 0 refl refl (omega arith) in
      let m = memory r.nodes t (omega arith) (omega arith) in
      let a = average r.nodes t refl in
      (
        ground (arith, a),
        ground (arith, c),
        ground (arith, c),
        c.2,
        ground (arith, m),
        ground (arith, m),
        (λ z. ground (arith, a, c)),
      )
