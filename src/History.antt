-- ===== src/History.antt =====
-- pkg/cluster/history.go: the rolling window of telemetry points.
pub mod Window
use crybaby.Base.{
  ℕ, suc, ◌≤◌, ℤ, pos, negsuc, List, [], ◌∷◌, ◌++◌, Bool, if◌then◌else◌, leb, length,
}
use crybaby.Base.Int.{nonpositive}
use crybaby.Types.Cluster.{TelemetryPoint}
use crybaby.Types.Node.{Float64}

pub record HistoryBuffer : Type 0 where
  pub capacity : ℤ
  pub points : List TelemetryPoint

unfoldable pub new_history_buffer : ℤ → HistoryBuffer
new_history_buffer capacity = record {
  capacity = if nonpositive capacity then pos 30 else capacity;
  points = [];
}

-- `n >= c` for a length `n`
unfoldable pub at_least : ℕ → ℤ → Bool
at_least n (pos c) = leb c n
at_least n (negsuc c) = Bool.true

-- `points[1:]`, of a list that is not empty
abbrev pub tail : List TelemetryPoint → List TelemetryPoint
tail [] = []
tail (p ∷ ps) = ps

-- `seconds` is the clock's reading.
unfoldable pub add : ℤ → HistoryBuffer → Float64 → Float64 → HistoryBuffer
unfolding at_least
add seconds h cpu ram_pct =
    let point : TelemetryPoint = record { timestamp = seconds; cpu = cpu; ram_pct = ram_pct } in
    if at_least (length h.points) h.capacity
    then record h { points = tail h.points ++ point ∷ [] }
    else record h { points = h.points ++ point ∷ [] }

unfoldable pub get_points : HistoryBuffer → List TelemetryPoint
get_points h = h.points

-- The points given, added one after the other.
abbrev pub add_all : HistoryBuffer → List TelemetryPoint → HistoryBuffer
add_all h [] = h
add_all h (p ∷ ps) = add_all (add p.timestamp h p.cpu p.ram_pct) ps
