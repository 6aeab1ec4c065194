-- ===== src/Dashboard/Ticks.antt =====
-- What the periodic loops of cmd/controller/main.go have done after any number of turns.
use crybaby.Base.{
  ℕ, suc, ◌≤◌, ◌≡◌, refl, ◌∙◌, ap, ℤ, pos, List, [], ◌∷◌, Option, none, some, length, length-append,
  arith, Bool-cases, inl, inr, ltb, String,
}
use crybaby.Dashboard.{Server, Library, ram_pct, telemetry_tick, reaper_tick}
use crybaby.History.{new_history_buffer, get_points, add_all}
use crybaby.History.Window.{last, add_all-get_points}
use crybaby.Hub.{Hub, broadcast_json, capacity}
use crybaby.Registry.Summary.{get_cluster_summary}
use crybaby.Types.Cluster.{TelemetryPoint}
use crybaby.Types.Node.{Time}

-- A turn of the telemetry loop, or of the reaper.
pub data Tick : Type 0 where
  telemetry : ℤ → Tick
  reap : Time → Tick

unfoldable pub tick : Library → Tick → Server → Server
tick l (telemetry seconds) s = telemetry_tick l seconds s
tick l (reap now) s = reaper_tick now s

unfoldable pub ticks : Library → List Tick → Server → Server
unfolding tick
ticks l [] s = s
ticks l (t ∷ ts) s = ticks l ts (tick l t s)

-- The cluster's load at a time, from the summary of its registry.
abbrev pub point : Library → ℤ → Server → TelemetryPoint
point l seconds s =
    let summary = get_cluster_summary l.floats s.registry in
    record { timestamp = seconds; cpu = summary.avg_cpu_usage_pct; ram_pct = ram_pct l summary }

-- The points of the telemetry turns, each of the registry that the turns before it have left.
unfoldable pub points_of : Library → List Tick → Server → List TelemetryPoint
points_of l [] s = []
points_of l (telemetry seconds ∷ ts) s =
    point l seconds s ∷ points_of l ts (telemetry_tick l seconds s)
points_of l (reap now ∷ ts) s = points_of l ts (reaper_tick now s)

ticks-add_all :
    (l : Library) (ts : List Tick) (s : Server)
    → (ticks l ts s).history ≡ add_all s.history (points_of l ts s)
unfolding ticks tick points_of telemetry_tick reaper_tick
ticks-add_all l [] s = refl
ticks-add_all l (telemetry seconds ∷ ts) s = ticks-add_all l ts (telemetry_tick l seconds s)
ticks-add_all l (reap now ∷ ts) s = ticks-add_all l ts (reaper_tick now s)

broadcast_json-bounded :
    (d : Option String) (h : Hub)
    → length h.broadcast ≤ capacity
    → length (broadcast_json d h).broadcast ≤ capacity
unfolding broadcast_json
broadcast_json-bounded none h b = b
broadcast_json-bounded (some m) h b = elim (Bool-cases (ltb (length h.broadcast) capacity)) [
  | inl room ↦ rw room (ground (arith, room, length-append h.broadcast (m ∷ [])))
  | inr full ↦ rw full b
]

ticks-bounded :
    (l : Library) (ts : List Tick) (s : Server)
    → length s.hub.broadcast ≤ capacity
    → length (ticks l ts s).hub.broadcast ≤ capacity
unfolding ticks tick telemetry_tick reaper_tick
ticks-bounded l [] s b = b
ticks-bounded l (telemetry seconds ∷ ts) s b =
    ticks-bounded l ts (telemetry_tick l seconds s) (broadcast_json-bounded _ s.hub b)
ticks-bounded l (reap now ∷ ts) s b = ticks-bounded l ts (reaper_tick now s) b

thirty : (c : ℕ) → (new_history_buffer (pos 30)).capacity ≡ pos (suc c) → suc c ≡ 30
unfolding new_history_buffer
thirty c e = ground (arith, e)

-- After any turns of the telemetry loop and of the reaper, in any order, a controller that began
-- with a new history of 30 points shows the last 30 loads, or as many as there are, in their order
-- and each of the registry as it was then; the turns never have more than 100 messages wait.
pub ticks-get_points :
    (l : Library) (ts : List Tick) (s : Server)
    → s.history ≡ new_history_buffer (pos 30)
    → length s.hub.broadcast ≤ capacity
    → (get_points (ticks l ts s).history ≡ last 30 (points_of l ts s))
      × (length (ticks l ts s).hub.broadcast ≤ capacity)
ticks-get_points l ts s new bound =
    let (c, cap, small, all, size) = add_all-get_points (pos 30) (points_of l ts s) in
    (
      ap get_points (ticks-add_all l ts s ∙ ap (λ h. add_all h (points_of l ts s)) new)
          ∙ (all ∙ ap (λ k. last k (points_of l ts s)) (thirty c cap)),
      ticks-bounded l ts s bound,
    )
