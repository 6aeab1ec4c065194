-- ===== src/Tests/Site.antt =====
-- The theorems on the dashboards, the images and provisioning at concrete inputs (cmd/controller,
-- pkg/iso/catalog.go).
use crybaby.Agent.Hardware.{get_primary_mac_address}
use crybaby.Base.{
  ℕ, ◌≤◌, ◌≡◌, refl, ◌⊎◌, ◌<◌, String, pos, true, false, List, [], ◌∷◌, none, some, length, arith,
  text_discrete, ℕ_discrete,
}
use crybaby.Base.Decimal.{show_int}
use crybaby.Base.Strings.{after_prefix}
use crybaby.Base.Spaces.{has_prefix}
use crybaby.Base.Text.{◌<>◌}
use crybaby.Dashboard.{
  Server, Library, Forward, to_agent, to_browser, returns, relay, nothing_relayed,
}
use crybaby.Dashboard.Page.{handle_web_dashboard}
use crybaby.Dashboard.Relay.{for_agent, for_browser, while_open, returned, relay_lem}
use crybaby.Dashboard.Ticks.{Tick, telemetry, reap, ticks, points_of, ticks-get_points}
use crybaby.History.{new_history_buffer, get_points}
use crybaby.History.Window.{last}
use crybaby.Http.{post, Request}
use crybaby.Hub.{new_hub, capacity}
use crybaby.Hub.Drain.{chronological}
use crybaby.Images
use crybaby.Images.{handle_download_iso}
use crybaby.Images.Requests.{IsBegun, IsRefused, handle_download_iso_lem}
use crybaby.Iso.Catalog.{unit_letter, format_bytes}
use crybaby.Iso.Sizes.{IsUnit, format_bytes-IsUnit}
use crybaby.Provision.{Network, Visit, resolve_controller_host}
use crybaby.Tests.Samples.{plain, one_node, floats}
use crybaby.Types.Node.{online}

abbrev library : Library
library = record {
  floats = floats;
  percent = λ a _. a;
  zero_float = 0;
  marshal_tick = λ _ _ _. some "tick";
  marshal_initial = λ _ _. some "initial";
}

abbrev server : Server
server = record { registry = one_node online; history = new_history_buffer (pos 30); hub = new_hub }

abbrev some_ticks : List Tick
some_ticks = telemetry (pos 2) ∷ reap 40 ∷ telemetry (pos 4) ∷ []

no_messages : length new_hub.broadcast ≤ capacity
unfolding new_hub
no_messages = omega arith

ticks-get_points_example :
    (get_points (ticks library some_ticks server).history
      ≡ last 30 (points_of library some_ticks server))
    × (length (ticks library some_ticks server).hub.broadcast ≤ capacity)
ticks-get_points_example = ticks-get_points library some_ticks server refl no_messages

-- The loop to the agent ends, the other forwards one more message, and the handler returns.
abbrev forwards : List Forward
forwards =
    to_agent (some "ls")
    ∷ to_browser (some "a.txt")
    ∷ to_agent none
    ∷ to_browser (some "b.txt")
    ∷ returns
    ∷ to_browser (some "late")
    ∷ []

relay_lem_example :
    let t = relay forwards nothing_relayed in
    (chronological t.agent ≡ for_agent (while_open false forwards))
    × (chronological t.browser ≡ for_browser (while_open false forwards))
    × (t.closed ≡ returned false forwards)
relay_lem_example = relay_lem forwards

sample_relay : for_browser (while_open false forwards) ≡ "a.txt" ∷ "b.txt" ∷ []
unfolding for_browser while_open
sample_relay = refl

abbrev images_library : Images.Library
images_library = record {
  unicode = plain;
  base = λ p. p;
  parse = λ _. some ("https", "/debian.iso");
  id = "j1";
  now = 3;
  decode = λ _. (("https://mirror/debian.iso", ""), true);
}

abbrev fetching : Request
fetching = record { method = post; path = "/api/v1/iso/download"; body = "{}" }

handle_download_iso_lem_example :
    let t = handle_download_iso images_library [] fetching in
    ((fetching.method ≡ post) × IsBegun images_library [] (images_library.decode fetching.body) t)
    ⊎ IsRefused [] t
handle_download_iso_lem_example = handle_download_iso_lem images_library [] fetching

-- A quotient that is printed without its fraction.
abbrev whole : ℕ → ℕ → String
whole bytes div = "1.5"

format_bytes-IsUnit_example :
    ((1572864 < 1024) × (format_bytes whole (pos 1572864) ≡ some (show_int (pos 1572864) <> " B")))
    ⊎ ((div : ℕ) × (exp : ℕ) × (letter : String) × IsUnit 1572864 div exp
        × (unit_letter exp ≡ some letter)
        × (format_bytes whole (pos 1572864) ≡ some (whole 1572864 div <> " " <> letter <> "B")))
format_bytes-IsUnit_example = format_bytes-IsUnit whole 1572864 (omega arith)

sample_size : format_bytes whole (pos 1572864) ≡ some "1.5 MB"
unfolding format_bytes
sample_size = refl

abbrev network : Network
network = record {
  local_addr = none;
  interface_addrs = some (
      some (record { is_loopback = true; to4 = some "127.0.0.1" })
      ∷ some (record { is_loopback = false; to4 = some "192.168.1.1" })
      ∷ []);
}

abbrev visit : Visit
visit = record { query_host = ""; host = "localhost:8080"; forwarded_proto = ""; has_tls = false }

sample_host : resolve_controller_host network "8080" visit ≡ "192.168.1.1:8080"
unfolding resolve_controller_host text_discrete has_prefix after_prefix ℕ_discrete
sample_host = refl

sample_page :
    handle_web_dashboard "<b>{{CLUSTER_TOKEN}}:{{PORT}}</b>" "t0" "8080" "/" ≡ some "<b>t0:8080</b>"
unfolding handle_web_dashboard text_discrete has_prefix after_prefix ℕ_discrete
sample_page = refl

sample_mac :
    get_primary_mac_address (
      some (
        record { is_up = true; is_loopback = true; hardware_addr = "" }
        ∷ record { is_up = true; is_loopback = false; hardware_addr = "0a:1b" }
        ∷ []))
    ≡ "0a:1b"
unfolding get_primary_mac_address text_discrete
sample_mac = refl
