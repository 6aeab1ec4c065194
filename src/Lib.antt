-- ===== src/Lib.antt =====
-- Crybaby: a controller that keeps a cluster of Hyper-V hosts, and an agent on each host.
--
-- The parts and their files:
--   Types (Node, Vm, Cluster): the data of pkg/types.
--   Http: what the handlers read of a request, and decoders of its body.
--   Hyperv: pkg/hyperv/engine.go. Engine is the interface; Simulated, with Machines and
--     Checkpoints, is `simulatedEngine`, one function for each of its methods; Calls makes it a
--     value of the interface and lists its calls. Invariant and its children, Creation, Disks,
--     Lifecycle, Snapshots and Switches hold the theorems. Windows is `windowsEngine` over the
--     host's shell: Scripts has the texts of its scripts, Machines and Checkpoints its methods,
--     Calls the value of the interface with `NewEngine`; Commands, Listing and Agreement hold the
--     theorems.
--   Agent: cmd/agent/main.go. Vms and Host are the handlers of `startAgentRPCServer` over any
--     engine, with `serve` for its multiplexer; Heartbeat is what `main`, `registerWithController`
--     and `sendHeartbeat` compute, Startup the start of `main` and a turn of its loop; Hardware is
--     hardware.go and metrics.go; Calls relates the handlers to the engine's calls, its Steps for
--     any engine.
--   Registry: pkg/cluster/registry.go, one function for each method; Mesh has the mesh addresses
--     and Summary `GetClusterSummary`. Octets, Invariant, Registration, Persistence and Liveness
--     hold the theorems.
--   History: pkg/cluster/history.go. Wol: pkg/cluster/wol.go. Auth: pkg/auth/auth.go.
--   Updater: pkg/updater/updater.go; Writes and Replacement hold the theorems.
--   Iso: pkg/iso/catalog.go, its Catalog the list of images and
--     their sizes. Images: the handlers of the images in cmd/controller/main.go.
--   Mesh: the keys of pkg/mesh/wireguard.go.
--   Controller: cmd/controller/main.go. Nodes is `handleNodeSubroutes`, Proxy `proxyToNode` and
--     the forwarding of updates, Cluster the registration, log-in, status and reset handlers with
--     `serve` for their routes. Calls, Reach and Paths hold the theorems.
--   Provision: what cmd/controller/main.go hands to new nodes, with the two installers; Address
--     and Files hold the theorems.
--   Dashboard: the periodic loops, the dashboards' connections and the terminal's proxy of
--     cmd/controller/main.go, and Page the handler of dashboard.go; Ticks and Relay hold the
--     theorems.
--   Cluster: an agent's heartbeat and the controller together; Machines: a request to the
--     controller, through a node's agent, to its engine.
--   Hub: cmd/controller/hub.go; Round, Drain, Steps and Histories hold the theorems.
--   Terminal: pkg/terminal/session.go; Opening, Streams and Closing hold the theorems.
--   Base: shared lists, maps, texts, decimal numbers, results and 64-bit integers.
--
-- The controller's handlers call the registry, and answer a request or forward it to an agent; an
-- agent's handlers call its engine. The engine and the registry hold one lock throughout each
-- operation, so a history is a list of operations.
-- Go maps are association lists whose order is that of `range`; a Go `int` is a signed number
-- with sums modulo 2^64, a `uint64` a natural number with `% 2 ^ 64` written out.
--
-- Parameters: the Unicode tables, the decoders of encoding/json, the state file, clock readings,
-- random identifiers, package net, net/http's client, os/exec, base64 and HMAC. Additions and
-- divisions of float64 are parameters too; a float64 is its bit pattern.
--
-- Bounds: the mesh octet is an `int` that the model keeps as its 64 bits, and its sums wrap. The
-- theorems on the registry are for octets below 2^63, that on a restart for mesh addresses whose
-- octets are below 2^63 - 1; an operation raises the octet by at most two (a reset sets it to 2),
-- and the bound on a history leaves that for each. The loop of `FormatBytes` has fuel for six
-- turns, which is enough for 63 bits; all other loops are structural.
--
-- The hub's events are a relation between its states, and the loops of a terminal session take
-- turns, as do those of a terminal's proxy: any order of any of them is a history. What
-- encoding/json makes of a shell's bytes is a parameter. A hub's connection is a number; the log of what was
-- written and closed is part of the state.
--
-- Not modelled: what PowerShell makes of a script; the text of the dashboard's page, which is an
-- argument of its handler; the files served by http.FileServer and http.ServeFile; signals,
-- logging and HTTP headers; the cleaning of paths by http.ServeMux.
mod Base
pub mod Types
pub mod Http
pub mod Hyperv
pub mod Agent
pub mod Registry
pub mod History
pub mod Wol
pub mod Updater
pub mod Auth
pub mod Iso
pub mod Hub
pub mod Terminal
pub mod Controller
pub mod Provision
pub mod Images
pub mod Dashboard
pub mod Mesh
pub mod Cluster
mod Tests
