-- ===== src/Hyperv.antt =====
-- pkg/hyperv/engine.go: the interface of an engine, and the simulated engine behind it.
pub mod Engine
pub mod Simulated
pub mod Windows
pub mod Calls
pub mod Invariant
pub mod Lifecycle
pub mod Creation
pub mod Disks
pub mod Snapshots
pub mod Switches
