-- ===== src/Types.antt =====
-- pkg/types: the values that the controller, the agents and the engines exchange.
pub mod Node
pub mod Vm
pub mod Cluster
