-- ===== src/Tests.antt =====
-- The theorems at concrete inputs, and the data that they are tried on.
mod Samples
mod Engine
mod Agent
mod Registry
mod Controller
mod Parts
mod Windows
mod Live
mod Site
mod Cluster
