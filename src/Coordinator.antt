-- ===== src/Coordinator.antt =====
-- The coordinator: jobs, tasks and leases, the quorum over redundant results, and spot checks.
pub mod TaskState
pub mod Affinity
pub mod Job
pub mod Quorum
pub mod SpotCheck
pub mod Composite
pub mod Doubles
pub mod Sizer
pub mod Fleet
pub mod Assets
pub mod Kernels
pub mod Params
pub mod Compositor
pub mod Session
pub mod Server
pub mod Reputation
pub mod Samples
