-- ===== src/Containers.antt =====
-- services/container.service.ts: the lifecycle of containers, their snapshots and their mounts. Each
-- method that runs under `withContainerLock` is one action, as is each method that does not.
pub mod Host
pub mod Mounts
pub mod Create
pub mod Lifecycle
pub mod Snapshots
pub mod Sessions
pub mod Ownership
pub mod Reads
pub mod Restoring
pub mod Writes
pub mod Creation
pub mod Capacity
pub mod Invariants
pub mod Isolation
pub mod States
