-- ===== src/Storage.antt =====
-- services/workspace-storage.ts and services/container-mounts.ts: the files of workspaces and of
-- mounts on the host.
pub mod Paths
pub mod Containment
pub mod Tree
pub mod Names
pub mod Uploads
