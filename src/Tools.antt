-- ===== src/Tools.antt =====
-- services/tools.service.ts and utils/truncate.ts: the tools that run in a user's container. Walk,
-- Glob, Files and Search are the service, Truncate the cap on outputs.
pub mod Walk
pub mod Truncate
pub mod Glob
pub mod Files
pub mod Search
pub mod Termination
pub mod Preservation
pub mod Limits
pub mod Output
pub mod Editing
