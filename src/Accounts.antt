-- ===== src/Accounts.antt =====
-- Users and their credentials: services/user.service.ts, auth.service.ts, apikey.service.ts and
-- auth/jwt.ts, auth/password.ts, auth/middleware.ts.
pub mod Vault
pub mod Users
pub mod Auth
pub mod ApiKeys
pub mod Guard
pub mod Sessions
pub mod Login
pub mod Keys
pub mod Gate
