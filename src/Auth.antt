-- ===== src/Auth.antt =====
-- Signing in: backend/src/auth.
pub mod Session
pub mod Ldap
pub mod SignIn
pub mod Password
pub mod Totp
