-- ===== src/Share.antt =====
-- Shares: backend/src/share/share.service.ts.
pub mod Expiration
pub mod Lifecycle
pub mod Edit
pub mod Access
pub mod Token
