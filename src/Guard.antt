-- ===== src/Guard.antt =====
-- The guards that stand before the handlers.
pub mod Jwt
pub mod Owner
pub mod Security
pub mod Upload
