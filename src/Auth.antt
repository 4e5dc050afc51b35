-- ===== src/Auth.antt =====
-- extension/src/auth: the session of the signed-in user.
pub mod Store
pub mod Session
