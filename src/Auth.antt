-- ===== src/Auth.antt =====
-- internal/auth: registration, login and sessions.
pub mod Letter
pub mod Mailer
pub mod Pending
pub mod Sessions
pub mod Service
pub mod Password
pub mod Admin
