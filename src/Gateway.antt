-- ===== src/Gateway.antt =====
-- internal/gateway: the handlers of the web interface.
pub mod Messages
pub mod Accounts
pub mod AgentClient
pub mod Receive
pub mod Api
