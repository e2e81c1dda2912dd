-- ===== src/Agent.antt =====
-- internal/agent: the server of the agent.
pub mod Wire
pub mod Server
pub mod Definitive
pub mod Tests
pub mod Maintenance
