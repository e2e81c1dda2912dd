-- ===== src/Orchestration.antt =====
-- internal/orchestration: conversation spaces, history selection, speaker planning and sending.
pub mod Types
pub mod Context
pub mod Model
pub mod Planning
pub mod Reply
pub mod DeepSeek
pub mod Store
pub mod Maintenance
pub mod Send
pub mod Application
pub mod RedisStore
pub mod Tests
