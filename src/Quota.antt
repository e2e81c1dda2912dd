-- ===== src/Quota.antt =====
-- internal/quota/quota.go: the daily quota, kept in one Redis hash for each user and Beijing day.
pub mod Types
pub mod Script
pub mod Ledger
pub mod Invariant
pub mod Manager
pub mod Histories
pub mod Retry
pub mod Tests
