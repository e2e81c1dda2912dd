-- ===== src/Orchestration/Context.antt =====
-- internal/orchestration/context.go: the token estimate, and the choice of the history that fits.
pub mod Estimate
pub mod Select
