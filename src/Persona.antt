-- ===== src/Persona.antt =====
-- internal/persona/registry.go and persona.go: the fixed characters and the aliases in a text.
pub mod Registry
pub mod Aliases
