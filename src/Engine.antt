-- ===== src/Engine.antt =====
-- src/engine: the blocklists, the matcher that is asked for every query, and the pause state.
pub mod Matcher
pub mod Blocklist
pub mod State
