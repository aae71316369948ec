-- ===== src/Web.antt =====
-- The management interface of crates/agent/src/web: who may use it, and the stop of a component.
pub mod Sessions
pub mod Components
mod Tests
