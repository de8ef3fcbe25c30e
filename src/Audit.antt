-- ===== src/Audit.antt =====
-- src/audit/event: actions, metadata, and the events that are recorded.
pub mod Action
pub mod Metadata
pub mod Event
pub mod Builders
