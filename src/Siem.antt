-- ===== src/Siem.antt =====
-- src/siem: the events that are forwarded to a SIEM, the local buffer of those that could not be sent,
-- and the forwarder.
pub mod Event
pub mod Buffer
pub mod Forwarder
