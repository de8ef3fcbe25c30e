-- ===== src/Tests.antt =====
-- Tests on concrete inputs, and the theorems at inputs that meet their hypotheses.
mod Scheduler
mod Auth
mod Audit
mod Alias
mod Archive
mod Siem
mod Wire
mod Codec
mod Toy
mod Ledger
mod Payload
mod Secrets
