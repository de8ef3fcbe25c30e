-- ===== src/Ledger.antt =====
-- src/ledger/: the signed, hash-chained ledger.
pub mod Types
pub mod EntryType
pub mod Payload
pub mod Entry
pub mod Chain
