-- ===== src/Archive.antt =====
-- src/archive: the external store of exported digests. The objects and errors of the backend, its
-- retries, the operations on an immutable object store, and the queue of objects still to be put.
pub mod Backend
pub mod Retry
pub mod Queue
pub mod Export
pub mod Store
