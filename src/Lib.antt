-- ===== src/Lib.antt =====
-- A verification library for mipsorcu, a service that stores secrets encrypted and keeps a signed,
-- hash-chained ledger of what happens to them.
--
-- The parts and how they interact. A write (src/write/prepare.rs) draws a data key, encrypts the
-- plaintext under it with associated data (src/aad.rs) that names the row, and wraps the data key
-- under a master key of the key ring (src/crypto.rs). A read (src/read.rs) authorises the caller
-- (src/authorization.rs, on the claims of a token that src/auth/ verified), compares the stored
-- context with the row, unwraps the data key and decrypts. What happened is appended to the ledger
-- (src/ledger/): the appender (src/server/ledger_appender.rs) fetches the head of the chain, signs
-- an entry on it, and tries again when another writer was faster; the verification
-- (src/ledger/verification.rs) walks the chain. Events go out to a SIEM (src/siem/), and exported
-- digests to an object store (src/archive/); what cannot be sent is kept in a local file of JSON
-- lines and sent again later. Every operation is recorded as an audit event (src/audit/event/),
-- whose metadata holds nothing secret. The scheduler (src/server/scheduler.rs) checks the whole
-- ledger every month, and then makes the digest of the month before and exports it.
--
-- The files.
--   Prelude            lists, texts as lists of code points, results with `?` as bind, Boolean tests
--   Json               serde_json: values, numbers, sorted maps; Readable: what is read back exactly
--   Crates             the other crates as a record of functions, and laws that they document
--   Draws              results that draw random bytes, by the count of the draws made so far
--   Errors             src/error.rs
--   SourceEventAt      src/types/time.rs
--   Secrets            src/types/ids.rs, src/types/secret_material.rs
--   Aad                src/aad.rs; Aad/RoundTrip: stored contexts
--   Keyring            `MasterKeyRing` of src/crypto.rs; Keyring/Lookup: what a built ring answers
--   Crypto             the rest of src/crypto.rs; Crypto/Seal: the operations that draw a nonce;
--                      Crypto/RoundTrip: encryption and wrapping are undone;
--                      Crypto/Binding: a wrapped key belongs to its secret and version
--   Authorization      src/authorization.rs, the claims of src/auth/jwt.rs
--   Auth/Jwks          src/auth/jwks.rs; Lookup: the key of a key id; Fit: keys for RS256
--   Auth/Verifier      src/auth/verifier.rs, `RawJwt` of src/auth/jwt.rs; Decoding: what a validation
--                      asks of a token; Acceptance: which tokens pass
--   Write, Write/Keyed src/write/; Write/Prepared, Write/RoundTrip, Write/Rotation: what a write
--                      prepares, a read decrypts
--   Read               src/read.rs; Read/FailClosed: where a plaintext comes from
--   Ledger/Types       src/ledger/{chain,hash,ids,signature,result,error}.rs
--   Ledger/EntryType   src/ledger/entry_type.rs; Ledger/EntryType/Names: names and parsing
--   Ledger/Payload     src/ledger/payload.rs and constants.rs (Forbidden, Keys, Fields); Safety and
--                      Canonical: what is accepted, and what its canonical form keeps
--   Ledger/Entry       src/ledger/entry.rs, src/ledger/canonical.rs
--   Ledger/Chain       src/ledger/verification.rs; Links and Tampering: the chain as a relation
--   LedgerAppender     src/server/ledger_appender.rs; Failures: the errors of an append, with those of
--                      src/server/supabase/; Signing and Retries: signed entries verify, and the retry loop
--   Alias/Input        src/alias/input.rs, `SecretRef` of src/types/ids.rs; Normal: which texts pass
--   Alias/Aad          src/alias/aad.rs; RoundTrip: stored contexts
--   Alias/Crypto       src/alias/{crypto,fingerprint,read}.rs
--   Alias/Prepare      src/alias/write.rs; RoundTrip: what is prepared, a read decrypts
--   DeliveryLog        the append-only files of src/siem/buffer.rs and src/archive/s3/queue.rs: maps,
--                      lines, replay, the loop of a resend; Order, Replay, Pending, Resend: what a log
--                      holds as pending, and what a resend leaves
--   Siem/Event         src/siem/event.rs
--   Siem/Buffer        src/siem/buffer.rs; Readable: events that a line gives back; Refinement,
--                      History: the file stands for a map of events
--   Siem/Forwarder     src/siem/forwarder.rs, src/siem/sink.rs; Delivery, Failures: no event is lost,
--                      and the failure state
--   Archive/Backend    src/archive/backend.rs, src/archive/s3/error.rs
--   Archive/Export     src/archive/export.rs
--   Archive/Retry      src/archive/s3/retry.rs; Attempts, Delay: its attempts and delays
--   Archive/Queue      src/archive/s3/queue.rs; Refinement: the file stands for a map of objects
--   Archive/Store      src/archive/s3/backend.rs and the answers of src/archive/s3/client.rs;
--                      Immutable, Queueing: objects that are put, queued and sent again
--   Audit/Action       src/audit/event/action.rs, src/audit/error.rs; Names: names and parsing
--   Audit/Metadata     src/audit/event/metadata.rs (Forbidden, Keys, Values); Safety: what is accepted
--   Audit/Event        src/audit/event/{model,id,validation}.rs; Validity: what is accepted
--   Audit/Builders     src/audit/event/metadata/builders.rs; Known: builders keep to the allowlists
--   LedgerRows         src/server/supabase/ledger_export_rpc.rs: rows restored to entries and keys
--   Scheduler          src/server/scheduler.rs: locks, periods and due times; Rows: the checks of the
--                      whole ledger (Restored, Refusal, Agreement: what they accept); Jobs; Due: the
--                      loop; Completed, Digests, Gated, Loop: what was archived was verified; Once,
--                      Locks: no lock is held between jobs
--   Tests              concrete functions in the place of the crates, and the runs on them
--
-- How code corresponds. Structs are records and enums are data types; a newtype is the value that
-- it holds, with the constructor's check as a function (`SecretVersion::new` is
-- `new_secret_version`). A function that returns `Result` returns `Result`, in the order of the
-- source's `?`. A function that draws random bytes maps the number of draws so far to its result
-- and the number after it; the bytes of a draw are a parameter. The `unreachable!` of
-- `MasterKeyRing::active` is `none`. A `u64` addition is `checked_add_one`, an `i64` conversion is
-- a comparison with `ledger_i64_max`. UUIDs and times are opaque numbers. A file is its text; how
-- the file system, a blocking task, the sink or the bucket answers is an argument. A lock that a
-- panic poisoned is a field of the state. What derived serialization does is a record `Serde` of
-- functions, with the laws that it documents: serde_json reads back what it wrote where no float
-- is in it and no more than 127 arrays and objects stand around each other (Json/Readable). What
-- jsonwebtoken documents of `decode` is `JwtLaws`.
--
-- Bounds. The loop of `append` runs on the number of rounds, one more than the limit, as in the
-- source's inclusive range. The loop of `run_with_backoff` has no fuel: it recurs on the attempts that
-- are left, which fall where its own guard `attempt >= max_retries` has let it go on. Every other loop
-- is recursion on a list.
--
-- Not modelled: the HTTP server, the Supabase client, the configuration and start-up, which are
-- input and output; SQL and scripts, which are other languages; digests, the fallback store of
-- audit events, incidents, timestamping and key rotation, which are further components; the
-- waiting of the scheduler, and the services that its jobs call, which are a record of functions;
-- the messages of errors, `Debug` output and the zeroing of memory.
mod Prelude
pub mod Json
pub mod Crates
pub mod SourceEventAt
pub mod Ledger
pub mod LedgerAppender
pub mod Errors
pub mod Draws
pub mod Secrets
pub mod Aad
pub mod Keyring
pub mod Authorization
pub mod Crypto
pub mod Read
pub mod Write
pub mod DeliveryLog
pub mod Siem
pub mod Archive
pub mod Alias
pub mod Auth
pub mod Audit
pub mod LedgerRows
pub mod Scheduler
mod Tests
