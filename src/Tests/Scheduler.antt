-- ===== src/Tests/Scheduler.antt =====
-- The checks of the whole ledger and the loop of the scheduler on concrete inputs.

use mipsorcu.Scheduler.{Date, restore_test, run_once_per_period}
use mipsorcu.Scheduler.Locks.{run_scheduler_loop-once}
use mipsorcu.Scheduler.Once.{once}
use mipsorcu.Scheduler.Loop.{run_scheduler_loop-IsGated}
use mipsorcu.Scheduler.Rows.{verify_signature_rows, verify_hash_chain_rows}
use mipsorcu.Scheduler.Digests.{DigestLaws}
use mipsorcu.Scheduler.Gated.{IsGated}
use mipsorcu.Scheduler.Due.{key_of, run_scheduler_loop, SchedulerConfig}
use mipsorcu.Scheduler.Jobs.{run_quarterly_job, Services}
use mipsorcu.Scheduler.Rows.Agreement.{verify_rows_iff, Passes}
use mipsorcu.Scheduler.Rows.Restored.{no_rows, restored, Restored}
use mipsorcu.Ledger.Chain.{verify_ledger_chain}
use mipsorcu.Ledger.Entry.{SignedLedgerEntry, from_stored_parts, build_canonical_payload}
use mipsorcu.Ledger.Types.{genesis, LedgerChainHead, LedgerVerifyingKey, genesis_hash}
use mipsorcu.LedgerRows.{
  LedgerVerificationMaterialRow, try_restore_signed_ledger_entry, try_restore_verifying_key,
}
use mipsorcu.Json.{object, end, entry, number, unsigned}
use mipsorcu.Prelude.{
  arith, suc, ◌∷◌, Text, ◌↔◌, List, [], ℕ, ◌≡◌, refl, ◌++◌, Bytes, codes, none, some, ok, replicate,
}
use mipsorcu.Tests.Toy.{toy}

abbrev row : Bytes → Bytes → LedgerVerificationMaterialRow
row entry_hash signature = record {
  ledger_entry_id = 1;
  sequence_no = 1;
  entry_hash = entry_hash;
  previous_entry_hash = genesis_hash;
  signature = signature;
  signature_key_version = 1;
  entry_type = codes "secret_created";
  source_event_at = codes "@Z";
  request_id = codes "r";
  source_event_id = none;
  target_secret_id = some (codes "s");
  target_secret_version_id = none;
  actor_user_id = none;
  actor_device_id = some (codes "device-1");
  result = codes "success";
  error_code = none;
  payload = object (entry (codes "version") (number (unsigned 1)) end);
  pk_key_version = some 1;
  pk_public_key = some (codes "\\x" ++ replicate 32 7);
  pk_algorithm = some (codes "ed25519");
  pk_status = some (codes "active");
}

entry_of :
    (entry_hash signature : Bytes)
    → (e : SignedLedgerEntry) × (try_restore_signed_ledger_entry toy (row entry_hash signature)
        ≡ ok e)
unfolding try_restore_signed_ledger_entry toy
    mipsorcu.Ledger.Payload.Forbidden.reject_forbidden_payload_keys
    mipsorcu.Ledger.Payload.Forbidden.is_forbidden_payload_key
    mipsorcu.Ledger.Payload.validate_payload_object mipsorcu.Ledger.Payload.validate_entries
    mipsorcu.Ledger.EntryType.allowed_payload_keys
    mipsorcu.Ledger.Payload.Fields.validate_payload_field
    mipsorcu.Ledger.Payload.Fields.validate_old_new_key_versions
    mipsorcu.Ledger.Payload.canonical_payload_object mipsorcu.Ledger.Entry.validate_parts
    build_canonical_payload
entry_of entry_hash signature = (_, refl)

key_of_row :
    (entry_hash signature : Bytes)
    → (key : LedgerVerifyingKey) × (try_restore_verifying_key toy (row entry_hash signature)
        ≡ ok (some key))
unfolding try_restore_verifying_key toy mipsorcu.LedgerRows.restore_key
key_of_row entry_hash signature = (_, refl)

-- the hash and the signature that belong to the row
abbrev hash : Bytes
unfolding toy
hash = toy.sha256 (entry_of [] []).0.canonical_payload

abbrev signature : Bytes
unfolding toy
signature = toy.ed25519_sign (replicate 32 7) (entry_of [] []).0.canonical_payload

abbrev rows : List LedgerVerificationMaterialRow
rows = row hash signature ∷ []

abbrev entries : List SignedLedgerEntry
entries = (entry_of hash signature).0 ∷ []

abbrev keys : List LedgerVerifyingKey
keys = (key_of_row hash signature).0 ∷ []

abbrev head : LedgerChainHead
head = record { last_sequence_no = 1; last_entry_hash = hash }

accepted : verify_ledger_chain toy entries genesis keys ≡ ok head
unfolding verify_ledger_chain toy mipsorcu.Ledger.Chain.verify_entry entry_of
    mipsorcu.Ledger.Entry.canonical_document mipsorcu.Ledger.Chain.find_verification_key_with_seq
    key_of_row mipsorcu.Ledger.Types.verify_payload mipsorcu.Ledger.Types.new_chain_head
accepted = refl

rows-Restored : Restored toy keys rows entries
unfolding toy key_of_row entry_of
rows-Restored =
    restored (key_of_row hash signature).0 (entry_of hash signature).1 (key_of_row hash signature).1
      refl no_rows

verify_rows_iff_example :
    (Passes toy keys (verify_hash_chain_rows toy head rows)
      × Passes toy keys (verify_signature_rows toy rows))
    ↔ (verify_ledger_chain toy entries genesis keys ≡ ok head)
verify_rows_iff_example = verify_rows_iff toy keys rows entries head (omega arith) rows-Restored

-- services on a world that counts the calls of the database, with the period for its digest
abbrev services : Services ℕ Text
services = record {
  record_job_result = λ job result code period w. (ok tt, w);
  record_incident = λ job code period w. w;
  fetch_rows = λ w. (ok (head, rows), suc w);
  new_request = λ w. (ok tt, w);
  generate_digest = λ period w. (ok period, suc w);
  record_digest_failure = λ period code w. w;
  fetch_signed_digest = λ period w. (ok period, suc w);
  period_of = λ period. period;
  export_digest = λ period w. (ok tt, w);
  run_restore_test = λ w. (ok tt, w);
}

services_laws : DigestLaws toy services
services_laws = record { generated = λ period w d h. cc; fetched = λ period w d h. cc }

abbrev config : SchedulerConfig
config = record { monthly_day = 1; monthly_hour_utc = 3; quarterly_hour_utc = 4 }

abbrev times : List Date
times =
    record { year = 2026; month = 1; day = 1; hour = 5 }
    ∷ record { year = 2026; month = 2; day = 1; hour = 3 }
    ∷ []

run_scheduler_loop-IsGated_example : IsGated (run_scheduler_loop toy services config times 0).0
run_scheduler_loop-IsGated_example =
    run_scheduler_loop-IsGated toy services services_laws config times 0

-- the restore test of the first quarter, in February
run_scheduler_loop-once_example :
    run_once_per_period
      (key_of restore_test (codes "2026-Q1"))
      (run_quarterly_job toy services restore_test)
      (run_scheduler_loop toy services config times 0).0
      7
    ≡ once
        (key_of restore_test (codes "2026-Q1"))
        (run_quarterly_job toy services restore_test)
        (run_scheduler_loop toy services config times 0).0
        7
run_scheduler_loop-once_example =
    run_scheduler_loop-once toy services config times 0 7 (key_of restore_test (codes "2026-Q1"))
      (run_quarterly_job toy services restore_test)
