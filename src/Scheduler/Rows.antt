-- ===== src/Scheduler/Rows.antt =====
-- The checks of the whole ledger in src/server/scheduler.rs: `verify_hash_chain_rows` and
-- `verify_signature_rows`, with `ledger_payload_contains_forbidden_key` of src/incident/recorder.rs.
-- `checked_count` counts in a u64.
pub mod Restored
pub mod Refusal
pub mod Agreement
use mipsorcu.Crates.{Crates}
use mipsorcu.Json.{
  Value, Values, Map, null, boolean, number, string, array, object, nil, cons, end, entry,
}
use mipsorcu.Ledger.Entry.{SignedLedgerEntry, recompute_entry_hash, verify_signature}
use mipsorcu.Ledger.Payload.Forbidden.{is_forbidden_payload_key}
use mipsorcu.Ledger.Types.{LedgerChainHead, genesis, checked_add_one, u64_max}
use mipsorcu.LedgerRows.{
  LedgerVerificationMaterialRow, try_restore_signed_ledger_entry, try_restore_verifying_key,
}
use mipsorcu.Prelude.{
  ℕ, ◌+◌, Bool, true, false, not, ◌||◌, Bytes, bytes_eq, Text, codes, length, Option, none, some,
  Result, ok, err, ◌>>=◌, ◌>>◌, ok_or, map_err, reject, List, [], ◌∷◌, ◌==◌, min,
}

unfoldable mutual
  unfolding is_forbidden_payload_key

  pub ledger_payload_contains_forbidden_key : Value → Bool
  ledger_payload_contains_forbidden_key null = false
  ledger_payload_contains_forbidden_key (boolean b) = false
  ledger_payload_contains_forbidden_key (number n) = false
  ledger_payload_contains_forbidden_key (string s) = false
  ledger_payload_contains_forbidden_key (array values) = array_contains_forbidden_key values
  ledger_payload_contains_forbidden_key (object m) = object_contains_forbidden_key m

  pub array_contains_forbidden_key : Values → Bool
  array_contains_forbidden_key nil = false
  array_contains_forbidden_key (cons value values) =
      ledger_payload_contains_forbidden_key value || array_contains_forbidden_key values

  pub object_contains_forbidden_key : Map → Bool
  object_contains_forbidden_key end = false
  object_contains_forbidden_key (entry key nested m) =
      (is_forbidden_payload_key key || ledger_payload_contains_forbidden_key nested)
      || object_contains_forbidden_key m

pub record LedgerVerificationSummary : Type 0 where
  pub valid : Bool
  pub checked_count : ℕ
  pub error_code : Option Text

abbrev pub entry_count : ℕ → ℕ
entry_count len = min len u64_max

-- What a function returns early, which stops its loops.
abbrev pub Returned : Type 0
Returned = Result Text LedgerVerificationSummary

-- `return Ok(LedgerVerificationSummary { valid: false, .. })`
abbrev pub invalid : ℕ → Text → Returned
invalid checked_count code =
    ok (record { valid = false; checked_count = checked_count; error_code = some code })

abbrev pub passed : ℕ → LedgerVerificationSummary
passed checked_count = record { valid = true; checked_count = checked_count; error_code = none }

-- the value that a function with early returns gives
abbrev pub returned : Result Returned LedgerVerificationSummary → Returned
returned (ok summary) = ok summary
returned (err early) = early

module _ (c : Crates) where
  -- the first loop of `verify_hash_chain_rows`, with the number of entries restored before
  unfoldable pub restore_entries :
      List LedgerVerificationMaterialRow → ℕ → Result Returned (List SignedLedgerEntry)
  unfolding ledger_payload_contains_forbidden_key try_restore_signed_ledger_entry
  restore_entries [] restored = ok []
  restore_entries (row ∷ rows) restored = do
    reject (ledger_payload_contains_forbidden_key row.payload)
        (invalid (entry_count restored) (codes "ledger_payload_forbidden_key"))
    e ←
        map_err (λ error. err (codes "ledger_entry_restore_failed"))
          (try_restore_signed_ledger_entry c row)
    entries ← restore_entries rows (restored + 1)
    ok (e ∷ entries)

  -- the body of the second loop
  unfoldable pub check_link : ℕ → ℕ → Bytes → SignedLedgerEntry → Result Returned (Unit {0})
  check_link checked_count previous_sequence_no previous_hash e = do
    expected ← checked_add_one previous_sequence_no (err (codes "ledger_sequence_overflow"))
    reject (not (e.sequence_no == expected)) (invalid checked_count (codes "ledger_sequence_gap"))
    reject (not (bytes_eq e.previous_entry_hash previous_hash))
        (invalid checked_count (codes "ledger_previous_hash_mismatch"))
    reject (not (bytes_eq (recompute_entry_hash c e) e.entry_hash))
        (invalid checked_count (codes "ledger_entry_hash_mismatch"))

  -- the second loop, which ends with the last number and hash
  unfoldable pub check_links : ℕ → ℕ → Bytes → List SignedLedgerEntry → Result Returned (ℕ × Bytes)
  check_links checked_count previous_sequence_no previous_hash [] =
      ok (previous_sequence_no, previous_hash)
  check_links checked_count previous_sequence_no previous_hash (e ∷ es) =
      check_link checked_count previous_sequence_no previous_hash e >>= λ _.
      check_links checked_count e.sequence_no e.entry_hash es

  unfoldable pub check_chain :
      LedgerChainHead
      → List LedgerVerificationMaterialRow
      → Result Returned LedgerVerificationSummary
  check_chain chain_head rows = do
    entries ← restore_entries rows 0
    last ←
        check_links (entry_count (length entries)) genesis.last_sequence_no genesis.last_entry_hash
          entries
    reject
        (not (last.0 == chain_head.last_sequence_no)
          || not (bytes_eq last.1 chain_head.last_entry_hash))
        (invalid (entry_count (length entries)) (codes "ledger_chain_head_mismatch"))
    ok (passed (entry_count (length entries)))

  unfoldable pub verify_hash_chain_rows :
      LedgerChainHead → List LedgerVerificationMaterialRow → Result Text LedgerVerificationSummary
  verify_hash_chain_rows chain_head rows = returned (check_chain chain_head rows)

  -- the body of the loop of `verify_signature_rows`, with the entries checked before and all rows
  unfoldable pub check_row : ℕ → ℕ → LedgerVerificationMaterialRow → Result Returned (Unit {0})
  unfolding ledger_payload_contains_forbidden_key try_restore_signed_ledger_entry
      try_restore_verifying_key
  check_row checked_count total row = do
    reject (ledger_payload_contains_forbidden_key row.payload)
        (invalid checked_count (codes "ledger_payload_forbidden_key"))
    e ←
        map_err (λ error. err (codes "ledger_entry_restore_failed"))
          (try_restore_signed_ledger_entry c row)
    restored ←
        map_err (λ error. err (codes "ledger_key_restore_failed")) (try_restore_verifying_key c row)
    key ← ok_or restored (invalid (entry_count total) (codes "ledger_signature_key_missing"))
    map_err (λ error. invalid (entry_count total) (codes "ledger_signature_invalid"))
        (verify_signature c e key)

  unfoldable pub check_rows :
      ℕ → ℕ → List LedgerVerificationMaterialRow → Result Returned LedgerVerificationSummary
  check_rows checked_count total [] = ok (passed checked_count)
  check_rows checked_count total (row ∷ rows) =
      check_row checked_count total row >>= λ _. check_rows (checked_count + 1) total rows

  unfoldable pub verify_signature_rows :
      List LedgerVerificationMaterialRow → Result Text LedgerVerificationSummary
  verify_signature_rows rows = returned (check_rows 0 (length rows) rows)
