-- ===== src/LedgerAppender/Failures.antt =====
-- The errors of an append: src/server/supabase/{error,response,ledger_rpc}.rs and the classification
-- in src/server/ledger_appender.rs.
use mipsorcu.Crates.{Crates}
use mipsorcu.Json.{Value, as_object, as_str, get}
use mipsorcu.Prelude.{
  ℕ, Bool, true, false, ◌||◌, Text, codes, Option, none, some, if◌then◌else◌, find_sub,
}

pub data LedgerAppendRpcFailure : Type 0 where
  entry_id_conflict entry_hash_conflict sequence_mismatch previous_hash_mismatch :
      LedgerAppendRpcFailure
  payload_schema_violation chain_state_missing invalid_rpc_input append_failed :
      LedgerAppendRpcFailure

-- `SupabaseRpcError`, with the messages that nothing here reads left out
pub data SupabaseRpcError : Type 0 where
  network invalid_response empty_result : SupabaseRpcError
  non_success_status : ℕ → Text → SupabaseRpcError

unfoldable pub upstream_status : SupabaseRpcError → Option ℕ
upstream_status (non_success_status status body) = some status
upstream_status _ = none

pub data LedgerAppendError : Type 0 where
  conflict : LedgerAppendRpcFailure → ℕ → LedgerAppendError
  invalid_entry : Text → LedgerAppendError
  external_dependency_failed : Text → Option ℕ → ℕ → LedgerAppendError

unfoldable pub as_error_code : LedgerAppendRpcFailure → Text
as_error_code entry_id_conflict = codes "ledger_entry_id_conflict"
as_error_code entry_hash_conflict = codes "ledger_entry_hash_conflict"
as_error_code sequence_mismatch = codes "ledger_sequence_mismatch"
as_error_code previous_hash_mismatch = codes "ledger_previous_hash_mismatch"
as_error_code payload_schema_violation = codes "ledger_payload_schema_violation"
as_error_code chain_state_missing = codes "ledger_chain_state_mismatch"
as_error_code invalid_rpc_input = codes "ledger_append_failed"
as_error_code append_failed = codes "ledger_append_failed"

-- `response_contains_marker` of src/server/supabase/response.rs: in the whole body if it is no JSON,
-- and otherwise in one of three fields.
unfoldable pub response_contains_marker : Crates → Text → Text → Bool
unfolding find_sub get
response_contains_marker c body marker = elim (c.from_str body) [
  | none ↦ find_sub body marker
  | some value ↦
      field_contains value (codes "message")
      || field_contains value (codes "details")
      || field_contains value (codes "hint")
]
  where
    text_contains : Option Value → Bool
    text_contains none = false
    text_contains (some v) = elim (as_str v) [ none ↦ false | some text ↦ find_sub text marker ]

    field_contains : Value → Text → Bool
    field_contains value field = elim (as_object value) [
      | none ↦ false
      | some m ↦ text_contains (get field m)
    ]

abbrev has_schema_marker : Crates → Text → Bool
has_schema_marker c body =
    response_contains_marker c body (codes "ledger_payload_schema_violation")
    || response_contains_marker c body (codes "ledger_entries_payload_valid")
    || response_contains_marker c body (codes "ledger_payload_is_valid")

-- `classify_append_ledger_error` of src/server/supabase/ledger_rpc.rs: the first marker in the body
unfoldable pub classify_append_ledger_error : Crates → SupabaseRpcError → LedgerAppendRpcFailure
unfolding response_contains_marker
classify_append_ledger_error c (non_success_status status body) =
    if response_contains_marker c body (codes "ledger_entry_id_conflict")
    then entry_id_conflict
    else if response_contains_marker c body (codes "ledger_entry_hash_conflict")
    then entry_hash_conflict
    else if response_contains_marker c body (codes "ledger_sequence_mismatch")
    then sequence_mismatch
    else if response_contains_marker c body (codes "ledger_previous_hash_mismatch")
    then previous_hash_mismatch
    else if has_schema_marker c body
    then payload_schema_violation
    else if response_contains_marker c body (codes "ledger_chain_state_missing")
    then chain_state_missing
    else if response_contains_marker c body (codes "invalid_rpc_input")
    then invalid_rpc_input
    else append_failed
classify_append_ledger_error c _ = append_failed

unfoldable pub classify_appender_error :
    LedgerAppendRpcFailure → SupabaseRpcError → ℕ → LedgerAppendError
unfolding as_error_code upstream_status
classify_appender_error entry_id_conflict upstream attempts = conflict entry_id_conflict attempts
classify_appender_error entry_hash_conflict upstream attempts =
    conflict entry_hash_conflict attempts
classify_appender_error sequence_mismatch upstream attempts = conflict sequence_mismatch attempts
classify_appender_error previous_hash_mismatch upstream attempts =
    conflict previous_hash_mismatch attempts
classify_appender_error payload_schema_violation upstream attempts =
    invalid_entry (as_error_code payload_schema_violation)
classify_appender_error invalid_rpc_input upstream attempts =
    invalid_entry (as_error_code invalid_rpc_input)
classify_appender_error failure upstream attempts =
    external_dependency_failed (as_error_code failure) (upstream_status upstream) attempts

unfoldable pub is_retryable_conflict : LedgerAppendRpcFailure → Bool
is_retryable_conflict sequence_mismatch = true
is_retryable_conflict previous_hash_mismatch = true
is_retryable_conflict _ = false
