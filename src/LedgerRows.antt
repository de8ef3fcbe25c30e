-- ===== src/LedgerRows.antt =====
-- The rows that an export of the ledger answers, and the entries and keys that are restored from
-- them: src/server/supabase/ledger_export_rpc.rs, with `LedgerResult::parse` of src/ledger/result.rs.
use mipsorcu.Crates.{Crates, Uuid}
use mipsorcu.Json.{Value}
use mipsorcu.Ledger.Entry.{SignedLedgerEntry, from_stored_parts}
use mipsorcu.Ledger.EntryType.{parse_entry_type}
use mipsorcu.Ledger.Payload.{new_payload}
use mipsorcu.Ledger.Types.{
  LedgerResult, success, failure, LedgerError, invalid_uuid, unknown_result, serialization_failed,
  invalid_verification_key, signature_key_version_mismatch, invalid_actor_device_id,
  LedgerVerifyingKey, new_signature_key_version, from_public_key_bytes, unknown_entry_type,
}
use mipsorcu.Prelude.{
  ℕ, not, Bytes, Text, codes, Option, none, some, Result, ok, err, ◌>>=◌, ◌>>◌, ok_or, map_err,
  reject, List, [], ◌∷◌, ◌==◌, drop, starts_with, text_eq, is_blank, if◌then◌else◌, contains,
}
use mipsorcu.Secrets.{parse_owner_user_id, parse_secret_id}
use mipsorcu.SourceEventAt.{parse_source_event_at}

-- `LedgerResult::parse`
unfoldable pub parse_ledger_result : Text → Result LedgerError LedgerResult
unfolding text_eq
parse_ledger_result value =
    if text_eq value (codes "success")
    then ok success
    else if text_eq value (codes "failure")
    then ok failure
    else err (unknown_result value)

-- The 32 bits of `pk_key_version` are read as the source casts them, without a sign.
-- `canonicalization_version` and the names of the hash and signature algorithms, which no operation
-- reads, are left out.
pub record LedgerVerificationMaterialRow : Type 0 where
  pub ledger_entry_id : Uuid
  pub sequence_no : ℕ
  pub entry_hash : Bytes
  pub previous_entry_hash : Bytes
  pub signature : Bytes
  pub signature_key_version : ℕ
  pub entry_type : Text
  pub source_event_at : Text
  pub request_id : Text
  pub source_event_id : Option Text
  pub target_secret_id : Option Text
  pub target_secret_version_id : Option Text
  pub actor_user_id : Option Text
  pub actor_device_id : Option Text
  pub result : Text
  pub error_code : Option Text
  pub payload : Value
  pub pk_key_version : Option ℕ
  pub pk_public_key : Option Text
  pub pk_algorithm : Option Text
  pub pk_status : Option Text

-- `value.map(parse).transpose()`
unfoldable pub parse_optional :
    {A : Type 0} → (Text → Result LedgerError A) → Option Text → Result LedgerError (Option A)
parse_optional parse none = ok none
parse_optional parse (some raw) = parse raw >>= λ value. ok (some value)

-- `DeviceId::new`
unfoldable pub parse_device_id : Text → Result LedgerError Text
unfolding is_blank
parse_device_id raw = do reject (is_blank raw) invalid_actor_device_id; ok raw

-- the states of a key in the registry that still verify
abbrev pub verifying_states : List Text
verifying_states = codes "created" ∷ codes "active" ∷ codes "retired" ∷ []

module _ (c : Crates) where
  unfoldable pub decode_bytea_hex : Text → Option Bytes
  unfolding starts_with
  decode_bytea_hex value =
      if starts_with value (codes "\\x") then c.hex_decode (drop 2 value) else none

  -- `Uuid::parse_str`, with the field that an error names
  abbrev pub parse_uuid : Text → Text → Result LedgerError Uuid
  parse_uuid field value = ok_or (c.parse_str value) (invalid_uuid field)

  -- the key of a row that has one
  unfoldable pub restore_key :
      LedgerVerificationMaterialRow → ℕ → Text → Result LedgerError LedgerVerifyingKey
  unfolding text_eq contains new_signature_key_version decode_bytea_hex from_public_key_bytes
  restore_key row pk_key_version pk_public_key = do
    pk_algorithm ← ok_or row.pk_algorithm invalid_verification_key
    pk_status ← ok_or row.pk_status invalid_verification_key
    reject (not (text_eq pk_algorithm (codes "ed25519"))) invalid_verification_key
    reject (not (contains verifying_states pk_status)) invalid_verification_key
    key_version ← new_signature_key_version pk_key_version
    reject (not (key_version == row.signature_key_version))
        (signature_key_version_mismatch row.signature_key_version key_version)
    public_key_bytes ← ok_or (decode_bytea_hex pk_public_key) invalid_verification_key
    from_public_key_bytes c key_version public_key_bytes

  unfoldable pub try_restore_verifying_key :
      LedgerVerificationMaterialRow → Result LedgerError (Option LedgerVerifyingKey)
  try_restore_verifying_key row = elim row.pk_key_version [
    | none ↦ ok none
    | some pk_key_version ↦ elim row.pk_public_key [
      | none ↦ ok none
      | some pk_public_key ↦ restore_key row pk_key_version pk_public_key >>= λ key. ok (some key)
    ]
  ]

  unfoldable pub try_restore_signed_ledger_entry :
      LedgerVerificationMaterialRow → Result LedgerError SignedLedgerEntry
  unfolding parse_entry_type parse_source_event_at parse_optional parse_ledger_result new_payload
      from_stored_parts parse_owner_user_id parse_secret_id parse_device_id
  try_restore_signed_ledger_entry row = do
    entry_type ← map_err (λ e. unknown_entry_type row.entry_type) (parse_entry_type row.entry_type)
    source_event_at ←
        map_err (λ e. serialization_failed (codes "invalid source_event_at"))
          (parse_source_event_at c row.source_event_at)
    request_id ← parse_uuid (codes "request_id") row.request_id
    source_event_id ← parse_optional (parse_uuid (codes "source_event_id")) row.source_event_id
    target_secret_id ←
        parse_optional
          (λ raw. map_err (λ e. invalid_uuid (codes "target_secret_id")) (parse_secret_id c raw))
          row.target_secret_id
    target_secret_version_id ←
        parse_optional (parse_uuid (codes "target_secret_version_id")) row.target_secret_version_id
    actor_user_id ← parse_optional (parse_uuid (codes "actor_user_id")) row.actor_user_id
    actor_device_id ← parse_optional parse_device_id row.actor_device_id
    result ← parse_ledger_result row.result
    payload ← new_payload c entry_type row.payload
    from_stored_parts c
        (record {
          parts = record {
            ledger_entry_id = row.ledger_entry_id;
            entry_type = entry_type;
            source_event_at = source_event_at;
            request_id = request_id;
            source_event_id = source_event_id;
            target_secret_id = target_secret_id;
            target_secret_version_id = target_secret_version_id;
            actor_user_id = actor_user_id;
            actor_device_id = actor_device_id;
            result = result;
            error_code = row.error_code;
            payload = payload;
          };
          sequence_no = row.sequence_no;
          previous_entry_hash = row.previous_entry_hash;
          signature_key_version = row.signature_key_version;
        })
        row.entry_hash row.signature
