-- ===== src/Ledger/Types.antt =====
-- src/ledger/{constants,error,ids,hash,result,entry_type,signature,chain}.rs: the ledger's vocabulary.
-- The newtypes over integers and byte arrays are those values; their constructors check them.
use mipsorcu.Crates.{Crates}
use mipsorcu.Prelude.{
  ℕ, ◌+◌, ◌||◌, not, Bytes, Text, codes, length, Result, ok, err, reject, ◌>>◌, ltb, leb, ◌==◌,
  if◌then◌else◌, replicate, ◌>>=◌,
}

pub data LedgerEntryType : Type 0 where
  secret_created secret_version_created secret_decrypted secret_version_purged : LedgerEntryType
  integrity_check_completed restore_test_completed : LedgerEntryType
  key_rotation_started key_rotation_reencrypted : LedgerEntryType
  key_rotation_completed key_rotation_aborted : LedgerEntryType
  signature_key_created signature_key_activated signature_key_retired : LedgerEntryType
  ledger_verified ledger_verification_failed audit_fallback_resent : LedgerEntryType
  monthly_digest archive_exported digest_timestamped : LedgerEntryType
  scheduler_job_completed incident_detected : LedgerEntryType

pub data LedgerResult : Type 0 where
  success failure : LedgerResult

pub data LedgerError : Type 0 where
  invalid_positive_integer invalid_non_negative_integer : Text → LedgerError
  sequence_overflow payload_must_be_object invalid_actor_device_id : LedgerError
  unknown_entry_type unknown_result invalid_uuid : Text → LedgerError
  forbidden_payload_key payload_value_must_be_scalar : Text → LedgerError
  unknown_payload_key : Text → LedgerEntryType → LedgerError
  invalid_payload_field : Text → Text → LedgerError
  payload_too_large : ℕ → LedgerError
  invalid_error_code : Text → LedgerError
  invalid_hash_length invalid_signature_length invalid_signing_key_length : ℕ → LedgerError
  invalid_verification_key_length : ℕ → LedgerError
  invalid_verification_key : LedgerError
  signature_key_version_mismatch unknown_signature_key : ℕ → ℕ → LedgerError
  signature_invalid hash_mismatch previous_hash_mismatch : ℕ → LedgerError
  sequence_gap : ℕ → ℕ → LedgerError
  serialization_failed : Text → LedgerError

abbrev pub ledger_hash_length : ℕ
ledger_hash_length = 32

abbrev pub ledger_signature_length : ℕ
ledger_signature_length = 64

abbrev pub ledger_i64_max : ℕ
ledger_i64_max = 9223372036854775807

abbrev pub u64_max : ℕ
u64_max = 18446744073709551615

-- `u64::checked_add(1)`
abbrev pub checked_add_one {ℓ} : {E : Type ℓ} → ℕ → E → Result E ℕ
checked_add_one n e = if leb u64_max n then err e else ok (n + 1)

-- `LedgerSequenceNo::new`
unfoldable pub new_sequence_no : ℕ → Result LedgerError ℕ
new_sequence_no value =
    if value == 0 || ltb ledger_i64_max value
    then err (invalid_positive_integer (codes "sequence_no"))
    else ok value

-- `LedgerSignatureKeyVersion::new`
unfoldable pub new_signature_key_version : ℕ → Result LedgerError ℕ
new_signature_key_version value =
    if value == 0 then err (invalid_positive_integer (codes "signature_key_version")) else ok value

-- `LedgerHash::genesis`
abbrev pub genesis_hash : Bytes
genesis_hash = replicate ledger_hash_length 0

-- `LedgerHash::from_bytes`
unfoldable pub hash_from_bytes : Bytes → Result LedgerError Bytes
hash_from_bytes bytes =
    if not (length bytes == ledger_hash_length)
    then err (invalid_hash_length (length bytes))
    else ok bytes

-- `LedgerSignature::from_bytes`
unfoldable pub signature_from_bytes : Bytes → Result LedgerError Bytes
signature_from_bytes bytes =
    if not (length bytes == ledger_signature_length)
    then err (invalid_signature_length (length bytes))
    else ok bytes

pub record LedgerChainHead : Type 0 where
  pub last_sequence_no : ℕ
  pub last_entry_hash : Bytes

abbrev pub genesis : LedgerChainHead
genesis = record { last_sequence_no = 0; last_entry_hash = genesis_hash }

-- `LedgerChainHead::new`
unfoldable pub new_chain_head : ℕ → Bytes → Result LedgerError LedgerChainHead
new_chain_head last_sequence_no last_entry_hash =
    if ltb ledger_i64_max last_sequence_no
    then err (invalid_non_negative_integer (codes "last_sequence_no"))
    else ok (record { last_sequence_no = last_sequence_no; last_entry_hash = last_entry_hash })

unfoldable pub next_sequence_no : LedgerChainHead → Result LedgerError ℕ
unfolding new_sequence_no
next_sequence_no head = do
  next ← checked_add_one head.last_sequence_no sequence_overflow
  new_sequence_no next

pub record LedgerSigningKey : Type 0 where
  pub key_version : ℕ
  pub signing_key : Bytes

pub record LedgerVerifyingKey : Type 0 where
  pub key_version : ℕ
  pub verifying_key : Bytes

-- `LedgerSigningKey::from_secret_key_bytes`
unfoldable pub from_secret_key_bytes : ℕ → Bytes → Result LedgerError LedgerSigningKey
from_secret_key_bytes key_version secret_key =
    if not (length secret_key == 32)
    then err (invalid_signing_key_length (length secret_key))
    else ok (record { key_version = key_version; signing_key = secret_key })

module _ (c : Crates) where
  -- `LedgerSigningKey::verification_key`
  abbrev pub verification_key : LedgerSigningKey → LedgerVerifyingKey
  verification_key key = record {
    key_version = key.key_version;
    verifying_key = c.verifying_key key.signing_key;
  }

  -- `LedgerVerifyingKey::from_public_key_bytes`
  unfoldable pub from_public_key_bytes : ℕ → Bytes → Result LedgerError LedgerVerifyingKey
  from_public_key_bytes key_version public_key =
      if not (length public_key == 32)
      then err (invalid_verification_key_length (length public_key))
      else if not (c.ed25519_key_ok public_key)
      then err invalid_verification_key
      else ok (record { key_version = key_version; verifying_key = public_key })

  -- `LedgerSigningKey::sign_payload`; `sign_raw_bytes` has the same body
  unfoldable pub sign_payload : LedgerSigningKey → ℕ → Bytes → Result LedgerError Bytes
  unfolding signature_from_bytes
  sign_payload key expected_key_version payload = do
    reject (not (key.key_version == expected_key_version))
        (signature_key_version_mismatch expected_key_version key.key_version)
    signature_from_bytes (c.ed25519_sign key.signing_key payload)

  -- `LedgerVerifyingKey::verify_payload`
  unfoldable pub verify_payload :
      LedgerVerifyingKey → ℕ → Bytes → Bytes → Result LedgerError (Unit {0})
  verify_payload key expected_key_version payload signature = do
    reject (not (key.key_version == expected_key_version))
        (signature_key_version_mismatch expected_key_version key.key_version)
    reject (not (c.ed25519_verify key.verifying_key payload signature)) (signature_invalid 0)
