-- ===== src/Errors.antt =====
-- The errors of src/error.rs.

use mipsorcu.Prelude.{ℕ, Text}
use mipsorcu.SourceEventAt.{TimeError}

pub data AadError : Type 0 where
  expected_json_object invalid_classification : AadError
  missing_field unexpected_field unsupported_aad_version serialization_failed : Text → AadError
  invalid_field_type invalid_uuid invalid_positive_integer invalid_timestamp :
      Text → Text → AadError
  invalid_uuid_version : Text → Text → AadError

pub data CryptoError : Type 0 where
  invalid_data_key_length invalid_master_key_length invalid_nonce_length : ℕ → CryptoError
  invalid_alias_encryption_key_length invalid_alias_fingerprint_key_length : ℕ → CryptoError
  invalid_alias_fingerprint_length unsupported_alias_fingerprint_schema_version : ℕ → CryptoError
  invalid_key_version invalid_encrypted_data_key_length : ℕ → CryptoError
  unsupported_encrypted_data_key_version : ℕ → CryptoError
  empty_ciphertext randomness_unavailable aad_failed encryption_failed decryption_failed :
      CryptoError
  fingerprint_computation_failed key_wrap_failed key_unwrap_failed : CryptoError

pub data InputError : Type 0 where
  invalid_device_id invalid_secret_alias secret_alias_looks_like_uuid : InputError
  secret_version_overflow : InputError
  secret_alias_too_long : ℕ → InputError

pub data KeyringError : Type 0 where
  empty : KeyringError
  duplicate_key_version active_key_missing key_unavailable : ℕ → KeyringError

pub data AuthorizationError : Type 0 where
  owner_mismatch not_current_version missing_auditor_role : AuthorizationError

pub data SecretWriteError : Type 0 where
  input : InputError → SecretWriteError
  aad : AadError → SecretWriteError
  crypto : CryptoError → SecretWriteError
  keyring : KeyringError → SecretWriteError

pub data DecryptIntegrityError : Type 0 where
  aad_context_mismatch : DecryptIntegrityError

pub data SecretDecryptError : Type 0 where
  authorization : AuthorizationError → SecretDecryptError
  aad : AadError → SecretDecryptError
  crypto : CryptoError → SecretDecryptError
  integrity : DecryptIntegrityError → SecretDecryptError
  keyring : KeyringError → SecretDecryptError

-- src/types/time.rs returns these two variants of `AadError`
abbrev pub time_error : TimeError → AadError
time_error (TimeError.invalid_timestamp field value) = invalid_timestamp field value
time_error (TimeError.serialization_failed message) = serialization_failed message
