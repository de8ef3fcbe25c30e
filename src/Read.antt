-- ===== src/Read.antt =====
-- src/read.rs: the current version of a secret, decrypted for its owner.
pub mod FailClosed
use mipsorcu.Aad.{AadV1, from_stored_context, canonical_bytes}
use mipsorcu.Authorization.{VerifiedJwtClaims, authorize_current_version_decrypt}
use mipsorcu.Crates.{Crates, Uuid, OffsetDateTime}
use mipsorcu.Crypto.{KeyWrapContext, unwrap_data_key, decrypt_secret}
use mipsorcu.Errors.{
  SecretDecryptError, authorization, aad, crypto, keyring, aad_context_mismatch, integrity,
}
use mipsorcu.Json.{Value}
use mipsorcu.Keyring.{MasterKeyRing, get_key}
use mipsorcu.Prelude.{ℕ, not, Bytes, Text, Result, ok, err, map_err, reject, ◌>>=◌, ◌>>◌, bytes_eq}

pub record DecryptCurrentSecretVersionInput : Type 0 where
  pub claims : VerifiedJwtClaims
  pub secret_id : Uuid
  pub version : ℕ
  pub current_version : ℕ
  pub owner_user_id : Uuid
  pub classification : Text
  pub created_at : OffsetDateTime
  pub key_version : ℕ
  pub encrypted_data_key : Bytes
  pub nonce_or_iv : Bytes
  pub ciphertext : Bytes
  pub aad_context : Value

abbrev pub row_aad_from_input : DecryptCurrentSecretVersionInput → AadV1
row_aad_from_input row = record {
  secret_id = row.secret_id;
  version = row.version;
  owner_user_id = row.owner_user_id;
  classification = row.classification;
  created_at = row.created_at;
}

module _ (c : Crates) where
  unfoldable pub verify_stored_aad_matches_row :
      Value → AadV1 → Result SecretDecryptError (Unit {0})
  unfolding from_stored_context canonical_bytes bytes_eq
  verify_stored_aad_matches_row stored_context row_aad = do
    stored_aad ← map_err aad (from_stored_context c stored_context)
    stored ← map_err aad (canonical_bytes c stored_aad)
    row ← map_err aad (canonical_bytes c row_aad)
    reject (not (bytes_eq stored row)) (integrity aad_context_mismatch)

  unfoldable pub validate_decrypt_input :
      DecryptCurrentSecretVersionInput → Result SecretDecryptError AadV1
  unfolding authorize_current_version_decrypt verify_stored_aad_matches_row
  validate_decrypt_input row = do
    map_err authorization (
        authorize_current_version_decrypt row.claims row.owner_user_id row.version
          row.current_version)
    verify_stored_aad_matches_row row.aad_context (row_aad_from_input row)
    ok (row_aad_from_input row)

  unfoldable pub decrypt_with_selected_master_key :
      Bytes → AadV1 → DecryptCurrentSecretVersionInput → Result SecretDecryptError Bytes
  unfolding unwrap_data_key decrypt_secret
  decrypt_with_selected_master_key master_key row_aad row = do
    data_key ← map_err crypto (
        unwrap_data_key c master_key
          (record { secret_id = row.secret_id; key_version = row.key_version })
          row.encrypted_data_key)
    map_err crypto (decrypt_secret c data_key row_aad row.nonce_or_iv row.ciphertext)

  unfoldable pub decrypt_current_secret_version :
      Bytes → DecryptCurrentSecretVersionInput → Result SecretDecryptError Bytes
  unfolding validate_decrypt_input decrypt_with_selected_master_key
  decrypt_current_secret_version master_key row = do
    row_aad ← validate_decrypt_input row
    decrypt_with_selected_master_key master_key row_aad row

  unfoldable pub decrypt_current_secret_version_with_keyring :
      MasterKeyRing → DecryptCurrentSecretVersionInput → Result SecretDecryptError Bytes
  unfolding validate_decrypt_input get_key decrypt_with_selected_master_key
  decrypt_current_secret_version_with_keyring ring row = do
    row_aad ← validate_decrypt_input row
    master_key ← map_err keyring (get_key ring row.key_version)
    decrypt_with_selected_master_key master_key row_aad row
