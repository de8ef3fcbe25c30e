-- ===== src/Alias/Crypto.antt =====
-- src/alias/{crypto,fingerprint,read}.rs but for `encrypt_alias`: decryption of an alias and of its
-- row, and the fingerprint that an alias is looked up by.
use mipsorcu.Alias.Aad.{AliasAadV1, from_stored_context, alias_canonical_bytes}
use mipsorcu.Alias.Input.{parse_alias}
use mipsorcu.Crates.{Crates, Uuid}
use mipsorcu.Errors.{
  CryptoError, SecretDecryptError, aad_failed, decryption_failed,
  invalid_alias_encryption_key_length, fingerprint_computation_failed, aad_context_mismatch, aad,
  crypto, integrity,
}
use mipsorcu.Json.{Value}
use mipsorcu.Prelude.{
  ℕ, not, Bytes, Text, codes, Result, ok, ok_or, map_err, reject, ◌>>=◌, ◌>>◌, ◌++◌, length,
  as_bytes, bytes_eq,
}

abbrev pub fingerprint_domain : Text
fingerprint_domain = codes "mipsorcu:v1:secret-alias-fingerprint"

pub record DecryptedAlias : Type 0 where
  pub secret_alias_id : Uuid
  pub secret_id : Uuid
  pub alias : Text

module _ (c : Crates) where
  unfoldable pub alias_aad_bytes : AliasAadV1 → Result CryptoError Bytes
  unfolding alias_canonical_bytes
  alias_aad_bytes a = map_err (λ e. aad_failed) (alias_canonical_bytes c a)

  -- `cipher_from_alias_key`: the key that the cipher is used with
  unfoldable pub cipher_from_alias_key : Bytes → Result CryptoError (Unit {0})
  cipher_from_alias_key key =
      reject (not (c.cipher_key_ok key)) (invalid_alias_encryption_key_length (length key))

  unfoldable pub decrypt_alias : Bytes → AliasAadV1 → Bytes → Bytes → Result CryptoError Text
  unfolding alias_aad_bytes cipher_from_alias_key parse_alias
  decrypt_alias encryption_key a nonce ciphertext = do
    bytes ← alias_aad_bytes a
    cipher_from_alias_key encryption_key
    plaintext ← ok_or (c.decrypt encryption_key nonce bytes ciphertext) decryption_failed
    text ← ok_or (c.from_utf8 plaintext) decryption_failed
    map_err (λ e. decryption_failed) (parse_alias text)

  unfoldable pub decrypt_alias_row :
      Bytes
      → Uuid
      → Uuid
      → Uuid
      → ℕ
      → Bytes
      → Bytes
      → Value
      → Result SecretDecryptError DecryptedAlias
  unfolding from_stored_context alias_canonical_bytes decrypt_alias bytes_eq
  decrypt_alias_row encryption_key secret_alias_id secret_id owner_user_id alias_key_version
        ciphertext nonce aad_context =
      do
        stored_aad ← map_err aad (from_stored_context c aad_context)
        let row_aad : AliasAadV1 = record {
          secret_alias_id = secret_alias_id;
          secret_id = secret_id;
          owner_user_id = owner_user_id;
          alias_key_version = alias_key_version;
        }
        stored_bytes ← map_err aad (alias_canonical_bytes c stored_aad)
        row_bytes ← map_err aad (alias_canonical_bytes c row_aad)
        reject (not (bytes_eq stored_bytes row_bytes)) (integrity aad_context_mismatch)
        name ← map_err crypto (decrypt_alias encryption_key row_aad nonce ciphertext)
        ok (record { secret_alias_id = secret_alias_id; secret_id = secret_id; alias = name })

  -- what `compute_alias_fingerprint` hands to the MAC, in three updates
  unfoldable pub fingerprint_message : Uuid → Text → Bytes
  unfolding as_bytes
  fingerprint_message owner_user_id alias =
      as_bytes fingerprint_domain ++ (as_bytes (c.hyphenated owner_user_id) ++ as_bytes alias)

  unfoldable pub compute_alias_fingerprint : Bytes → Uuid → Text → Result CryptoError Bytes
  unfolding fingerprint_message
  compute_alias_fingerprint fingerprint_key owner_user_id alias =
      ok_or (c.hmac_sha3_256 fingerprint_key (fingerprint_message owner_user_id alias))
        fingerprint_computation_failed
