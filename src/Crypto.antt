-- ===== src/Crypto.antt =====
-- src/crypto.rs: secrets encrypted under a data key, and the data key wrapped under a master key.
-- `encrypt_secret` and `wrap_data_key`, which draw a nonce, are in Crypto/Seal.
pub mod Seal
pub mod RoundTrip
pub mod Binding
use mipsorcu.Aad.{AadV1, canonical_bytes}
use mipsorcu.Crates.{Crates, Uuid}
use mipsorcu.Errors.{
  CryptoError, aad_failed, invalid_data_key_length, invalid_master_key_length, decryption_failed,
  key_unwrap_failed,
}
use mipsorcu.Json.{Value, number, unsigned, string, object, end, entry}
use mipsorcu.Prelude.{
  ℕ, not, Bytes, Text, codes, length, Result, ok, err, ok_or, map_err, reject, ◌>>=◌, ◌>>◌, ◌==◌,
}
use mipsorcu.Secrets.{parse_data_key, data_key_length, nonce_bytes, ciphertext_bytes}

pub record KeyWrapContext : Type 0 where
  pub secret_id : Uuid
  pub key_version : ℕ

-- `EncryptedPayload`
pub record EncryptedPayload : Type 0 where
  pub ciphertext : Bytes
  pub nonce : Bytes
  pub aad_context : Value

module _ (c : Crates) where
  -- `CanonicalKeyWrapAad`, its fields in the order of the struct
  abbrev pub key_wrap_aad : KeyWrapContext → Value
  key_wrap_aad context = object (
      entry (codes "context") (string (codes "data_key_wrap")) (
        entry (codes "key_version") (number (unsigned context.key_version)) (
          entry (codes "secret_id") (string (c.hyphenated context.secret_id))
            (entry (codes "wrap_version") (number (unsigned 1)) end))))

  -- `KeyWrapContext::canonical_bytes`
  unfoldable pub key_wrap_bytes : KeyWrapContext → Result CryptoError Bytes
  key_wrap_bytes context = map_err (λ message. aad_failed) (c.to_vec (key_wrap_aad context))

  -- `From<AadError>`, and the canonical bytes of the associated data
  unfoldable pub aad_bytes : AadV1 → Result CryptoError Bytes
  unfolding canonical_bytes
  aad_bytes aad = map_err (λ e. aad_failed) (canonical_bytes c aad)

  -- `cipher_from_data_key`: the key that the cipher is used with
  unfoldable pub cipher_from_data_key : Bytes → Result CryptoError (Unit {0})
  cipher_from_data_key key =
      reject (not (c.cipher_key_ok key)) (invalid_data_key_length (length key))

  unfoldable pub cipher_from_master_key : Bytes → Result CryptoError (Unit {0})
  cipher_from_master_key key =
      reject (not (c.cipher_key_ok key)) (invalid_master_key_length (length key))

  unfoldable pub decrypt_secret : Bytes → AadV1 → Bytes → Bytes → Result CryptoError Bytes
  unfolding aad_bytes cipher_from_data_key
  decrypt_secret data_key aad nonce ciphertext = do
    bytes ← aad_bytes aad
    cipher_from_data_key data_key
    ok_or (c.decrypt data_key nonce bytes ciphertext) decryption_failed

  unfoldable pub unwrap_data_key : Bytes → KeyWrapContext → Bytes → Result CryptoError Bytes
  unfolding key_wrap_bytes cipher_from_master_key parse_data_key
  unwrap_data_key master_key context encrypted_data_key = do
    bytes ← key_wrap_bytes context
    cipher_from_master_key master_key
    data_key ←
        ok_or
          (c.decrypt master_key (nonce_bytes encrypted_data_key) bytes
            (ciphertext_bytes encrypted_data_key))
          key_unwrap_failed
    reject (not (length data_key == data_key_length)) key_unwrap_failed
    map_err (λ e. key_unwrap_failed) (parse_data_key data_key)
