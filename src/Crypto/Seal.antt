-- ===== src/Crypto/Seal.antt =====
-- `encrypt_secret` and `wrap_data_key` of src/crypto.rs: each draws its nonce first.
use mipsorcu.Aad.{AadV1, to_stored_context}
use mipsorcu.Crates.{Crates}
use mipsorcu.Crypto.{
  KeyWrapContext, EncryptedPayload, aad_bytes, key_wrap_bytes, cipher_from_data_key,
  cipher_from_master_key,
}
use mipsorcu.Draws.{Draw, lift, ◌>>=◌, ◌>>◌}
use mipsorcu.Errors.{CryptoError, aad_failed, encryption_failed, key_wrap_failed}
use mipsorcu.Prelude.{not, Bytes, length, ok, ok_or, map_err, reject, ◌∷◌, ◌++◌, ◌==◌}
use mipsorcu.Secrets.{
  generate_nonce, new_ciphertext, parse_envelope, fill_bytes, encrypted_data_key_version,
  encrypted_data_key_ciphertext_length,
}

module _ (c : Crates) where
  unfoldable pub encrypt_secret : Bytes → AadV1 → Bytes → Draw CryptoError EncryptedPayload
  unfolding fill_bytes aad_bytes cipher_from_data_key new_ciphertext to_stored_context
  encrypt_secret data_key aad plaintext = do
    nonce ← generate_nonce c
    bytes ← lift (aad_bytes c aad)
    lift (cipher_from_data_key c data_key)
    sealed ← lift (ok_or (c.encrypt data_key nonce bytes plaintext) encryption_failed)
    ciphertext ← lift (new_ciphertext sealed)
    context ← lift (map_err (λ e. aad_failed) (to_stored_context c aad))
    lift (ok (record { ciphertext = ciphertext; nonce = nonce; aad_context = context }))

  unfoldable pub wrap_data_key : Bytes → KeyWrapContext → Bytes → Draw CryptoError Bytes
  unfolding fill_bytes key_wrap_bytes cipher_from_master_key parse_envelope
  wrap_data_key master_key context data_key = do
    nonce ← generate_nonce c
    bytes ← lift (key_wrap_bytes c context)
    lift (cipher_from_master_key c master_key)
    wrapped ← lift (ok_or (c.encrypt master_key nonce bytes data_key) key_wrap_failed)
    lift (reject (not (length wrapped == encrypted_data_key_ciphertext_length)) key_wrap_failed)
    lift (parse_envelope (encrypted_data_key_version ∷ (nonce ++ wrapped)))
