-- ===== src/Read/FailClosed.antt =====
-- src/read.rs fails closed: a plaintext comes only from a row that its owner asks for at its current
-- version, and it is what the cipher text of the row was made from.
use mipsorcu.Aad.{AadV1}
use mipsorcu.Authorization.{authorize_current_version_decrypt}
use mipsorcu.Crates.{AeadLaws, Crates}
use mipsorcu.Crypto.{aad_bytes, decrypt_secret, unwrap_data_key}
use mipsorcu.Keyring.{MasterKeyRing, get_key}
use mipsorcu.Prelude.{
  map_err, map_err-eq-ok, >>=-eq-ok, subst, ◌≡◌, Bytes, Result-cases, inl, inr, ok, some, arith,
}
use mipsorcu.Read.{
  keyring, decrypt_current_secret_version_with_keyring, decrypt_with_selected_master_key,
  DecryptCurrentSecretVersionInput, row_aad_from_input, validate_decrypt_input,
}

module _ (c : Crates) where
  owner_and_version :
      (row : DecryptCurrentSecretVersionInput) (a : AadV1)
      → validate_decrypt_input c row ≡ ok a
      → (row.claims.subject_user_id ≡ row.owner_user_id)
        × (row.version ≡ row.current_version)
        × (a ≡ row_aad_from_input row)
  unfolding validate_decrypt_input authorize_current_version_decrypt
  owner_and_version row a h = ground arith

  opened :
      (data_key : Bytes) (a : AadV1) (nonce ciphertext plaintext b : Bytes)
      → aad_bytes c a ≡ ok b
      → decrypt_secret c data_key a nonce ciphertext ≡ ok plaintext
      → c.decrypt data_key nonce b ciphertext ≡ some plaintext
  unfolding decrypt_secret
  opened data_key a nonce ciphertext plaintext b e h = ground arith

  decrypt_secret-bytes :
      (data_key : Bytes) (a : AadV1) (nonce ciphertext plaintext : Bytes)
      → decrypt_secret c data_key a nonce ciphertext ≡ ok plaintext
      → (b : Bytes) × (aad_bytes c a ≡ ok b)
        × (c.decrypt data_key nonce b ciphertext ≡ some plaintext)
  unfolding decrypt_secret
  decrypt_secret-bytes data_key a nonce ciphertext plaintext h =
      elim (Result-cases (aad_bytes c a)) [
        | inl (b, e) ↦ (b, e, opened data_key a nonce ciphertext plaintext b e h)
        | inr (x, e) ↦ ground arith
      ]

  -- What a plaintext that is returned comes from.
  pub record IsOpened (ring : MasterKeyRing) (row : DecryptCurrentSecretVersionInput)
      (plaintext : Bytes) : Type 0 where
    pub asked_by_owner : row.claims.subject_user_id ≡ row.owner_user_id
    pub is_current : row.version ≡ row.current_version
    pub master_key : Bytes
    pub selected : get_key ring row.key_version ≡ ok master_key
    pub data_key : Bytes
    pub unwrapped :
        unwrap_data_key c master_key
          (record { secret_id = row.secret_id; key_version = row.key_version })
          row.encrypted_data_key
        ≡ ok data_key
    pub bytes : Bytes
    pub bound : aad_bytes c (row_aad_from_input row) ≡ ok bytes
    pub sealed : c.encrypt data_key row.nonce_or_iv bytes plaintext ≡ some row.ciphertext

  selected_opens :
      (master_key : Bytes) (a : AadV1) (row : DecryptCurrentSecretVersionInput) (plaintext : Bytes)
      → decrypt_with_selected_master_key c master_key a row ≡ ok plaintext
      → (data_key : Bytes) × (unwrap_data_key c master_key
            (record { secret_id = row.secret_id; key_version = row.key_version })
            row.encrypted_data_key
          ≡ ok data_key)
        × (decrypt_secret c data_key a row.nonce_or_iv row.ciphertext ≡ ok plaintext)
  unfolding decrypt_with_selected_master_key
  selected_opens master_key a row plaintext h =
      let (data_key, e, rest) = >>=-eq-ok _ _ h in
      (data_key, map_err-eq-ok _ _ e, map_err-eq-ok _ _ rest)

  selects :
      (ring : MasterKeyRing) (row : DecryptCurrentSecretVersionInput) (plaintext : Bytes)
      → decrypt_current_secret_version_with_keyring c ring row ≡ ok plaintext
      → (a : AadV1) × (master_key : Bytes) × (validate_decrypt_input c row ≡ ok a)
        × (get_key ring row.key_version ≡ ok master_key)
        × (decrypt_with_selected_master_key c master_key a row ≡ ok plaintext)
  unfolding decrypt_current_secret_version_with_keyring
  selects ring row plaintext h =
      let (a, e, rest) = >>=-eq-ok (validate_decrypt_input c row) _ h in
      let (master_key, f, last) =
        >>=-eq-ok (map_err keyring (get_key ring row.key_version)) _ rest in
      (a, master_key, e, map_err-eq-ok keyring (get_key ring row.key_version) f, last)

  -- If the decryption under a key ring returns a plaintext, then the caller is the owner of the
  -- row, the version that is asked for is the current one, the ring has the row's key version and
  -- unwraps the row's data key, and the row's ciphertext is the encryption of that plaintext under
  -- the data key with the canonical bytes of the row's own metadata, given the documented
  -- behaviour of the cipher.
  pub decrypt_with_keyring-IsOpened :
      (aead : AeadLaws c) (ring : MasterKeyRing) (row : DecryptCurrentSecretVersionInput)
      (plaintext : Bytes)
      → decrypt_current_secret_version_with_keyring c ring row ≡ ok plaintext
      → IsOpened ring row plaintext
  decrypt_with_keyring-IsOpened aead ring row plaintext h =
      let (a, master_key, validated, selected, last) = selects ring row plaintext h in
      let (owner, current, is) = owner_and_version row a validated in
      let (data_key, unwrapped, decrypted) = selected_opens master_key a row plaintext last in
      let (b, bytes, o) =
        decrypt_secret-bytes data_key a row.nonce_or_iv row.ciphertext plaintext decrypted in
      record {
        asked_by_owner = owner;
        is_current = current;
        master_key = master_key;
        selected = selected;
        data_key = data_key;
        unwrapped = unwrapped;
        bytes = b;
        bound = subst (λ x. aad_bytes c x ≡ ok b) is bytes;
        sealed = aead.encrypt-decrypt data_key row.nonce_or_iv b plaintext row.ciphertext o;
      }
