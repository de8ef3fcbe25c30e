-- ===== src/Write/Prepared.antt =====
-- A version that is prepared with a data key is one that src/read.rs accepts for its owner, and
-- opens with that data key.
use mipsorcu.Aad.RoundTrip.{IsValid, from_stored_context-to_stored_context, canonical_bytes-in_utc}
use mipsorcu.Aad.{AadV1, canonical_bytes, to_stored_context}
use mipsorcu.Authorization.{VerifiedJwtClaims, authorize_current_version_decrypt}
use mipsorcu.Crates.{Crates, Uuid, AeadLaws, UuidLaws, TimeLaws}
use mipsorcu.Crypto.RoundTrip.{
  decrypt_secret-encrypt_secret, encrypt_secret-aad_context, encrypt_secret-bytes,
}
use mipsorcu.Crypto.Seal.{encrypt_secret}
use mipsorcu.Crypto.{EncryptedPayload, aad_bytes, unwrap_data_key}
use mipsorcu.Draws.{>>=-eq-ok, from-eq-ok, from}
use mipsorcu.Errors.{crypto}
use mipsorcu.Json.{Value}
use mipsorcu.Prelude.{subst, ℕ, ◌≡◌, refl, Bytes, ok, bytes_eq_refl, map_err-eq-ok, ==_refl}
use mipsorcu.Keyring.{MasterKeyRing, get_key}
use mipsorcu.Read.{
  decrypt_current_secret_version, decrypt_current_secret_version_with_keyring,
  DecryptCurrentSecretVersionInput, verify_stored_aad_matches_row, validate_decrypt_input,
  decrypt_with_selected_master_key,
}
use mipsorcu.Secrets.{generate_uuid}
use mipsorcu.Write.{
  SecretWriteAction, SecretVersionMetadata, PreparedSecretVersion, row_aad,
  prepare_secret_version_with_data_key,
}

-- The row of a stored version, as its reader asks for it while it is the current one.
abbrev pub row_of : VerifiedJwtClaims → PreparedSecretVersion → DecryptCurrentSecretVersionInput
row_of claims p = record {
  claims = claims;
  secret_id = p.secret_id;
  version = p.version;
  current_version = p.version;
  owner_user_id = p.owner_user_id;
  classification = p.classification;
  created_at = p.created_at;
  key_version = p.key_version;
  encrypted_data_key = p.encrypted_data_key;
  nonce_or_iv = p.nonce_or_iv;
  ciphertext = p.ciphertext;
  aad_context = p.aad_context;
}

abbrev pub prepared_of :
    SecretWriteAction → SecretVersionMetadata → Uuid → EncryptedPayload → PreparedSecretVersion
prepared_of action metadata id sealed = record {
  write_action = action;
  secret_id = metadata.secret_id;
  secret_version_id = id;
  version = metadata.version;
  owner_user_id = metadata.owner_user_id;
  classification = metadata.classification;
  created_by_device_id = metadata.created_by_device_id;
  created_at = metadata.created_at;
  key_version = metadata.key_version;
  ciphertext = sealed.ciphertext;
  encrypted_data_key = metadata.encrypted_data_key;
  nonce_or_iv = sealed.nonce;
  aad_context = sealed.aad_context;
}

module _ (c : Crates) where
  pub prepare_secret_version_with_data_key-sealed :
      (action : SecretWriteAction) (metadata : SecretVersionMetadata) (data_key plaintext : Bytes)
      (k : ℕ) (p : PreparedSecretVersion) (k' : ℕ)
      → prepare_secret_version_with_data_key c action metadata data_key plaintext k ≡ (ok p, k')
      → (id : Uuid) × (k1 : ℕ) × (sealed : EncryptedPayload) × (k2 : ℕ) × (encrypt_secret c data_key
            (row_aad metadata)
            plaintext
            k1
          ≡ (ok sealed, k2))
        × (prepared_of action metadata id sealed ≡ p)
  unfolding prepare_secret_version_with_data_key
  prepare_secret_version_with_data_key-sealed action metadata data_key plaintext k p k' h =
      let (id, k1, e1, h1) = >>=-eq-ok (from crypto (generate_uuid c)) _ k h in
      let (sealed, k2, e2, h2) =
        >>=-eq-ok (from crypto (encrypt_secret c data_key (row_aad metadata) plaintext)) _ k1 h1 in
      (
        id,
        k1,
        sealed,
        k2,
        from-eq-ok crypto (encrypt_secret c data_key (row_aad metadata) plaintext) k1 e2,
        cc h2,
      )

  module _ (aead : AeadLaws c) (uuid : UuidLaws c) (time : TimeLaws c) where
    stored_matches :
        (a : AadV1) (context : Value) (b : Bytes)
        → IsValid c a
        → to_stored_context c a ≡ ok context
        → canonical_bytes c a ≡ ok b
        → verify_stored_aad_matches_row c context a ≡ ok tt
    unfolding verify_stored_aad_matches_row
    stored_matches a context b v s h =
        rw
          (
            from_stored_context-to_stored_context c uuid time a context v s,
            canonical_bytes-in_utc c uuid time a,
            h,
            bytes_eq_refl b,
          )
          refl

    module _ (claims : VerifiedJwtClaims) (action : SecretWriteAction)
        (metadata : SecretVersionMetadata) (data_key plaintext : Bytes) (id : Uuid) (k : ℕ)
        (sealed : EncryptedPayload) (k' : ℕ) (valid : IsValid c (row_aad metadata))
        (made : encrypt_secret c data_key (row_aad metadata) plaintext k ≡ (ok sealed, k')) where
      validated :
          claims.subject_user_id ≡ metadata.owner_user_id
          → validate_decrypt_input c (row_of claims (prepared_of action metadata id sealed))
            ≡ ok (row_aad metadata)
      unfolding validate_decrypt_input authorize_current_version_decrypt aad_bytes
      validated owner =
          let (b, e, q) =
            encrypt_secret-bytes c data_key (row_aad metadata) plaintext k sealed k' made in
          let context =
            encrypt_secret-aad_context c data_key (row_aad metadata) plaintext k sealed k' made in
          rw
            (
              owner,
              ==_refl metadata.owner_user_id,
              ==_refl metadata.version,
              stored_matches (row_aad metadata) sealed.aad_context b valid context
                  (map_err-eq-ok _ _ e),
            )
            refl

      opened :
          (master_key : Bytes)
          → unwrap_data_key c master_key
              (record { secret_id = metadata.secret_id; key_version = metadata.key_version })
              metadata.encrypted_data_key
            ≡ ok data_key
          → decrypt_with_selected_master_key c master_key
              (row_aad metadata)
              (row_of claims (prepared_of action metadata id sealed))
            ≡ ok plaintext
      unfolding decrypt_with_selected_master_key
      opened master_key h =
          rw
            (
              h,
              decrypt_secret-encrypt_secret c data_key (row_aad metadata) plaintext k sealed k' aead
                  made,
            )
            refl

  module _ (aead : AeadLaws c) (uuid : UuidLaws c) (time : TimeLaws c) (claims : VerifiedJwtClaims)
      (action : SecretWriteAction) (metadata : SecretVersionMetadata) (data_key plaintext : Bytes)
      (k : ℕ) (p : PreparedSecretVersion) (k' : ℕ) (master_key : Bytes)
      (valid : IsValid c (row_aad metadata))
      (owner : claims.subject_user_id ≡ metadata.owner_user_id)
      (wrapped : unwrap_data_key c master_key
          (record { secret_id = metadata.secret_id; key_version = metadata.key_version })
          metadata.encrypted_data_key
        ≡ ok data_key)
      (made : prepare_secret_version_with_data_key c action metadata data_key plaintext k
        ≡ (ok p, k')) where
    pub decrypt-prepared :
        decrypt_current_secret_version c master_key (row_of claims p) ≡ ok plaintext
    unfolding decrypt_current_secret_version
    decrypt-prepared =
        let (id, k1, sealed, k2, e, is) =
          prepare_secret_version_with_data_key-sealed action metadata data_key plaintext k p k'
            made in
        let v =
          validated aead uuid time claims action metadata data_key plaintext id k1 sealed k2 valid e
            owner in
        let o =
          opened aead uuid time claims action metadata data_key plaintext id k1 sealed k2 valid e
            master_key wrapped in
        subst (λ q. decrypt_current_secret_version c master_key (row_of claims q) ≡ ok plaintext) is
          (rw (v, o) refl)

    pub decrypt-prepared_with_keyring :
        (ring : MasterKeyRing)
        → get_key ring metadata.key_version ≡ ok master_key
        → decrypt_current_secret_version_with_keyring c ring (row_of claims p) ≡ ok plaintext
    unfolding decrypt_current_secret_version_with_keyring
    decrypt-prepared_with_keyring ring key =
        let (id, k1, sealed, k2, e, is) =
          prepare_secret_version_with_data_key-sealed action metadata data_key plaintext k p k'
            made in
        let v =
          validated aead uuid time claims action metadata data_key plaintext id k1 sealed k2 valid e
            owner in
        let o =
          opened aead uuid time claims action metadata data_key plaintext id k1 sealed k2 valid e
            master_key wrapped in
        subst
          (λ q. decrypt_current_secret_version_with_keyring c ring (row_of claims q) ≡ ok plaintext)
          is (rw (v, key, o) refl)
