-- ===== src/Alias/Prepare/RoundTrip.antt =====
-- What is prepared for an alias, a read of the row decrypts.
use mipsorcu.Alias.Aad.{AliasAadV1, to_stored_context, alias_canonical_bytes}
use mipsorcu.Alias.Aad.RoundTrip.{IsValid, from_stored_context-to_stored_context}
use mipsorcu.Alias.Crypto.{
  alias_aad_bytes, cipher_from_alias_key, compute_alias_fingerprint, decrypt_alias_row,
}
use mipsorcu.Alias.Input.{parse_alias}
use mipsorcu.Alias.Input.Normal.{parse_alias_iff, parse_alias_idem, as_bytes-ascii, allowed-ascii}
use mipsorcu.Alias.Prepare.{
  EncryptedAlias, encrypt_alias, prepare_alias_create, PreparedAliasCreate,
}
use mipsorcu.Crates.{Crates, Uuid, UuidLaws, AeadLaws, Utf8Laws, JsonTextLaws, OffsetDateTime}
use mipsorcu.Draws.{>>=-eq-ok, lift-eq-ok}
use mipsorcu.Errors.{encryption_failed, aad_failed}
use mipsorcu.Json.{Value}
use mipsorcu.Prelude.{
  ℕ, ◌≤◌, ◌≡◌, refl, true, Bytes, bytes_eq_refl, Text, as_bytes, ok, ok_or, some, map_err,
  map_err-eq-ok, arith, [], ◌∷◌, Option-cases, inl, inr,
}
use mipsorcu.Secrets.{generate_nonce, generate_uuid, new_ciphertext, u32_max, fill_bytes}

module _ (c : Crates) (uuid : UuidLaws c) (aead : AeadLaws c) (utf8 : Utf8Laws c)
    (json : JsonTextLaws c) where
  -- what a cipher text of an alias comes from
  record IsSealed (key : Bytes) (a : AliasAadV1) (alias : Text) (e : EncryptedAlias) : Type 0 where
    bytes : Bytes
    canonical : alias_aad_bytes c a ≡ ok bytes
    usable : cipher_from_alias_key c key ≡ ok tt
    sealed : c.encrypt key e.nonce bytes (as_bytes alias) ≡ some e.ciphertext

  new_ciphertext-same : (b d : Bytes) → new_ciphertext b ≡ ok d → b ≡ d
  unfolding new_ciphertext
  new_ciphertext-same [] d h = cc
  new_ciphertext-same (x ∷ b) d h = ground (arith, h)

  encrypt_alias-IsSealed :
      (key : Bytes) (a : AliasAadV1) (alias : Text) (e : EncryptedAlias) (k k' : ℕ)
      → encrypt_alias c key a alias k ≡ (ok e, k')
      → IsSealed key a alias e
  unfolding encrypt_alias
  encrypt_alias-IsSealed key a alias e k k' h =
      let (nonce, k1, p0, h1) = >>=-eq-ok (generate_nonce c) _ k h in
      let (bytes, p1, h2) = lift-eq-ok (alias_aad_bytes c a) _ k1 h1 in
      let (u, p2, h3) = lift-eq-ok (cipher_from_alias_key c key) _ k1 h2 in
      let (cipher, p3, h4) =
        lift-eq-ok (ok_or (c.encrypt key nonce bytes (as_bytes alias)) encryption_failed) _ k1 h3 in
      let (ciphertext, p4, h5) = lift-eq-ok (new_ciphertext cipher) _ k1 h4 in
      let same = new_ciphertext-same cipher ciphertext p4 in
      record { bytes = bytes; canonical = p1; usable = p2; sealed = ground (arith, p3, h5, same) }

  row_decrypts :
      (key : Bytes) (a : AliasAadV1) (value alias : Text) (e : EncryptedAlias) (stored : Value)
      → IsValid c a
      → parse_alias value ≡ ok alias
      → IsSealed key a alias e
      → to_stored_context c a ≡ ok stored
      → decrypt_alias_row c key a.secret_alias_id a.secret_id a.owner_user_id a.alias_key_version
          e.ciphertext e.nonce stored
        ≡ ok
            (record { secret_alias_id = a.secret_alias_id; secret_id = a.secret_id; alias = alias })
  unfolding decrypt_alias_row alias_aad_bytes
  row_decrypts key a value alias e stored v n s t =
      let bytes : alias_canonical_bytes c a ≡ ok s.bytes = map_err-eq-ok _ _ s.canonical in
      let ascii = allowed-ascii alias ((parse_alias_iff value alias).0 n).1.allowed in
      rw
        (
          from_stored_context-to_stored_context c uuid json a stored v t,
          bytes,
          bytes_eq_refl s.bytes,
          s.usable,
          aead.decrypt-encrypt key e.nonce s.bytes (as_bytes alias) e.ciphertext s.sealed,
          as_bytes-ascii alias ascii,
          utf8.from_utf8-ascii alias ascii,
          parse_alias_idem value alias n,
        )
        refl

  generated_v4 : (k : ℕ) (u : Uuid) (k' : ℕ) → generate_uuid c k ≡ (ok u, k') → c.is_v4 u ≡ true
  unfolding generate_uuid fill_bytes
  generated_v4 k u k' h = elim (Option-cases (c.fill k 16)) [
    | inl p ↦ absurd (ground (arith, p, h))
    | inr (bytes, p) ↦ ground (arith, p, h, uuid.is_v4-from_random_bytes bytes)
  ]

  -- A new alias is read back: the row that `prepare_alias_create` makes of a parsed alias and of valid
  -- identifiers is of that secret, owner and key version, and decrypts under the encryption key to that
  -- alias.
  pub decrypt-prepare_alias_create :
      (key : Bytes) (key_version : ℕ) (fingerprint_key : Bytes) (fingerprint_version : ℕ)
      (secret_id owner : Uuid) (value alias : Text) (created_at : OffsetDateTime) (k : ℕ)
      (p : PreparedAliasCreate) (k' : ℕ)
      → c.is_v4 secret_id ≡ true
      → 1 ≤ key_version
      → key_version ≤ u32_max
      → parse_alias value ≡ ok alias
      → prepare_alias_create c key key_version fingerprint_key fingerprint_version secret_id owner
          alias created_at k
        ≡ (ok p, k')
      → (p.secret_id ≡ secret_id)
        × (p.owner_user_id ≡ owner)
        × (p.alias_key_version ≡ key_version)
        × (decrypt_alias_row c key p.secret_alias_id p.secret_id p.owner_user_id p.alias_key_version
              p.ciphertext p.nonce p.aad_context
            ≡ ok (record {
              secret_alias_id = p.secret_alias_id;
              secret_id = secret_id;
              alias = alias;
            }))
  unfolding prepare_alias_create
  decrypt-prepare_alias_create key key_version fingerprint_key fingerprint_version secret_id owner
        value alias created_at k p k' v4 pos small n h =
      let (id, k0, g, h0) = >>=-eq-ok (generate_uuid c) _ k h in
      let a : AliasAadV1 = record {
        secret_alias_id = id;
        secret_id = secret_id;
        owner_user_id = owner;
        alias_key_version = key_version;
      } in
      let v : IsValid c a = record {
        secret_alias_id_v4 = generated_v4 k id k0 g;
        secret_id_v4 = v4;
        key_version_pos = pos;
        key_version_u32 = small;
      } in
      let (e, k1, p0, h1) = >>=-eq-ok (encrypt_alias c key a alias) _ k0 h0 in
      let (f, p1, h2) =
        lift-eq-ok (compute_alias_fingerprint c fingerprint_key owner alias) _ k1 h1 in
      let (stored, p2, h3) =
        lift-eq-ok (map_err (λ x. aad_failed) (to_stored_context c a)) _ k1 h2 in
      let decrypted =
        row_decrypts key a value alias e stored v n (encrypt_alias-IsSealed key a alias e k0 k1 p0)
          (map_err-eq-ok _ _ p2) in
      (ground (arith, h3), ground (arith, h3), ground (arith, h3), ground (arith, h3, decrypted))
