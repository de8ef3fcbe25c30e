-- ===== src/Write/RoundTrip.antt =====
-- Every version that src/write/prepare.rs prepares is read back by src/read.rs.
use mipsorcu.Crypto.RoundTrip.{unwrap_data_key-wrap_data_key}
use mipsorcu.Aad.RoundTrip.{IsValid}
use mipsorcu.Write.Prepared.{decrypt-prepared_with_keyring, row_of}
use mipsorcu.Read.{decrypt_current_secret_version_with_keyring}
use mipsorcu.Write.Keyed.{prepare_new_secret_version_with_keyring}
use mipsorcu.Authorization.{VerifiedJwtClaims}
use mathlib.Core.Option.{some}
use mipsorcu.Crates.{TimeLaws, AeadLaws, Crates, Uuid, UuidLaws}
use mipsorcu.Crypto.Seal.{wrap_data_key}
use mipsorcu.Draws.{Draw, >>=-eq-ok, from-eq-ok, from}
use mipsorcu.Errors.{SecretWriteError, crypto}
use mipsorcu.Keyring.Lookup.{active-from_key_entries}
use mipsorcu.Keyring.{MasterKeyRing, from_key_entries}
use mipsorcu.Prelude.{
  false, is_blank, List, ℕ, ◌+◌, ◌≤◌, ◌≡◌, true, Bytes, ok, arith, Option-cases, inl, inr,
}
use mipsorcu.Secrets.{generate_uuid, generate_data_key, next_version, u32_max}
use mipsorcu.Write.{
  row_aad, NewSecretVersionInput, SecretVersionMetadata, PreparedSecretVersion, encrypt_create,
  prepare_new_secret_version_parts, prepare_secret_version_with_data_key,
}

pub some-chosen {ℓ} : {A : Type ℓ} {x y : A} → some x ≡ some y → x ≡ y
some-chosen h = cc

module _ (c : Crates) where
  generate_uuid-is_v4 :
      (uuid : UuidLaws c) (k : ℕ) (id : Uuid) (k' : ℕ)
      → generate_uuid c k ≡ (ok id, k')
      → c.is_v4 id ≡ true
  unfolding generate_uuid
  generate_uuid-is_v4 uuid k id k' h = elim (Option-cases (c.fill k 16)) [
    | inl e ↦ ground arith
    | inr (b, e) ↦ ground (arith, uuid.is_v4-from_random_bytes b)
  ]

  pub next_version_lem : (v w : ℕ) → next_version v ≡ ok w → (w ≡ v + 1) × (w ≤ u32_max)
  unfolding next_version
  next_version_lem v w h = ground arith

  abbrev new_metadata : ℕ → NewSecretVersionInput → Uuid → Bytes → SecretVersionMetadata
  new_metadata key_version new id wrapped = record {
    secret_id = id;
    version = 1;
    owner_user_id = new.owner_user_id;
    classification = new.classification;
    created_by_device_id = new.created_by_device_id;
    created_at = new.created_at;
    key_version = key_version;
    encrypted_data_key = wrapped;
  }

  -- the steps of a new version that is prepared
  prepare_new-steps :
      (master_key : Bytes) (key_version : ℕ) (new : NewSecretVersionInput) (k : ℕ)
      (p : PreparedSecretVersion) (k' : ℕ)
      → prepare_new_secret_version_parts c master_key key_version new k ≡ (ok p, k')
      → (id : Uuid) × (data_key wrapped : Bytes) × (k1 k2 k3 : ℕ) × (generate_uuid c k
          ≡ (ok id, k1))
        × (wrap_data_key c master_key
              (record { secret_id = id; key_version = key_version })
              data_key
              k2
            ≡ (ok wrapped, k3))
        × (prepare_secret_version_with_data_key c encrypt_create
              (new_metadata key_version new id wrapped)
              data_key
              new.plaintext
              k3
            ≡ (ok p, k'))
  unfolding prepare_new_secret_version_parts
  prepare_new-steps master_key key_version new k p k' h =
      let (id, k1, e1, h1) = >>=-eq-ok (from crypto (generate_uuid c)) _ k h in
      let (data_key, k2, e2, h2) = >>=-eq-ok (from crypto (generate_data_key c)) _ k1 h1 in
      let wrap : Draw _ Bytes =
        wrap_data_key c master_key (record { secret_id = id; key_version = key_version })
          data_key in
      let (wrapped, k3, e3, h3) = >>=-eq-ok (from crypto wrap) _ k2 h2 in
      (
        id,
        data_key,
        wrapped,
        k1,
        k2,
        k3,
        from-eq-ok crypto (generate_uuid c) k e1,
        from-eq-ok crypto wrap k2 e3,
        h3,
      )

  module _ (aead : AeadLaws c) (uuid : UuidLaws c) (time : TimeLaws c) (active_version : ℕ)
      (entries : List (ℕ × Bytes)) (ring : MasterKeyRing)
      (built : from_key_entries active_version entries ≡ ok ring) (claims : VerifiedJwtClaims) where
    -- A new secret, prepared under a key ring that was built from entries, is decrypted under that
    -- ring for the owner, while it is the current version, to the plaintext that was written.
    -- The classification is not blank, as `Classification::new` ensures.
    pub decrypt-prepare_new_with_keyring :
        (new : NewSecretVersionInput) (k : ℕ) (m : Draw SecretWriteError PreparedSecretVersion)
        (p : PreparedSecretVersion) (k' : ℕ)
        → is_blank new.classification ≡ false
        → claims.subject_user_id ≡ new.owner_user_id
        → prepare_new_secret_version_with_keyring c ring new ≡ some m
        → m k ≡ (ok p, k')
        → decrypt_current_secret_version_with_keyring c ring (row_of claims p) ≡ ok new.plaintext
    unfolding prepare_new_secret_version_with_keyring
    decrypt-prepare_new_with_keyring new k m p k' not_blank owner chosen h =
        let (key, found, got) = active-from_key_entries active_version entries ring built in
        let is : prepare_new_secret_version_parts c key active_version new ≡ m =
          some-chosen (rw found at chosen) in
        let (id, data_key, wrapped, k1, k2, k3, e1, e2, h3) =
          prepare_new-steps key active_version new k p k' (rw (← is) at h) in
        let metadata = new_metadata active_version new id wrapped in
        let valid : IsValid c (row_aad metadata) = record {
          secret_id_v4 = generate_uuid-is_v4 uuid k id k1 e1;
          version_pos = omega arith;
          version_u32 = omega arith;
          classification_not_blank = not_blank;
        } in
        let unwrapped =
          unwrap_data_key-wrap_data_key c key
            (record { secret_id = id; key_version = active_version }) data_key k2 wrapped k3 aead
            e2 in
        decrypt-prepared_with_keyring c aead uuid time claims encrypt_create metadata data_key
          new.plaintext k3 p k' key valid owner unwrapped h3 ring got
