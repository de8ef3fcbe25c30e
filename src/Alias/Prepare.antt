-- ===== src/Alias/Prepare.antt =====
-- `encrypt_alias` of src/alias/crypto.rs and src/alias/write.rs: each draws random bytes.
pub mod RoundTrip
use mipsorcu.Alias.Aad.{AliasAadV1, to_stored_context}
use mipsorcu.Alias.Crypto.{alias_aad_bytes, cipher_from_alias_key, compute_alias_fingerprint}
use mipsorcu.Crates.{Crates, Uuid, OffsetDateTime}
use mipsorcu.Draws.{Draw, lift, ◌>>=◌, ◌>>◌}
use mipsorcu.Errors.{CryptoError, encryption_failed, aad_failed}
use mipsorcu.Json.{Value}
use mipsorcu.Prelude.{ℕ, Bytes, Text, as_bytes, ok, ok_or, map_err}
use mipsorcu.Secrets.{generate_uuid, generate_nonce, new_ciphertext, fill_bytes}

abbrev alias_fingerprint_schema_version_v1 : ℕ
alias_fingerprint_schema_version_v1 = 1

pub record EncryptedAlias : Type 0 where
  pub ciphertext : Bytes
  pub nonce : Bytes

pub record PreparedAliasUpdate : Type 0 where
  pub secret_alias_id : Uuid
  pub secret_id : Uuid
  pub owner_user_id : Uuid
  pub ciphertext : Bytes
  pub nonce : Bytes
  pub alias_key_version : ℕ
  pub new_alias_fingerprint : Bytes
  pub fingerprint_key_version : ℕ
  pub fingerprint_schema_version : ℕ
  pub aad_context : Value

pub record PreparedAliasCreate : Type 0 where
  pub secret_alias_id : Uuid
  pub secret_id : Uuid
  pub owner_user_id : Uuid
  pub ciphertext : Bytes
  pub nonce : Bytes
  pub alias_key_version : ℕ
  pub alias_fingerprint : Bytes
  pub fingerprint_key_version : ℕ
  pub fingerprint_schema_version : ℕ
  pub aad_context : Value
  pub created_at : OffsetDateTime

module _ (c : Crates) where
  unfoldable pub encrypt_alias : Bytes → AliasAadV1 → Text → Draw CryptoError EncryptedAlias
  unfolding fill_bytes alias_aad_bytes cipher_from_alias_key new_ciphertext as_bytes
  encrypt_alias encryption_key a alias = do
    nonce ← generate_nonce c
    bytes ← lift (alias_aad_bytes c a)
    lift (cipher_from_alias_key c encryption_key)
    sealed ← lift (ok_or (c.encrypt encryption_key nonce bytes (as_bytes alias)) encryption_failed)
    ciphertext ← lift (new_ciphertext sealed)
    lift (ok (record { ciphertext = ciphertext; nonce = nonce }))

  unfoldable pub prepare_alias_update :
      Bytes → ℕ → Bytes → ℕ → Uuid → Uuid → Uuid → Text → Draw CryptoError PreparedAliasUpdate
  unfolding encrypt_alias compute_alias_fingerprint to_stored_context
  prepare_alias_update encryption_key encryption_key_version fingerprint_key fingerprint_key_version
        secret_alias_id secret_id owner_user_id new_alias =
      do
        let a : AliasAadV1 = record {
          secret_alias_id = secret_alias_id;
          secret_id = secret_id;
          owner_user_id = owner_user_id;
          alias_key_version = encryption_key_version;
        }
        encrypted ← encrypt_alias encryption_key a new_alias
        fingerprint ← lift (compute_alias_fingerprint c fingerprint_key owner_user_id new_alias)
        context ← lift (map_err (λ e. aad_failed) (to_stored_context c a))
        lift (
            ok (record {
              secret_alias_id = secret_alias_id;
              secret_id = secret_id;
              owner_user_id = owner_user_id;
              ciphertext = encrypted.ciphertext;
              nonce = encrypted.nonce;
              alias_key_version = encryption_key_version;
              new_alias_fingerprint = fingerprint;
              fingerprint_key_version = fingerprint_key_version;
              fingerprint_schema_version = alias_fingerprint_schema_version_v1;
              aad_context = context;
            }))

  unfoldable pub prepare_alias_create :
      Bytes
      → ℕ
      → Bytes
      → ℕ
      → Uuid
      → Uuid
      → Text
      → OffsetDateTime
      → Draw CryptoError PreparedAliasCreate
  unfolding generate_uuid encrypt_alias compute_alias_fingerprint to_stored_context
  prepare_alias_create encryption_key encryption_key_version fingerprint_key fingerprint_key_version
        secret_id owner_user_id alias_input created_at =
      do
        secret_alias_id ← generate_uuid c
        let a : AliasAadV1 = record {
          secret_alias_id = secret_alias_id;
          secret_id = secret_id;
          owner_user_id = owner_user_id;
          alias_key_version = encryption_key_version;
        }
        encrypted ← encrypt_alias encryption_key a alias_input
        fingerprint ← lift (compute_alias_fingerprint c fingerprint_key owner_user_id alias_input)
        context ← lift (map_err (λ e. aad_failed) (to_stored_context c a))
        lift (
            ok (record {
              secret_alias_id = secret_alias_id;
              secret_id = secret_id;
              owner_user_id = owner_user_id;
              ciphertext = encrypted.ciphertext;
              nonce = encrypted.nonce;
              alias_key_version = encryption_key_version;
              alias_fingerprint = fingerprint;
              fingerprint_key_version = fingerprint_key_version;
              fingerprint_schema_version = alias_fingerprint_schema_version_v1;
              aad_context = context;
              created_at = created_at;
            }))
