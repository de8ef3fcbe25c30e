-- ===== src/Write.antt =====
-- src/write/{input,prepare}.rs: the versions of a secret that a write stores. A new secret gets a
-- data key of its own; a new version of a secret keeps the data key, and with a key ring wraps it
-- again under the active master key.
pub mod Keyed
pub mod Prepared
pub mod RoundTrip
pub mod Rotation
use mipsorcu.Aad.{AadV1}
use mipsorcu.Crates.{Crates, Uuid, OffsetDateTime}
use mipsorcu.Crypto.Seal.{encrypt_secret, wrap_data_key}
use mipsorcu.Crypto.{KeyWrapContext, unwrap_data_key}
use mipsorcu.Draws.{Draw, lift, from, ◌>>=◌, ◌>>◌}
use mipsorcu.Errors.{SecretWriteError, input, crypto, keyring}
use mipsorcu.Json.{Value}
use mipsorcu.Prelude.{ℕ, Bytes, Text, codes, Result, ok, map_err}
use mipsorcu.Secrets.{first_version, next_version, generate_uuid, generate_data_key, fill_bytes}

pub record NewSecretVersionInput : Type 0 where
  pub owner_user_id : Uuid
  pub classification : Text
  pub created_by_device_id : Text
  pub created_at : OffsetDateTime
  pub key_version : ℕ
  pub plaintext : Bytes

pub record CurrentSecretVersionState : Type 0 where
  pub secret_id : Uuid
  pub current_version : ℕ
  pub owner_user_id : Uuid
  pub classification : Text
  pub key_version : ℕ
  pub encrypted_data_key : Bytes

pub record ExistingSecretVersionInput : Type 0 where
  pub current : CurrentSecretVersionState
  pub created_by_device_id : Text
  pub created_at : OffsetDateTime
  pub plaintext : Bytes

pub data SecretWriteAction : Type 0 where
  encrypt_create encrypt_rotate : SecretWriteAction

-- `SecretWriteAction::as_str`
abbrev pub write_action_as_str : SecretWriteAction → Text
write_action_as_str encrypt_create = codes "encrypt_create"
write_action_as_str encrypt_rotate = codes "encrypt_rotate"

pub record SecretVersionMetadata : Type 0 where
  pub secret_id : Uuid
  pub version : ℕ
  pub owner_user_id : Uuid
  pub classification : Text
  pub created_by_device_id : Text
  pub created_at : OffsetDateTime
  pub key_version : ℕ
  pub encrypted_data_key : Bytes

pub record PreparedSecretVersion : Type 0 where
  pub write_action : SecretWriteAction
  pub secret_id : Uuid
  pub secret_version_id : Uuid
  pub version : ℕ
  pub owner_user_id : Uuid
  pub classification : Text
  pub created_by_device_id : Text
  pub created_at : OffsetDateTime
  pub key_version : ℕ
  pub ciphertext : Bytes
  pub encrypted_data_key : Bytes
  pub nonce_or_iv : Bytes
  pub aad_context : Value

-- `AadV1::from_row_metadata` of the metadata
abbrev pub row_aad : SecretVersionMetadata → AadV1
row_aad metadata = record {
  secret_id = metadata.secret_id;
  version = metadata.version;
  owner_user_id = metadata.owner_user_id;
  classification = metadata.classification;
  created_at = metadata.created_at;
}

module _ (c : Crates) where
  unfoldable pub prepare_secret_version_with_data_key :
      SecretWriteAction
      → SecretVersionMetadata
      → Bytes
      → Bytes
      → Draw SecretWriteError PreparedSecretVersion
  unfolding generate_uuid encrypt_secret
  prepare_secret_version_with_data_key action metadata data_key plaintext = do
    secret_version_id ← from crypto (generate_uuid c)
    sealed ← from crypto (encrypt_secret c data_key (row_aad metadata) plaintext)
    lift (
        ok (record {
          write_action = action;
          secret_id = metadata.secret_id;
          secret_version_id = secret_version_id;
          version = metadata.version;
          owner_user_id = metadata.owner_user_id;
          classification = metadata.classification;
          created_by_device_id = metadata.created_by_device_id;
          created_at = metadata.created_at;
          key_version = metadata.key_version;
          ciphertext = sealed.ciphertext;
          encrypted_data_key = metadata.encrypted_data_key;
          nonce_or_iv = sealed.nonce;
          aad_context = sealed.aad_context;
        }))

  unfoldable pub prepare_new_secret_version_parts :
      Bytes → ℕ → NewSecretVersionInput → Draw SecretWriteError PreparedSecretVersion
  unfolding generate_uuid fill_bytes wrap_data_key prepare_secret_version_with_data_key
  prepare_new_secret_version_parts master_key key_version new = do
    secret_id ← from crypto (generate_uuid c)
    data_key ← from crypto (generate_data_key c)
    encrypted_data_key ← from crypto (
        wrap_data_key c master_key (record { secret_id = secret_id; key_version = key_version })
          data_key)
    prepare_secret_version_with_data_key encrypt_create
        (record {
          secret_id = secret_id;
          version = first_version;
          owner_user_id = new.owner_user_id;
          classification = new.classification;
          created_by_device_id = new.created_by_device_id;
          created_at = new.created_at;
          key_version = key_version;
          encrypted_data_key = encrypted_data_key;
        })
        data_key new.plaintext

  unfoldable pub prepare_new_secret_version :
      Bytes → NewSecretVersionInput → Draw SecretWriteError PreparedSecretVersion
  unfolding prepare_new_secret_version_parts
  prepare_new_secret_version master_key new =
      prepare_new_secret_version_parts master_key new.key_version new

  -- the metadata of the next version, under the key it is wrapped with
  abbrev pub next_metadata : ExistingSecretVersionInput → ℕ → ℕ → Bytes → SecretVersionMetadata
  next_metadata existing version key_version encrypted_data_key = record {
    secret_id = existing.current.secret_id;
    version = version;
    owner_user_id = existing.current.owner_user_id;
    classification = existing.current.classification;
    created_by_device_id = existing.created_by_device_id;
    created_at = existing.created_at;
    key_version = key_version;
    encrypted_data_key = encrypted_data_key;
  }

  -- what a new version starts with: its number, and the data key, unwrapped
  abbrev pub unwrap_current : Bytes → CurrentSecretVersionState → Result SecretWriteError Bytes
  unwrap_current master_key current = map_err crypto (
      unwrap_data_key c master_key
        (record { secret_id = current.secret_id; key_version = current.key_version })
        current.encrypted_data_key)

  unfoldable pub prepare_existing_secret_version :
      Bytes → ExistingSecretVersionInput → Draw SecretWriteError PreparedSecretVersion
  unfolding next_version unwrap_data_key prepare_secret_version_with_data_key
  prepare_existing_secret_version master_key existing = do
    version ← lift (map_err input (next_version existing.current.current_version))
    data_key ← lift (unwrap_current master_key existing.current)
    prepare_secret_version_with_data_key encrypt_rotate
        (next_metadata existing version existing.current.key_version
          existing.current.encrypted_data_key)
        data_key existing.plaintext

  -- the rewrapping of `prepare_existing_secret_version_with_keyring`, under the active key
  unfoldable pub rewrap :
      ExistingSecretVersionInput
      → ℕ
      → Bytes
      → ℕ × Bytes
      → Draw SecretWriteError PreparedSecretVersion
  unfolding wrap_data_key prepare_secret_version_with_data_key
  rewrap existing version data_key (key_version, master_key) = do
    rewrapped_data_key ← from crypto (
        wrap_data_key c master_key
          (record { secret_id = existing.current.secret_id; key_version = key_version }) data_key)
    prepare_secret_version_with_data_key encrypt_rotate
        (next_metadata existing version key_version rewrapped_data_key) data_key existing.plaintext
