-- ===== src/Secrets.antt =====
-- src/types/{ids,secret_material}.rs: identifiers, versions, keys, nonces and the envelope of a
-- wrapped data key. The newtypes are the values that they hold; random
-- values are drawn in order, and a draw may fail.
use mipsorcu.Crates.{Crates, Uuid, OffsetDateTime}
use mipsorcu.Draws.{Draw}
use mipsorcu.Errors.{
  AadError, CryptoError, InputError, invalid_positive_integer, secret_version_overflow,
  invalid_key_version, invalid_classification, invalid_device_id, invalid_data_key_length,
  invalid_nonce_length, empty_ciphertext, invalid_encrypted_data_key_length,
  unsupported_encrypted_data_key_version, randomness_unavailable, invalid_uuid,
  invalid_uuid_version, time_error,
}
use mipsorcu.Prelude.{
  ℕ, ◌+◌, not, Bytes, Text, codes, length, take, drop, Result, ok, err, ok_or, map_err, reject,
  ◌>>=◌, ◌>>◌, [], ◌∷◌, leb, ◌==◌, if◌then◌else◌, is_blank,
}
use mipsorcu.SourceEventAt.{parse_utc_rfc3339, format_utc_rfc3339}

abbrev pub u32_max : ℕ
u32_max = 4294967295

-- `SecretVersion::first`
abbrev pub first_version : ℕ
first_version = 1

-- `SecretVersion::new`; the text of the number is an argument of the error only
unfoldable pub new_secret_version : ℕ → Result AadError ℕ
new_secret_version value =
    if value == 0 then err (invalid_positive_integer (codes "version") (codes "0")) else ok value

-- `SecretVersion::next`
unfoldable pub next_version : ℕ → Result InputError ℕ
next_version version = if leb u32_max version then err secret_version_overflow else ok (version + 1)

-- `KeyVersion::new`
unfoldable pub new_key_version : ℕ → Result CryptoError ℕ
new_key_version value = if value == 0 then err (invalid_key_version value) else ok value

-- `Classification::new`
unfoldable pub new_classification : Text → Result AadError Text
new_classification value = if is_blank value then err invalid_classification else ok value

-- `DeviceId::new`
unfoldable pub new_device_id : Text → Result InputError Text
new_device_id value = if is_blank value then err invalid_device_id else ok value

abbrev pub data_key_length : ℕ
data_key_length = 32

abbrev pub nonce_length : ℕ
nonce_length = 24

abbrev pub encrypted_data_key_version : ℕ
encrypted_data_key_version = 1

abbrev pub encrypted_data_key_ciphertext_length : ℕ
encrypted_data_key_ciphertext_length = data_key_length + 16

abbrev pub encrypted_data_key_length : ℕ
encrypted_data_key_length = 1 + nonce_length + encrypted_data_key_ciphertext_length

-- `DataKey::parse`; `MasterKey::parse` differs in the error alone
unfoldable pub parse_data_key : Bytes → Result CryptoError Bytes
parse_data_key bytes =
    if not (length bytes == data_key_length)
    then err (invalid_data_key_length (length bytes))
    else ok bytes

-- `Nonce::parse`
unfoldable pub parse_nonce : Bytes → Result CryptoError Bytes
parse_nonce bytes =
    if not (length bytes == nonce_length)
    then err (invalid_nonce_length (length bytes))
    else ok bytes

-- `Ciphertext::new`
unfoldable pub new_ciphertext : Bytes → Result CryptoError Bytes
new_ciphertext [] = err empty_ciphertext
new_ciphertext (b ∷ bytes) = ok (b ∷ bytes)

abbrev pub first_byte : Bytes → ℕ
first_byte [] = 0
first_byte (b ∷ bytes) = b

-- `EncryptedDataKey::parse` and `from_envelope_bytes`
unfoldable pub parse_envelope : Bytes → Result CryptoError Bytes
parse_envelope bytes = do
  reject (not (length bytes == encrypted_data_key_length))
      (invalid_encrypted_data_key_length (length bytes))
  reject (not (first_byte bytes == encrypted_data_key_version))
      (unsupported_encrypted_data_key_version (first_byte bytes))
  ok bytes

-- `EncryptedDataKey::nonce_bytes`
abbrev pub nonce_bytes : Bytes → Bytes
nonce_bytes envelope = take nonce_length (drop 1 envelope)

-- `EncryptedDataKey::ciphertext_bytes`
abbrev pub ciphertext_bytes : Bytes → Bytes
ciphertext_bytes envelope = drop (1 + nonce_length) envelope

module _ (c : Crates) where
  -- `getrandom::fill`
  unfoldable pub fill_bytes : ℕ → Draw CryptoError Bytes
  fill_bytes n k = (ok_or (c.fill k n) randomness_unavailable, k + 1)

  -- `DataKey::generate`
  abbrev pub generate_data_key : Draw CryptoError Bytes
  generate_data_key = fill_bytes data_key_length

  -- `Nonce::generate`
  abbrev pub generate_nonce : Draw CryptoError Bytes
  generate_nonce = fill_bytes nonce_length

  abbrev uuid_of : Result CryptoError Bytes → Result CryptoError Uuid
  uuid_of r = r >>= λ bytes. ok (c.from_random_bytes bytes)

  -- `SecretId::generate` and `SecretVersionId::generate`
  unfoldable pub generate_uuid : Draw CryptoError Uuid
  unfolding fill_bytes
  generate_uuid k = let (r, k') = fill_bytes 16 k in (uuid_of r, k')

  -- `SecretId::parse`
  unfoldable pub parse_secret_id : Text → Result AadError Uuid
  parse_secret_id value = do
    uuid ← ok_or (c.parse_str value) (invalid_uuid (codes "secret_id") value)
    reject (not (c.is_v4 uuid)) (invalid_uuid_version (codes "secret_id") value)
    ok uuid

  -- `OwnerUserId::parse`
  unfoldable pub parse_owner_user_id : Text → Result AadError Uuid
  parse_owner_user_id value = ok_or (c.parse_str value) (invalid_uuid (codes "owner_user_id") value)

  -- `CreatedAt::parse`
  unfoldable pub parse_created_at : Text → Result AadError OffsetDateTime
  parse_created_at value = map_err time_error (parse_utc_rfc3339 c value (codes "created_at"))

  -- `CreatedAt::as_rfc3339_utc`
  unfoldable pub as_rfc3339_utc : OffsetDateTime → Result AadError Text
  unfolding format_utc_rfc3339
  as_rfc3339_utc value = map_err time_error (format_utc_rfc3339 c value)
