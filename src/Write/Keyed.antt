-- ===== src/Write/Keyed.antt =====
-- The two operations of src/write/prepare.rs that choose the master key from a key ring. `none` is
-- the panic of `MasterKeyRing::active`.
use mathlib.Core.Option
use mipsorcu.Crates.{Crates}
use mipsorcu.Draws.{Draw, lift}
use mipsorcu.Errors.{SecretWriteError, input, keyring}
use mipsorcu.Keyring.{MasterKeyRing, active, get_key}
use mipsorcu.Prelude.{ℕ, Bytes, Option, some, Result, ok, err, map_err, ◌>>=◌}
use mipsorcu.Secrets.{next_version}
use mipsorcu.Write.{
  NewSecretVersionInput, ExistingSecretVersionInput, PreparedSecretVersion,
  prepare_new_secret_version_parts, unwrap_current, rewrap,
}

module _ (c : Crates) where
  unfoldable pub prepare_new_secret_version_with_keyring :
      MasterKeyRing → NewSecretVersionInput → Option (Draw SecretWriteError PreparedSecretVersion)
  unfolding active prepare_new_secret_version_parts
  prepare_new_secret_version_with_keyring ring new =
      Option.map
        (λ (key_version, master_key). prepare_new_secret_version_parts c master_key key_version new)
        (active ring)

  -- up to the data key: the number of the new version, and the key that the current one is under
  unfoldable pub open_current :
      MasterKeyRing → ExistingSecretVersionInput → Result SecretWriteError (ℕ × Bytes)
  unfolding next_version get_key
  open_current ring existing = do
    version ← map_err input (next_version existing.current.current_version)
    master_key ← map_err keyring (get_key ring existing.current.key_version)
    data_key ← unwrap_current c master_key existing.current
    ok (version, data_key)

  unfoldable pub prepare_existing_secret_version_with_keyring :
      MasterKeyRing
      → ExistingSecretVersionInput
      → Option (Draw SecretWriteError PreparedSecretVersion)
  unfolding open_current rewrap active
  prepare_existing_secret_version_with_keyring ring existing = elim (open_current ring existing) [
    | err e ↦ some (lift (err e))
    | ok (version, data_key) ↦ Option.map (rewrap c existing version data_key) (active ring)
  ]
