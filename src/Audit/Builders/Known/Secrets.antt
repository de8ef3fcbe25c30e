-- ===== src/Audit/Builders/Known/Secrets.antt =====
-- The keys that the builders for secrets and failed authentications fill in.
use mipsorcu.Audit.Action.{
  encrypt_create, encrypt_rotate, version_purge, decrypt, auth_failure, AuditResult, success,
  failure,
}
use mipsorcu.Audit.Builders.Secrets.{
  EncryptCreateMetadata, EncryptRotateMetadata, VersionPurgeMetadata, DecryptMetadata,
  AuthFailureMetadata, encrypt_create_object, encrypt_rotate_object, version_purge_object,
  decrypt_object, auth_failure_object,
}
use mipsorcu.Audit.Builders.Known.Insert.{IsKnown, insertions}
use mipsorcu.Audit.Metadata.Keys.{allowed_keys}
use mipsorcu.Crates.{Crates}
use mipsorcu.Prelude.{◌≡◌, none, contains, text_eq}

module _ (c : Crates) where
  pub encrypt_create_object-IsKnown :
      (b : EncryptCreateMetadata) (result : AuditResult)
      → IsKnown (allowed_keys encrypt_create result) (encrypt_create_object c b)
  unfolding encrypt_create_object allowed_keys contains text_eq
  encrypt_create_object-IsKnown b result = search insertions

  pub encrypt_rotate_object-IsKnown :
      (b : EncryptRotateMetadata) (result : AuditResult)
      → IsKnown (allowed_keys encrypt_rotate result) (encrypt_rotate_object c b)
  unfolding encrypt_rotate_object allowed_keys contains text_eq
  encrypt_rotate_object-IsKnown b result = search insertions

  pub version_purge_object-IsKnown :
      (b : VersionPurgeMetadata) (result : AuditResult)
      → IsKnown (allowed_keys version_purge result) (version_purge_object c b)
  unfolding version_purge_object allowed_keys contains text_eq
  version_purge_object-IsKnown b result = search insertions

  pub decrypt_object-IsKnown :
      (b : DecryptMetadata) → IsKnown (allowed_keys decrypt failure) (decrypt_object c b)
  unfolding decrypt_object allowed_keys contains text_eq
  decrypt_object-IsKnown b = search insertions

  pub decrypt_object-IsKnown_success :
      (b : DecryptMetadata)
      → b.attempted_secret_id ≡ none
      → IsKnown (allowed_keys decrypt success) (decrypt_object c b)
  unfolding decrypt_object allowed_keys contains text_eq mipsorcu.Audit.Builders.Fields.insert_some
  decrypt_object-IsKnown_success b h = rw h (search insertions)

  pub auth_failure_object-IsKnown :
      (b : AuthFailureMetadata) (result : AuditResult)
      → IsKnown (allowed_keys auth_failure result) (auth_failure_object c b)
  unfolding auth_failure_object allowed_keys contains text_eq
  auth_failure_object-IsKnown b result = search insertions
