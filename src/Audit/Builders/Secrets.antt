-- ===== src/Audit/Builders/Secrets.antt =====
-- The builders of src/audit/event/metadata/builders.rs for secrets and failed authentications: the fields of
-- each, and the object that its `build` fills in.

use mipsorcu.Audit.Builders.Fields.{insert_some}
use mipsorcu.Crates.{Crates, Uuid}
use mipsorcu.Json.{Map, string, number, unsigned, end, insert}
use mipsorcu.Prelude.{ℕ, Text, codes, Option, none}

pub record EncryptCreateMetadata : Type 0 where
  pub version : ℕ
  pub secret_version_id : Uuid
  pub source_event_at : Option Text

-- `EncryptCreateMetadata::new`
unfoldable pub new_encrypt_create : ℕ → Uuid → EncryptCreateMetadata
new_encrypt_create version secret_version_id = record {
  version = version;
  secret_version_id = secret_version_id;
  source_event_at = none;
}

-- the object of `build`
unfoldable pub encrypt_create_object : Crates → EncryptCreateMetadata → Map
unfolding insert
encrypt_create_object c b =
    let m = insert (codes "version") (number (unsigned b.version)) end in
    let m = insert (codes "secret_version_id") (string (c.hyphenated b.secret_version_id)) m in
    insert_some (codes "source_event_at") string b.source_event_at m

pub record EncryptRotateMetadata : Type 0 where
  pub version : ℕ
  pub secret_version_id : Uuid
  pub source_event_at : Option Text

-- `EncryptRotateMetadata::new`
unfoldable pub new_encrypt_rotate : ℕ → Uuid → EncryptRotateMetadata
new_encrypt_rotate version secret_version_id = record {
  version = version;
  secret_version_id = secret_version_id;
  source_event_at = none;
}

-- the object of `build`
unfoldable pub encrypt_rotate_object : Crates → EncryptRotateMetadata → Map
unfolding insert
encrypt_rotate_object c b =
    let m = insert (codes "version") (number (unsigned b.version)) end in
    let m = insert (codes "secret_version_id") (string (c.hyphenated b.secret_version_id)) m in
    insert_some (codes "source_event_at") string b.source_event_at m

pub record VersionPurgeMetadata : Type 0 where
  pub version : ℕ
  pub secret_version_id : Uuid
  pub source_event_at : Option Text

-- `VersionPurgeMetadata::new`
unfoldable pub new_version_purge : ℕ → Uuid → VersionPurgeMetadata
new_version_purge version secret_version_id = record {
  version = version;
  secret_version_id = secret_version_id;
  source_event_at = none;
}

-- the object of `build`
unfoldable pub version_purge_object : Crates → VersionPurgeMetadata → Map
unfolding insert
version_purge_object c b =
    let m = insert (codes "version") (number (unsigned b.version)) end in
    let m = insert (codes "secret_version_id") (string (c.hyphenated b.secret_version_id)) m in
    insert_some (codes "source_event_at") string b.source_event_at m

pub record DecryptMetadata : Type 0 where
  pub attempted_secret_id : Option Uuid
  pub source_event_at : Option Text

-- `DecryptMetadata::success`
unfoldable pub decrypt_success : DecryptMetadata
decrypt_success = record { attempted_secret_id = none; source_event_at = none }

-- `DecryptMetadata::failure`
unfoldable pub decrypt_failure : DecryptMetadata
decrypt_failure = record { attempted_secret_id = none; source_event_at = none }

-- the object of `build`
unfoldable pub decrypt_object : Crates → DecryptMetadata → Map
unfolding insert
decrypt_object c b =
    let m =
      insert_some (codes "attempted_secret_id") (λ x. string (c.hyphenated x)) b.attempted_secret_id
        end in
    insert_some (codes "source_event_at") string b.source_event_at m

pub record AuthFailureMetadata : Type 0 where
  pub error_code : Text
  pub source_event_at : Option Text

-- `AuthFailureMetadata::new`
unfoldable pub new_auth_failure : Text → AuthFailureMetadata
new_auth_failure error_code = record { error_code = error_code; source_event_at = none }

-- the object of `build`
unfoldable pub auth_failure_object : Crates → AuthFailureMetadata → Map
unfolding insert
auth_failure_object c b =
    let m = insert (codes "error_code") (string b.error_code) end in
    insert_some (codes "source_event_at") string b.source_event_at m
