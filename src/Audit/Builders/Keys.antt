-- ===== src/Audit/Builders/Keys.antt =====
-- The builders of src/audit/event/metadata/builders.rs for key rotation and signature keys: the fields of
-- each, and the object that its `build` fills in.

use mipsorcu.Audit.Builders.Fields.{insert_some}
use mipsorcu.Crates.{Crates}
use mipsorcu.Json.{Map, string, number, unsigned, end, insert}
use mipsorcu.Prelude.{ℕ, Text, codes, Option, none}

pub record KeyRotationStartMetadata : Type 0 where
  pub old_key_version : ℕ
  pub new_key_version : ℕ
  pub source_event_at : Option Text

-- `KeyRotationStartMetadata::new`
unfoldable pub new_key_rotation_start : ℕ → ℕ → KeyRotationStartMetadata
new_key_rotation_start old_key_version new_key_version = record {
  old_key_version = old_key_version;
  new_key_version = new_key_version;
  source_event_at = none;
}

-- the object of `build`
unfoldable pub key_rotation_start_object : Crates → KeyRotationStartMetadata → Map
unfolding insert
key_rotation_start_object c b =
    let m = insert (codes "old_key_version") (number (unsigned b.old_key_version)) end in
    let m = insert (codes "new_key_version") (number (unsigned b.new_key_version)) m in
    insert_some (codes "source_event_at") string b.source_event_at m

pub record KeyRotationReencryptMetadata : Type 0 where
  pub old_key_version : ℕ
  pub new_key_version : ℕ
  pub batch_size : ℕ
  pub processed_count : ℕ
  pub remaining_count : ℕ
  pub source_event_at : Option Text

-- `KeyRotationReencryptMetadata::new`
unfoldable pub new_key_rotation_reencrypt : ℕ → ℕ → ℕ → ℕ → ℕ → KeyRotationReencryptMetadata
new_key_rotation_reencrypt old_key_version new_key_version batch_size processed_count
      remaining_count =
    record {
      old_key_version = old_key_version;
      new_key_version = new_key_version;
      batch_size = batch_size;
      processed_count = processed_count;
      remaining_count = remaining_count;
      source_event_at = none;
    }

-- the object of `build`
unfoldable pub key_rotation_reencrypt_object : Crates → KeyRotationReencryptMetadata → Map
unfolding insert
key_rotation_reencrypt_object c b =
    let m = insert (codes "old_key_version") (number (unsigned b.old_key_version)) end in
    let m = insert (codes "new_key_version") (number (unsigned b.new_key_version)) m in
    let m = insert (codes "batch_size") (number (unsigned b.batch_size)) m in
    let m = insert (codes "processed_count") (number (unsigned b.processed_count)) m in
    let m = insert (codes "remaining_count") (number (unsigned b.remaining_count)) m in
    insert_some (codes "source_event_at") string b.source_event_at m

pub record KeyRotationCompleteMetadata : Type 0 where
  pub old_key_version : ℕ
  pub new_key_version : ℕ
  pub remaining_count : ℕ
  pub source_event_at : Option Text

-- `KeyRotationCompleteMetadata::new`
unfoldable pub new_key_rotation_complete : ℕ → ℕ → ℕ → KeyRotationCompleteMetadata
new_key_rotation_complete old_key_version new_key_version remaining_count = record {
  old_key_version = old_key_version;
  new_key_version = new_key_version;
  remaining_count = remaining_count;
  source_event_at = none;
}

-- the object of `build`
unfoldable pub key_rotation_complete_object : Crates → KeyRotationCompleteMetadata → Map
unfolding insert
key_rotation_complete_object c b =
    let m = insert (codes "old_key_version") (number (unsigned b.old_key_version)) end in
    let m = insert (codes "new_key_version") (number (unsigned b.new_key_version)) m in
    let m = insert (codes "remaining_count") (number (unsigned b.remaining_count)) m in
    insert_some (codes "source_event_at") string b.source_event_at m

pub record SignatureKeyCreatedMetadata : Type 0 where
  pub signature_key_version : ℕ
  pub public_key_fingerprint : Text
  pub created_at : Text
  pub source_event_at : Text

-- `SignatureKeyCreatedMetadata::new`
unfoldable pub new_signature_key_created : ℕ → Text → Text → SignatureKeyCreatedMetadata
new_signature_key_created signature_key_version public_key_fingerprint source_event_at = record {
  signature_key_version = signature_key_version;
  public_key_fingerprint = public_key_fingerprint;
  created_at = source_event_at;
  source_event_at = source_event_at;
}

-- the object of `build`
unfoldable pub signature_key_created_object : Crates → SignatureKeyCreatedMetadata → Map
unfolding insert
signature_key_created_object c b =
    let m =
      insert (codes "signature_key_version") (number (unsigned b.signature_key_version)) end in
    let m = insert (codes "public_key_fingerprint") (string b.public_key_fingerprint) m in
    let m = insert (codes "created_at") (string b.created_at) m in
    insert (codes "source_event_at") (string b.source_event_at) m

pub record SignatureKeyActivatedMetadata : Type 0 where
  pub signature_key_version : ℕ
  pub public_key_fingerprint : Text
  pub activated_at : Text
  pub source_event_at : Text

-- `SignatureKeyActivatedMetadata::new`
unfoldable pub new_signature_key_activated : ℕ → Text → Text → SignatureKeyActivatedMetadata
new_signature_key_activated signature_key_version public_key_fingerprint source_event_at = record {
  signature_key_version = signature_key_version;
  public_key_fingerprint = public_key_fingerprint;
  activated_at = source_event_at;
  source_event_at = source_event_at;
}

-- the object of `build`
unfoldable pub signature_key_activated_object : Crates → SignatureKeyActivatedMetadata → Map
unfolding insert
signature_key_activated_object c b =
    let m =
      insert (codes "signature_key_version") (number (unsigned b.signature_key_version)) end in
    let m = insert (codes "public_key_fingerprint") (string b.public_key_fingerprint) m in
    let m = insert (codes "activated_at") (string b.activated_at) m in
    insert (codes "source_event_at") (string b.source_event_at) m

pub record SignatureKeyRetiredMetadata : Type 0 where
  pub signature_key_version : ℕ
  pub public_key_fingerprint : Text
  pub retired_at : Text
  pub source_event_at : Text

-- `SignatureKeyRetiredMetadata::new`
unfoldable pub new_signature_key_retired : ℕ → Text → Text → SignatureKeyRetiredMetadata
new_signature_key_retired signature_key_version public_key_fingerprint source_event_at = record {
  signature_key_version = signature_key_version;
  public_key_fingerprint = public_key_fingerprint;
  retired_at = source_event_at;
  source_event_at = source_event_at;
}

-- the object of `build`
unfoldable pub signature_key_retired_object : Crates → SignatureKeyRetiredMetadata → Map
unfolding insert
signature_key_retired_object c b =
    let m =
      insert (codes "signature_key_version") (number (unsigned b.signature_key_version)) end in
    let m = insert (codes "public_key_fingerprint") (string b.public_key_fingerprint) m in
    let m = insert (codes "retired_at") (string b.retired_at) m in
    insert (codes "source_event_at") (string b.source_event_at) m
