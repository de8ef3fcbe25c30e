-- ===== src/Audit/Builders/Known/Keys.antt =====
-- The keys that the builders for key rotation and signature keys fill in.
use mipsorcu.Audit.Action.{
  key_rotation_start, key_rotation_reencrypt, key_rotation_complete, signature_key_created,
  signature_key_activated, signature_key_retired, AuditResult,
}
use mipsorcu.Audit.Builders.Keys.{
  KeyRotationStartMetadata, KeyRotationReencryptMetadata, KeyRotationCompleteMetadata,
  SignatureKeyCreatedMetadata, SignatureKeyActivatedMetadata, SignatureKeyRetiredMetadata,
  key_rotation_start_object, key_rotation_reencrypt_object, key_rotation_complete_object,
  signature_key_created_object, signature_key_activated_object, signature_key_retired_object,
}
use mipsorcu.Audit.Builders.Known.Insert.{IsKnown, insertions}
use mipsorcu.Audit.Metadata.Keys.{allowed_keys}
use mipsorcu.Crates.{Crates}
use mipsorcu.Prelude.{contains, text_eq}

module _ (c : Crates) where
  pub key_rotation_start_object-IsKnown :
      (b : KeyRotationStartMetadata) (result : AuditResult)
      → IsKnown (allowed_keys key_rotation_start result) (key_rotation_start_object c b)
  unfolding key_rotation_start_object allowed_keys contains text_eq
  key_rotation_start_object-IsKnown b result = search insertions depth 13

  pub key_rotation_reencrypt_object-IsKnown :
      (b : KeyRotationReencryptMetadata) (result : AuditResult)
      → IsKnown (allowed_keys key_rotation_reencrypt result) (key_rotation_reencrypt_object c b)
  unfolding key_rotation_reencrypt_object allowed_keys contains text_eq
  key_rotation_reencrypt_object-IsKnown b result = search insertions depth 13

  pub key_rotation_complete_object-IsKnown :
      (b : KeyRotationCompleteMetadata) (result : AuditResult)
      → IsKnown (allowed_keys key_rotation_complete result) (key_rotation_complete_object c b)
  unfolding key_rotation_complete_object allowed_keys contains text_eq
  key_rotation_complete_object-IsKnown b result = search insertions depth 13

  pub signature_key_created_object-IsKnown :
      (b : SignatureKeyCreatedMetadata) (result : AuditResult)
      → IsKnown (allowed_keys signature_key_created result) (signature_key_created_object c b)
  unfolding signature_key_created_object allowed_keys contains text_eq
  signature_key_created_object-IsKnown b result = search insertions depth 13

  pub signature_key_activated_object-IsKnown :
      (b : SignatureKeyActivatedMetadata) (result : AuditResult)
      → IsKnown (allowed_keys signature_key_activated result) (signature_key_activated_object c b)
  unfolding signature_key_activated_object allowed_keys contains text_eq
  signature_key_activated_object-IsKnown b result = search insertions depth 13

  pub signature_key_retired_object-IsKnown :
      (b : SignatureKeyRetiredMetadata) (result : AuditResult)
      → IsKnown (allowed_keys signature_key_retired result) (signature_key_retired_object c b)
  unfolding signature_key_retired_object allowed_keys contains text_eq
  signature_key_retired_object-IsKnown b result = search insertions depth 13
