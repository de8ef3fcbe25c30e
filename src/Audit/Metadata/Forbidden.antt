-- ===== src/Audit/Metadata/Forbidden.antt =====
-- The forbidden metadata keys of src/audit/event/metadata.rs, and their check at every depth.
use mipsorcu.Audit.Action.{AuditEventError, forbidden_metadata_key}
use mipsorcu.Json.{
  Value, Values, Map, null, boolean, number, string, array, object, nil, cons, end, entry,
}
use mipsorcu.Prelude.{
  Bool, Text, codes, Result, ok, err, ◌>>◌, List, [], ◌∷◌, if◌then◌else◌, trim, to_ascii_lowercase,
  contains,
}

unfoldable pub forbidden_audit_metadata_keys : List Text
forbidden_audit_metadata_keys =
    codes "alias_decryption_key"
    ∷ codes "alias_encryption_key"
    ∷ codes "alias_fingerprint_key"
    ∷ codes "authorization"
    ∷ codes "authorization_header"
    ∷ codes "bearer_token"
    ∷ codes "canonical_alias_plaintext"
    ∷ codes "ciphertext"
    ∷ codes "data_key"
    ∷ codes "decrypt_result"
    ∷ codes "decrypted"
    ∷ codes "decrypted_data"
    ∷ codes "ed25519_private_key"
    ∷ codes "encrypted_data_key"
    ∷ codes "jwt"
    ∷ codes "jwt_full"
    ∷ codes "ledger_signing_key"
    ∷ codes "master_key"
    ∷ codes "passphrase"
    ∷ codes "password"
    ∷ codes "plain_text"
    ∷ codes "plaintext"
    ∷ codes "raw_jwt"
    ∷ codes "request_body"
    ∷ codes "request_body_full"
    ∷ codes "response_body"
    ∷ codes "response_body_full"
    ∷ codes "secret_body"
    ∷ codes "secret_key"
    ∷ codes "secret_value"
    ∷ codes "service_role"
    ∷ codes "service_role_key"
    ∷ codes "token"
    ∷ []

unfoldable pub is_forbidden_metadata_key : Text → Bool
unfolding contains to_ascii_lowercase trim forbidden_audit_metadata_keys
is_forbidden_metadata_key key =
    contains forbidden_audit_metadata_keys (to_ascii_lowercase (trim key))

unfoldable mutual
  pub reject_forbidden_metadata_keys : Value → Result AuditEventError (Unit {0})
  reject_forbidden_metadata_keys null = ok tt
  reject_forbidden_metadata_keys (boolean b) = ok tt
  reject_forbidden_metadata_keys (number n) = ok tt
  reject_forbidden_metadata_keys (string s) = ok tt
  reject_forbidden_metadata_keys (array values) = reject_forbidden_metadata_keys_in_array values
  reject_forbidden_metadata_keys (object m) = reject_forbidden_metadata_keys_in_object m

  pub reject_forbidden_metadata_keys_in_array : Values → Result AuditEventError (Unit {0})
  reject_forbidden_metadata_keys_in_array nil = ok tt
  reject_forbidden_metadata_keys_in_array (cons value values) =
      reject_forbidden_metadata_keys value >> reject_forbidden_metadata_keys_in_array values

  pub reject_forbidden_metadata_keys_in_object : Map → Result AuditEventError (Unit {0})
  reject_forbidden_metadata_keys_in_object end = ok tt
  reject_forbidden_metadata_keys_in_object (entry key value m) =
      if is_forbidden_metadata_key key
      then err (forbidden_metadata_key key)
      else reject_forbidden_metadata_keys value >> reject_forbidden_metadata_keys_in_object m
