-- ===== src/Ledger/Payload/Forbidden.antt =====
-- The forbidden keys of src/ledger/constants.rs and their check in src/ledger/payload.rs.

use mipsorcu.Json.{
  Value, Values, Map, null, boolean, number, string, array, object, nil, cons, end, entry,
}
use mipsorcu.Ledger.Types.{LedgerError, forbidden_payload_key}
use mipsorcu.Prelude.{
  Bool, Text, codes, Result, ok, err, ◌>>=◌, List, [], ◌∷◌, if◌then◌else◌, trim, to_ascii_lowercase,
  contains,
}

unfoldable pub forbidden_ledger_payload_keys : List Text
forbidden_ledger_payload_keys =
    codes "alias_decryption_key"
    ∷ codes "alias_encryption_key"
    ∷ codes "alias_fingerprint_key"
    ∷ codes "authorization"
    ∷ codes "authorization_header"
    ∷ codes "bearer_token"
    ∷ codes "canonical_alias_plaintext"
    ∷ codes "ciphertext"
    ∷ codes "data_key"
    ∷ codes "decrypt_result"
    ∷ codes "decrypted"
    ∷ codes "decrypted_data"
    ∷ codes "ed25519_private_key"
    ∷ codes "encrypted_data_key"
    ∷ codes "jwt"
    ∷ codes "jwt_full"
    ∷ codes "ledger_signing_key"
    ∷ codes "master_key"
    ∷ codes "passphrase"
    ∷ codes "password"
    ∷ codes "plain_text"
    ∷ codes "plaintext"
    ∷ codes "raw_jwt"
    ∷ codes "request_body"
    ∷ codes "request_body_full"
    ∷ codes "response_body"
    ∷ codes "response_body_full"
    ∷ codes "secret_body"
    ∷ codes "secret_key"
    ∷ codes "secret_value"
    ∷ codes "service_role"
    ∷ codes "service_role_key"
    ∷ codes "token"
    ∷ []

unfoldable pub is_forbidden_payload_key : Text → Bool
unfolding contains to_ascii_lowercase trim forbidden_ledger_payload_keys
is_forbidden_payload_key key =
    contains forbidden_ledger_payload_keys (to_ascii_lowercase (trim key))

unfoldable mutual
  pub reject_forbidden_payload_keys : Value → Result LedgerError (Unit {0})
  reject_forbidden_payload_keys null = ok tt
  reject_forbidden_payload_keys (boolean b) = ok tt
  reject_forbidden_payload_keys (number n) = ok tt
  reject_forbidden_payload_keys (string s) = ok tt
  reject_forbidden_payload_keys (array values) = reject_forbidden_values values
  reject_forbidden_payload_keys (object m) = reject_forbidden_map m

  pub reject_forbidden_values : Values → Result LedgerError (Unit {0})
  reject_forbidden_values nil = ok tt
  reject_forbidden_values (cons nested values) =
      reject_forbidden_payload_keys nested >>= λ _. reject_forbidden_values values

  pub reject_forbidden_map : Map → Result LedgerError (Unit {0})
  reject_forbidden_map end = ok tt
  reject_forbidden_map (entry key nested m) =
      if is_forbidden_payload_key key
      then err (forbidden_payload_key key)
      else reject_forbidden_payload_keys nested >>= λ _. reject_forbidden_map m
