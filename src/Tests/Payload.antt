-- ===== src/Tests/Payload.antt =====
-- Payloads and names of entry types, on concrete values.
use mipsorcu.Ledger.Payload.Forbidden.{reject_forbidden_payload_keys, is_forbidden_payload_key}
use mipsorcu.Ledger.Payload.Fields.{validate_payload_field, validate_old_new_key_versions}
use mipsorcu.Ledger.Payload.Canonical.{get-canonical_payload_object}
use mipsorcu.Ledger.EntryType.Names.{parse_entry_type-entry_type_as_str}
use mipsorcu.Ledger.Payload.Safety.{new_payload-IsSafe, IsSafe}
use mipsorcu.Ledger.Types.{monthly_digest, secret_created}
use mipsorcu.Ledger.Payload.{
  validate_payload_object, validate_entries, canonical_payload_object, LedgerPayload, new_payload,
}
use mipsorcu.Ledger.EntryType.{allowed_payload_keys, entry_type_as_str, parse_entry_type}
use mipsorcu.Tests.Toy.{toy}
use mipsorcu.Json.{string, end, unsigned, number, get, object, entry, Map, Value}
use mipsorcu.Prelude.{◌≤◌, [], length, ◌∷◌, Bytes, ok, codes, contains, ◌≡◌, refl}

abbrev value : Value
value = object (entry (codes "version") (number (unsigned 1)) end)

accepted : (p : LedgerPayload) × (new_payload toy secret_created value ≡ ok p)
unfolding toy new_payload reject_forbidden_payload_keys is_forbidden_payload_key
    validate_payload_object validate_entries allowed_payload_keys validate_payload_field
    validate_old_new_key_versions canonical_payload_object
accepted = (_, refl)

new_payload-IsSafe_example :
    (value ≡ object accepted.0.object)
    × IsSafe accepted.0.entry_type accepted.0.object
    × (b : Bytes) × (toy.to_vec (
          object (
            canonical_payload_object
              (allowed_payload_keys accepted.0.entry_type)
              accepted.0.object))
        ≡ ok b)
    × (length b ≤ 8192)
new_payload-IsSafe_example = new_payload-IsSafe toy secret_created value accepted.0 accepted.1

abbrev two_fields : Map
two_fields =
    entry (codes "version") (number (unsigned 1)) (entry (codes "reason") (string (codes "x")) end)

get-canonical_payload_object_example :
    get
      (codes "version")
      (canonical_payload_object (codes "reason" ∷ codes "version" ∷ []) two_fields)
    ≡ get (codes "version") two_fields
unfolding contains
get-canonical_payload_object_example =
    get-canonical_payload_object (codes "reason" ∷ codes "version" ∷ []) two_fields
      (codes "version") refl

parse_entry_type-entry_type_as_str_example :
    parse_entry_type (entry_type_as_str monthly_digest) ≡ ok monthly_digest
parse_entry_type-entry_type_as_str_example = parse_entry_type-entry_type_as_str monthly_digest
