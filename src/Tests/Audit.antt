-- ===== src/Tests/Audit.antt =====
-- Audit metadata, events and builders on concrete inputs.
use mipsorcu.Audit.Action.{decrypt, failure}
use mipsorcu.Audit.Builders.{Builder, build, action_of, object_of}
use mipsorcu.Audit.Builders.Known.{build-known}
use mipsorcu.Audit.Builders.Secrets.{DecryptMetadata}
use mipsorcu.Audit.Event.{AuditEvent, AuditEventParts, new_event, validate_event_parts}
use mipsorcu.Audit.Event.Validity.{IsValid, new_event-IsValid}
use mipsorcu.Audit.Metadata.{AuditMetadata, new_metadata, reject_unknown_keys}
use mipsorcu.Audit.Metadata.Forbidden.{is_forbidden_metadata_key}
use mipsorcu.Audit.Metadata.Keys.{allowed_keys}
use mipsorcu.Audit.Metadata.Safety.{HasKey, new_metadata-IsClean}
use mipsorcu.Json.{Value, Map, object, string, entry, end, keys}
use mipsorcu.Prelude.{◌≡◌, refl, Text, codes, none, some, ok, false}
use mipsorcu.Tests.Toy.{toy}

abbrev stamp : Text
stamp = codes "@Z"

abbrev stamped : Value
stamped = object (entry (codes "source_event_at") (string stamp) end)

made : (metadata : AuditMetadata) × (new_metadata toy stamped ≡ ok metadata)
unfolding new_metadata toy mipsorcu.Audit.Metadata.from_object is_forbidden_metadata_key
    mipsorcu.Audit.Metadata.canonicalize_source_event_at
    mipsorcu.Audit.Metadata.parse_source_event_at_value
made = (_, refl)

new_metadata-IsClean_example :
    ((key : Text) → HasKey key made.0.value → is_forbidden_metadata_key key ≡ false)
    × (new_metadata toy made.0.value ≡ ok made.0)
new_metadata-IsClean_example = new_metadata-IsClean toy stamped made.0 made.1

abbrev parts : AuditEventParts
parts = record {
  audit_event_id = 1;
  request_id = 2;
  actor_user_id = some 3;
  actor_device_id = none;
  action = decrypt;
  target_secret_id = some 4;
  result = failure;
  key_version = some 1;
  metadata_json = record { value = stamped };
}

recorded : (event : AuditEvent) × (new_event toy parts ≡ ok event)
unfolding new_event toy validate_event_parts mipsorcu.Audit.Metadata.source_event_at
    mipsorcu.Audit.Metadata.parse_source_event_at_value mipsorcu.Audit.Metadata.Values.for_present
    mipsorcu.Audit.Metadata.Values.validate_identifiers
    mipsorcu.Audit.Metadata.Values.validate_texts mipsorcu.Audit.Metadata.Values.validate_choices
recorded = (_, refl)

new_event-IsValid_example : (recorded.0.parts ≡ parts) × IsValid toy parts
new_event-IsValid_example = new_event-IsValid toy parts recorded.0 recorded.1

abbrev attempted : DecryptMetadata
attempted = record { attempted_secret_id = some 5; source_event_at = some stamp }

built : (metadata : AuditMetadata) × (build toy (Builder.decrypt attempted) ≡ ok metadata)
unfolding build toy mipsorcu.Audit.Metadata.from_object object_of
    mipsorcu.Audit.Builders.Fields.insert_some is_forbidden_metadata_key
    mipsorcu.Audit.Metadata.canonicalize_source_event_at
    mipsorcu.Audit.Metadata.parse_source_event_at_value
built = (_, refl)

build-known_example :
    (m : Map) × (built.0.value ≡ object m)
    × (reject_unknown_keys (allowed_keys (action_of (Builder.decrypt attempted)) failure) (keys m)
        ≡ ok tt)
unfolding mipsorcu.Audit.Builders.Known.IsFor
build-known_example = build-known toy failure (Builder.decrypt attempted) built.0 tt built.1
