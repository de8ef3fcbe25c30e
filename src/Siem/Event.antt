-- ===== src/Siem/Event.antt =====
-- `SiemEvent` of src/siem/event.rs.
use mipsorcu.Crates.{Crates}
use mipsorcu.Json.{Value, string, object, end, entry}
use mipsorcu.Ledger.Entry.{SignedLedgerEntry, result_as_str, integer, optional}
use mipsorcu.Ledger.EntryType.{entry_type_as_str}
use mipsorcu.Prelude.{ℕ, Text, codes, Option, some}
use mathlib.Core.Option

abbrev pub siem_event_schema_version : ℕ
siem_event_schema_version = 1

pub record SiemEvent : Type 0 where
  pub schema_version : ℕ
  pub event_id : Text
  pub event_type : Text
  pub result : Text
  pub request_id : Text
  pub actor_user_id : Option Text
  pub actor_device_id : Option Text
  pub target_secret_id : Option Text
  pub key_version : Option ℕ
  pub source_event_at : Text
  pub metadata : Value

module _ (c : Crates) where
  unfoldable ledger_metadata : SignedLedgerEntry → Value
  ledger_metadata e = object (
      entry (codes "entry_hash") (string (c.hex_encode e.entry_hash)) (
        entry (codes "event_family") (string (codes "ledger")) (
          entry (codes "ledger_entry_id") (string (c.hyphenated e.ledger_entry_id)) (
            entry (codes "payload") (object e.payload.object) (
              entry (codes "previous_entry_hash") (string (c.hex_encode e.previous_entry_hash)) (
                entry (codes "sequence_no") (integer e.sequence_no) (
                  entry (codes "signature_algorithm") (string (codes "ed25519")) (
                    entry (codes "signature_key_version") (integer e.signature_key_version) (
                      entry (codes "source_event_id") (optional c.hyphenated e.source_event_id) (
                        entry (codes "target_secret_version_id")
                          (optional c.hyphenated e.target_secret_version_id) end))))))))))

  -- `SiemEvent::from_signed_ledger_entry`
  unfoldable pub from_signed_ledger_entry : SignedLedgerEntry → SiemEvent
  unfolding ledger_metadata
  from_signed_ledger_entry e = record {
    schema_version = siem_event_schema_version;
    event_id = c.hyphenated e.ledger_entry_id;
    event_type = entry_type_as_str e.entry_type;
    result = result_as_str e.result;
    request_id = c.hyphenated e.request_id;
    actor_user_id = Option.map c.hyphenated e.actor_user_id;
    actor_device_id = e.actor_device_id;
    target_secret_id = Option.map c.hyphenated e.target_secret_id;
    key_version = some e.signature_key_version;
    source_event_at = e.source_event_at;
    metadata = ledger_metadata e;
  }
