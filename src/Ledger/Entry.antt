-- ===== src/Ledger/Entry.antt =====
-- src/ledger/canonical.rs and src/ledger/entry.rs: drafts, their canonical JSON, signing, and
-- entries read back from storage. `LedgerEntryDraftParts` and `LedgerEntryDraft` have the same
-- fields, and so have `SignedLedgerEntryParts` and `SignedLedgerEntry` but for the canonical bytes.
use mipsorcu.Crates.{Crates, Uuid}
use mipsorcu.Json.{Value, null, number, unsigned, string, object, end, entry}
use mipsorcu.Ledger.EntryType.{allowed_payload_keys, entry_type_as_str}
use mipsorcu.Ledger.Payload.{LedgerPayload, canonical_payload_object}
use mipsorcu.Ledger.Types.{
  LedgerEntryType, LedgerResult, success, failure, LedgerError, LedgerSigningKey,
  LedgerVerifyingKey, unknown_payload_key, invalid_error_code, invalid_actor_device_id,
  serialization_failed, sign_payload, verify_payload,
}
use mipsorcu.Prelude.{
  ℕ, Bool, true, false, not, ◌||◌, Bytes, Text, codes, Option, none, some, Result, ok, reject,
  map_err, ◌>>=◌, ◌>>◌, ltb, is_blank, len, text_eq,
}

-- `LedgerAppendDraft` of src/server/ledger_appender.rs: an entry without its place in the chain.
pub record LedgerAppendDraft : Type 0 where
  pub ledger_entry_id : Uuid
  pub entry_type : LedgerEntryType
  pub source_event_at : Text
  pub request_id : Uuid
  pub source_event_id : Option Uuid
  pub target_secret_id : Option Uuid
  pub target_secret_version_id : Option Uuid
  pub actor_user_id : Option Uuid
  pub actor_device_id : Option Text
  pub result : LedgerResult
  pub error_code : Option Text
  pub payload : LedgerPayload

pub record LedgerEntryDraft : Type 0 where
  pub parts : LedgerAppendDraft
  pub open parts use *
  pub sequence_no : ℕ
  pub previous_entry_hash : Bytes
  pub signature_key_version : ℕ

pub record SignedLedgerEntry : Type 0 where
  pub draft : LedgerEntryDraft
  pub open draft use *
  pub canonical_payload : Bytes
  pub entry_hash : Bytes
  pub signature : Bytes

-- `entry_type == entry_type`, by the names
unfoldable pub same_entry_type : LedgerEntryType → LedgerEntryType → Bool
unfolding entry_type_as_str text_eq
same_entry_type a b = text_eq (entry_type_as_str a) (entry_type_as_str b)

abbrev pub result_as_str : LedgerResult → Text
result_as_str success = codes "success"
result_as_str failure = codes "failure"

error_code_ok : LedgerResult → Option Text → Bool
unfolding is_blank len
error_code_ok r none = true
error_code_ok success (some value) = false
error_code_ok failure (some value) = not (is_blank value || ltb 128 (len value))

unfoldable pub validate_error_code :
    LedgerResult → Option Text → Text → Result LedgerError (Unit {0})
unfolding error_code_ok
validate_error_code r error_code field =
    reject (not (error_code_ok r error_code)) (invalid_error_code field)

too_long : Option Text → Bool
unfolding len
too_long none = false
too_long (some device_id) = ltb 128 (len device_id)

unfoldable pub validate_actor_device_id : Option Text → Result LedgerError (Unit {0})
unfolding too_long
validate_actor_device_id device_id = reject (too_long device_id) invalid_actor_device_id

-- the checks of `LedgerEntryDraft::new` and of `SignedLedgerEntry::from_stored_parts`
unfoldable pub validate_parts : LedgerAppendDraft → Result LedgerError (Unit {0})
unfolding same_entry_type validate_error_code validate_actor_device_id
validate_parts p = do
  reject (not (same_entry_type p.payload.entry_type p.entry_type))
      (unknown_payload_key (codes "payload.entry_type") p.entry_type)
  validate_error_code p.result p.error_code (codes "error_code")
  validate_actor_device_id p.actor_device_id

-- `LedgerEntryDraft::new`
unfoldable pub new_draft : LedgerEntryDraft → Result LedgerError LedgerEntryDraft
new_draft p = do validate_parts p.parts; ok p

abbrev pub integer : ℕ → Value
integer n = number (unsigned n)

abbrev pub optional {ℓ} : {A : Type ℓ} → (A → Text) → Option A → Value
optional f none = null
optional f (some a) = string (f a)

module _ (c : Crates) where
  -- `CanonicalLedgerDocument`, its fields in the order of the struct
  unfoldable pub canonical_document : LedgerEntryDraft → Value
  unfolding canonical_payload_object
  canonical_document d = object (
      entry (codes "schema") (string (codes "mipsorcu.ledger_entry.v1")) (
        entry (codes "sequence_no") (integer d.sequence_no) (
          entry (codes "entry_type") (string (entry_type_as_str d.entry_type)) (
            entry (codes "source_event_at") (string d.source_event_at) (
              entry (codes "request_id") (string (c.hyphenated d.request_id)) (
                entry (codes "source_event_id") (optional c.hyphenated d.source_event_id) (
                  entry (codes "target_secret_id") (optional c.hyphenated d.target_secret_id) (
                    entry (codes "target_secret_version_id")
                      (optional c.hyphenated d.target_secret_version_id)
                      (entry (codes "actor_user_id") (optional c.hyphenated d.actor_user_id) (
                        entry (codes "actor_device_id") (optional (λ t. t) d.actor_device_id) (
                          entry (codes "result") (string (result_as_str d.result)) (
                            entry (codes "error_code") (optional (λ t. t) d.error_code) (
                              entry (codes "payload")
                                (object (
                                  canonical_payload_object
                                    (allowed_payload_keys d.payload.entry_type) d.payload.object))
                                (entry (codes "canonicalization_version") (integer 1) (
                                  entry (codes "previous_entry_hash")
                                    (string (c.hex_encode d.previous_entry_hash))
                                    (entry (codes "hash_algorithm") (string (codes "sha-256")) (
                                      entry (codes "signature_algorithm") (string (codes "ed25519"))
                                        (entry (codes "signature_key_version")
                                          (integer d.signature_key_version) end))))))))))))))))))

  unfoldable pub build_canonical_payload : LedgerEntryDraft → Result LedgerError Bytes
  build_canonical_payload d = map_err serialization_failed (c.to_vec (canonical_document d))

  -- `LedgerEntryDraft::sign`
  unfoldable pub sign : LedgerEntryDraft → LedgerSigningKey → Result LedgerError SignedLedgerEntry
  sign d signing_key = do
    canonical_payload ← build_canonical_payload d
    signature ← sign_payload c signing_key d.signature_key_version canonical_payload
    ok (record {
      draft = d;
      canonical_payload = canonical_payload;
      entry_hash = c.sha256 canonical_payload;
      signature = signature;
    })

  -- `SignedLedgerEntry::from_stored_parts`
  unfoldable pub from_stored_parts :
      LedgerEntryDraft → Bytes → Bytes → Result LedgerError SignedLedgerEntry
  from_stored_parts d entry_hash signature = do
    validate_parts d.parts
    canonical_payload ← build_canonical_payload d
    ok (record {
      draft = d;
      canonical_payload = canonical_payload;
      entry_hash = entry_hash;
      signature = signature;
    })

  abbrev pub recompute_entry_hash : SignedLedgerEntry → Bytes
  recompute_entry_hash e = c.sha256 e.canonical_payload

  abbrev pub verify_signature :
      SignedLedgerEntry → LedgerVerifyingKey → Result LedgerError (Unit {0})
  verify_signature e key =
      verify_payload c key e.signature_key_version e.canonical_payload e.signature
