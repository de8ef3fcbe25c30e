-- ===== src/Archive/Export.antt =====
-- `ArchiveExportPackage` of src/archive/export.rs: the document that is put in the store.
use mipsorcu.Archive.Backend.{ArchiveBackendError, serialization_failed}
use mipsorcu.Crates.{Crates}
use mipsorcu.Json.{Value, string, object, end, entry}
use mipsorcu.Ledger.Entry.{integer}
use mipsorcu.Prelude.{ℕ, Bytes, Text, codes, Result, map_err}

abbrev archive_schema_version : ℕ
archive_schema_version = 1

pub record ArchiveExportPackage : Type 0 where
  pub digest_hash_hex : Text
  pub sbc_signature_hex : Text
  pub signature_key_version : ℕ
  pub digest_canonical : Value

-- `to_json_bytes`, with the fields of `ArchiveDocument` in their order
unfoldable pub to_json_bytes : Crates → ArchiveExportPackage → Result ArchiveBackendError Bytes
to_json_bytes c p = map_err serialization_failed (
    c.to_vec (
      object (
        entry (codes "archive_schema_version") (integer archive_schema_version) (
          entry (codes "digest") p.digest_canonical (
            entry (codes "digest_hash") (string p.digest_hash_hex) (
              entry (codes "sbc_signature") (string p.sbc_signature_hex)
                (entry (codes "signature_key_version") (integer p.signature_key_version) end)))))))
