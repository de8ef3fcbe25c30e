-- ===== src/Archive/Backend.antt =====
-- The types of src/archive/backend.rs and src/archive/s3/error.rs, and the answers of an HTTP status in
-- src/archive/s3/client.rs.
use mipsorcu.Prelude.{
  ℕ, Bool, true, false, ◌||◌, ◌&&◌, Text, codes, Result, ok, reject, ◌>>◌, ltb, leb, ◌==◌,
  if◌then◌else◌, len, is_empty, text_eq,
}

-- `IoError` is of the local file backend
pub data ArchiveBackendError : Type 0 where
  invalid_key serialization_failed backend_failed : Text → ArchiveBackendError
  io_error : ArchiveBackendError

-- `ArchiveObjectKey::new`: a key is its text
unfoldable pub new_object_key : Text → Result ArchiveBackendError Text
unfolding len
new_object_key key = do
  reject (is_empty key) (invalid_key (codes "archive object key must not be empty"))
  reject (ltb 256 (len key))
      (invalid_key (codes "archive object key must not exceed 256 characters"))
  ok key

pub data ArchiveVerifyOutcome : Type 0 where
  valid not_found content_mismatch : ArchiveVerifyOutcome

pub data S3BackendError : Type 0 where
  invalid_config request_build network response_read : Text → S3BackendError
  unauthenticated overwrite_rejected not_found : S3BackendError
  server_error unexpected : ℕ → S3BackendError

unfoldable pub as_error_code : S3BackendError → Text
as_error_code (invalid_config reason) = codes "archive_export_invalid_config"
as_error_code (request_build reason) = codes "archive_export_request_build_failed"
as_error_code (network reason) = codes "archive_export_network_failed"
as_error_code unauthenticated = codes "archive_export_unauthenticated"
as_error_code overwrite_rejected = codes "archive_export_overwrite_rejected"
as_error_code S3BackendError.not_found = codes "archive_export_not_found"
as_error_code (server_error status) = codes "archive_export_server_error"
as_error_code (unexpected status) = codes "archive_export_unexpected_status"
as_error_code (response_read reason) = codes "archive_export_response_read_failed"

unfoldable pub is_retriable : S3BackendError → Bool
is_retriable (network reason) = true
is_retriable (server_error status) = true
is_retriable _ = false

-- `From<S3BackendError> for ArchiveBackendError`
abbrev pub from_s3_error : S3BackendError → ArchiveBackendError
from_s3_error error = backend_failed (as_error_code error)

-- of src/archive/s3/backend.rs
unfoldable pub retriable_archive_backend_code : Text → Bool
unfolding text_eq
retriable_archive_backend_code code =
    text_eq code (codes "archive_export_network_failed")
    || text_eq code (codes "archive_export_server_error")

-- The error of a status that is no success; the source's type has an `Ok` that it never returns.
unfoldable pub classify_failure_status : ℕ → S3BackendError
classify_failure_status status =
    if status == 401 || status == 403
    then unauthenticated
    else if status == 412
    then overwrite_rejected
    else if status == 404
    then S3BackendError.not_found
    else if status == 408 || status == 429
    then server_error status
    else if leb 500 status && leb status 599
    then server_error status
    else unexpected status
