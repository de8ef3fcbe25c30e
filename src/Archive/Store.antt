-- ===== src/Archive/Store.antt =====
-- src/archive/s3/backend.rs on the answers of src/archive/s3/client.rs: objects are put, compared with
-- what stands in the bucket, and queued or sent again.
pub mod Immutable
pub mod Queueing
use mipsorcu.Archive.Backend.{
  ArchiveBackendError, backend_failed, S3BackendError, overwrite_rejected, response_read,
  classify_failure_status, from_s3_error, retriable_archive_backend_code, ArchiveVerifyOutcome,
  valid, not_found, content_mismatch,
}
use mipsorcu.Archive.Export.{ArchiveExportPackage, to_json_bytes}
use mipsorcu.Archive.Queue.{
  LocalArchiveQueue, QueuedArchiveObject, ArchiveQueueError, Serde, append_pending_bytes, mark_sent,
  pending_objects, from_queue_error,
}
use mipsorcu.Archive.Retry.{run_with_backoff}
use mipsorcu.Crates.{Crates, OffsetDateTime}
use mipsorcu.DeliveryLog.{AppendIo, resend_all, Spawn, runs, cancelled}
use mipsorcu.Prelude.{
  ℕ, Bool, true, false, ◌&&◌, Bytes, bytes_eq, Text, codes, Result, ok, err, map_err, ◌>>=◌, Option,
  none, some, leb, ◌==◌, length, if◌then◌else◌,
}

-- an HTTP response; `none` is a body that cannot be read
pub record Response : Type 0 where
  pub status : ℕ
  pub body : Option Bytes

-- The bucket's answers to the signed requests: the n-th operation on it, the i-th attempt of that
-- operation. An error is a request that could not be built or got no response.
pub record Bucket : Type 0 where
  pub put : ℕ → ℕ → Text → Bytes → Result S3BackendError Response
  pub get : ℕ → ℕ → Text → Result S3BackendError Response
  pub head : ℕ → ℕ → Text → Result S3BackendError Response

-- `StatusCode::is_success`
abbrev pub is_success : ℕ → Bool
is_success status = leb 200 status && leb status 299

-- the end of `S3HttpClient::put_object`
unfoldable pub put_outcome : Response → Result S3BackendError (Unit {0})
unfolding classify_failure_status
put_outcome r = if is_success r.status then ok tt else err (classify_failure_status r.status)

abbrev body_outcome : Option Bytes → Result S3BackendError (Option Bytes)
body_outcome none = err (response_read (codes "body"))
body_outcome (some bytes) = ok (some bytes)

-- the end of `S3HttpClient::get_object_bytes`
unfoldable pub get_outcome : Response → Result S3BackendError (Option Bytes)
unfolding classify_failure_status
get_outcome r =
    if is_success r.status
    then body_outcome r.body
    else if r.status == 404
    then ok none
    else err (classify_failure_status r.status)

-- the end of `S3HttpClient::head_object`: `true` is `HeadOutcome::Found`
unfoldable pub head_outcome : Response → Result S3BackendError Bool
unfolding classify_failure_status
head_outcome r =
    if is_success r.status
    then ok true
    else if r.status == 404
    then ok false
    else err (classify_failure_status r.status)

pub data ArchivePutOrQueueOutcome : Type 0 where
  put_succeeded queued : ArchivePutOrQueueOutcome

pub record ResendArchiveSummary : Type 0 where
  pub attempted : ℕ
  pub sent : ℕ
  pub failed : ℕ

module _ (bucket : Bucket) (max_retries base : ℕ) where
  unfoldable pub put_object_bytes_strict : ℕ → Text → Bytes → Result S3BackendError (Unit {0})
  unfolding put_outcome run_with_backoff
  put_object_bytes_strict n key body =
      (run_with_backoff max_retries base (λ i. bucket.put n i key body >>= λ r. put_outcome r)).0

  unfoldable pub get_object_bytes_with_retry : ℕ → Text → Result S3BackendError (Option Bytes)
  unfolding get_outcome run_with_backoff
  get_object_bytes_with_retry n key =
      (run_with_backoff max_retries base (λ i. bucket.get n i key >>= λ r. get_outcome r)).0

  compare_stored : Bytes → Option Bytes → Result ArchiveBackendError (Unit {0})
  unfolding bytes_eq
  compare_stored expected none = err (backend_failed (codes "archive_export_not_found"))
  compare_stored expected (some bytes) =
      if bytes_eq bytes expected
      then ok tt
      else err (backend_failed (codes "archive_export_content_mismatch"))

  unfoldable pub verify_existing_object_bytes :
      ℕ → Text → Bytes → Result ArchiveBackendError (Unit {0})
  unfolding get_object_bytes_with_retry compare_stored
  verify_existing_object_bytes n key expected =
      map_err from_s3_error (get_object_bytes_with_retry n key) >>= λ stored.
      compare_stored expected stored

  unfoldable pub put_object_bytes : ℕ → Text → Bytes → Result ArchiveBackendError (Unit {0})
  unfolding put_object_bytes_strict verify_existing_object_bytes
  put_object_bytes n key body = elim (put_object_bytes_strict n key body) [
    | ok u ↦ ok tt
    | err overwrite_rejected ↦ verify_existing_object_bytes n key body
    | err error ↦ err (from_s3_error error)
  ]

  outcome_of : Bytes → Option Bytes → ArchiveVerifyOutcome
  unfolding bytes_eq
  outcome_of expected none = not_found
  outcome_of expected (some bytes) = if bytes_eq bytes expected then valid else content_mismatch

  -- `object_exists`
  unfoldable pub object_exists : ℕ → Text → Result ArchiveBackendError Bool
  unfolding head_outcome run_with_backoff
  object_exists n key =
      map_err from_s3_error
        (run_with_backoff max_retries base (λ i. bucket.head n i key >>= λ r. head_outcome r)).0

  module _ (c : Crates) where
    unfoldable pub put_object :
        ℕ → Text → ArchiveExportPackage → Result ArchiveBackendError (Unit {0})
    unfolding put_object_bytes to_json_bytes
    put_object n key exported = to_json_bytes c exported >>= λ body. put_object_bytes n key body

    unfoldable pub verify_object :
        ℕ → Text → ArchiveExportPackage → Result ArchiveBackendError ArchiveVerifyOutcome
    unfolding get_object_bytes_with_retry outcome_of to_json_bytes
    verify_object n key exported = do
      expected ← to_json_bytes c exported
      stored ← map_err from_s3_error (get_object_bytes_with_retry n key)
      ok (outcome_of expected stored)

    module _ (serde : Serde) where
      -- an append in `spawn_blocking`, its errors as those of the backend
      abbrev pub spawn_blocking :
          Spawn
          → (AppendIo → Result ArchiveQueueError (Unit {0}) × LocalArchiveQueue)
          → LocalArchiveQueue
          → Result ArchiveBackendError (Unit {0}) × LocalArchiveQueue
      spawn_blocking cancelled append queue =
          (err (backend_failed (codes "archive_export_queue_join_failed")), queue)
      spawn_blocking (runs disk) append queue =
          let (answer, after) = append disk in (map_err from_queue_error answer, after)

      -- the arm of `put_object_or_enqueue` that queues the payload
      unfoldable pub enqueue :
          OffsetDateTime
          → Spawn
          → Text
          → ArchiveExportPackage
          → LocalArchiveQueue
          → Result ArchiveBackendError ArchivePutOrQueueOutcome × LocalArchiveQueue
      unfolding to_json_bytes append_pending_bytes
      enqueue now spawn key exported queue = elim (to_json_bytes c exported) [
        | err e ↦ (err e, queue)
        | ok payload ↦
            let (answer, after) =
              spawn_blocking spawn (λ disk. append_pending_bytes c serde now disk key payload queue)
                queue in
            (answer >>= λ u. ok queued, after)
      ]

      unfoldable pub put_object_or_enqueue :
          OffsetDateTime
          → Spawn
          → ℕ
          → Text
          → ArchiveExportPackage
          → LocalArchiveQueue
          → Result ArchiveBackendError ArchivePutOrQueueOutcome × LocalArchiveQueue
      unfolding put_object enqueue retriable_archive_backend_code
      put_object_or_enqueue now spawn n key exported queue = elim (put_object n key exported) [
        | ok u ↦ (ok put_succeeded, queue)
        | err (backend_failed code) ↦
            if retriable_archive_backend_code code
            then enqueue now spawn key exported queue
            else (err (backend_failed code), queue)
        | err error ↦ (err error, queue)
      ]

      -- one turn of the loop of `resend_queued_objects`
      unfoldable pub resend_object :
          (ℕ → OffsetDateTime)
          → (ℕ → Spawn)
          → ℕ
          → QueuedArchiveObject
          → LocalArchiveQueue
          → Bool × LocalArchiveQueue
      unfolding put_object_bytes mark_sent
      resend_object now spawn i o queue = elim (put_object_bytes i o.key o.payload) [
        | err e ↦ (false, queue)
        | ok u ↦
            let (answer, after) =
              spawn_blocking (spawn i) (λ disk. mark_sent c serde (now i) disk o queue) queue in
            (elim answer [ ok v ↦ true | err e ↦ false ], after)
      ]

      -- `resend_queued_objects`; `read` is the task that reads the queue, `none` when it is cancelled
      unfoldable pub resend_queued_objects :
          (ℕ → OffsetDateTime)
          → (ℕ → Spawn)
          → Option Bool
          → LocalArchiveQueue
          → Result ArchiveBackendError ResendArchiveSummary × LocalArchiveQueue
      unfolding resend_object resend_all pending_objects
      resend_queued_objects now spawn none queue =
          (err (backend_failed (codes "archive_export_queue_join_failed")), queue)
      resend_queued_objects now spawn (some readable) queue =
          elim (pending_objects c serde readable queue) [
            | err e ↦ (err (from_queue_error e), queue)
            | ok pending ↦
                let (counts, after) = resend_all (resend_object now spawn) 0 pending 0 0 queue in
                (
                  ok (record { attempted = length pending; sent = counts.0; failed = counts.1 }),
                  after,
                )
          ]
