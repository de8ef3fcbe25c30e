-- ===== src/Tests/Archive.antt =====
-- Runs of the archive's retries, store and queue, with a concrete bucket and a concrete JSON text.
use mipsorcu.Archive.Backend.{
  S3BackendError, ArchiveBackendError, network, backend_failed, overwrite_rejected, is_retriable,
  new_object_key, retriable_archive_backend_code, from_s3_error,
}
use mipsorcu.Archive.Export.{ArchiveExportPackage, to_json_bytes}
use mipsorcu.Archive.Queue.{
  Serde, DeliveryStatus, pending, sent, QueueRecord, LocalArchiveQueue, QueuedArchiveObject,
  append_pending_bytes, queue_id_of,
}
use mipsorcu.Archive.Queue.Refinement.{SerdeLaws, Represents, new_queue-Represents, queued_object}
use mipsorcu.Archive.Retry.{run_with_backoff, backoff_delay}
use mipsorcu.Archive.Retry.Attempts.{Attempts, run_with_backoff-Attempts}
use mipsorcu.Archive.Retry.Delay.{backoff_delay_lem}
use mipsorcu.Archive.Store.{
  Bucket, Response, put_object_bytes, put_object_or_enqueue, queued, resend_queued_objects,
  ResendArchiveSummary,
}
use mipsorcu.Archive.Store.Immutable.{IsImmutable, put_object_bytes-held}
use mipsorcu.Archive.Store.Queueing.{put_object_or_enqueue-queues}
use mipsorcu.DeliveryLog.{BTreeMap, insert, writes, runs}
use mipsorcu.Json.{Value, null, string, array, cons, nil}
use mipsorcu.Prelude.{
  ℕ, ◌*◌, ◌^◌, min, ◌≡◌, refl, true, false, ◌&&◌, Bytes, Text, codes, Option, none, some, Result,
  ok, err, [], ◌∷◌, ◌==◌, if◌then◌else◌, text_eq, bytes_eq, bytes_eq_iff, arith,
}
use mipsorcu.Tests.Toy.{toy, toy-HexLaws}
use mipsorcu.Tests.Wire.{line_of, value_of, value_of-line_of, line_of-IsLine}

-- the first call fails on the way, the second succeeds
abbrev flaky : ℕ → Result S3BackendError ℕ
flaky i = if i == 0 then err (network []) else ok 7

run_with_backoff-Attempts_example :
    Attempts 3 100 flaky 0 (run_with_backoff 3 100 flaky).0 (run_with_backoff 3 100 flaky).1
run_with_backoff-Attempts_example = run_with_backoff-Attempts 3 100 flaky

run_of_flaky : run_with_backoff 3 100 flaky ≡ (ok 7, 100 ∷ [])
unfolding run_with_backoff
run_of_flaky = refl

backoff_delay_lem_example : backoff_delay 200 70 ≡ min (200 * 2 ^ 70) 18446744073709551615
backoff_delay_lem_example = backoff_delay_lem 200 70

abbrev key : Text
key = codes "k"

abbrev stored : Bytes
stored = 1 ∷ 2 ∷ []

abbrev response : ℕ → Option Bytes → Result S3BackendError Response
response status body = ok (record { status = status; body = body })

-- one object stands in the bucket, put by the second attempt of an operation
abbrev one_object : Bucket
one_object = record {
  put = λ n i k body.
      if i == 0
      then err (network [])
      else response (if text_eq k key && bytes_eq body stored then 200 else 412) none;
  get = λ n i k. if text_eq k key then response 200 (some stored) else response 404 none;
  head = λ n i k. response 200 none;
}

abbrev held : Text → Option Bytes
held k = if text_eq k key then some stored else none

one_object-IsImmutable : IsImmutable one_object held
one_object-IsImmutable = record {
  created = λ n i k body r p q. ground (arith, p, q, bytes_eq_iff body stored);
  read = λ n i k r bytes p q b. ground (arith, p, q, b);
}

put_object_bytes-held_example : held key ≡ some stored
unfolding put_object_bytes text_eq
put_object_bytes-held_example =
    put_object_bytes-held one_object held one_object-IsImmutable 2 100 0 key stored refl

abbrev status_value : DeliveryStatus → Value
status_value pending = null
status_value sent = string []

abbrev record_value : QueueRecord → Value
record_value r = array (
    cons (string r.queue_id) (
      cons (status_value r.delivery_status) (
        cons (string r.key) (
          cons (string r.payload_sha256_hex)
            (cons (string r.payload_hex) (cons (string r.queued_at) nil))))))

status_of : Value → DeliveryStatus
status_of null = pending
status_of _ = sent

status_of-value : (s : DeliveryStatus) → status_of (status_value s) ≡ s
unfolding status_of
status_of-value pending = refl
status_of-value sent = refl

record_of : Value → Result Text QueueRecord
unfolding status_of
record_of
      (array (
        cons (string id) (
          cons status (
            cons
              (string k)
              (cons (string hash) (cons (string payload) (cons (string at) nil))))))) =
    ok (record {
      queue_id = id;
      delivery_status = status_of status;
      key = k;
      payload_sha256_hex = hash;
      payload_hex = payload;
      queued_at = at;
    })
record_of _ = err []

record_of-value : (r : QueueRecord) → record_of (record_value r) ≡ ok r
unfolding record_of
record_of-value r = rw (status_of-value r.delivery_status) refl

toy_serde : Serde
toy_serde = record {
  record_to_line = λ r. ok (line_of (record_value r));
  record_from_line = λ line. record_of (value_of line);
}

toy_serde_laws : SerdeLaws toy_serde
unfolding toy_serde
toy_serde_laws = record {
  record_line = λ r. line_of (record_value r);
  to_writer = λ r. refl;
  from_str = λ r. rw (value_of-line_of (record_value r)) (record_of-value r);
  record_line-IsLine = λ r. line_of-IsLine (record_value r);
}

abbrev down : Bucket
down = record {
  put = λ n i k body. err (network []);
  get = λ n i k. err (network []);
  head = λ n i k. err (network []);
}

abbrev exported : ArchiveExportPackage
exported = record {
  digest_hash_hex = codes "h";
  sbc_signature_hex = codes "s";
  signature_key_version = 1;
  digest_canonical = null;
}

abbrev new_queue : LocalArchiveQueue
new_queue = record { file = none; poisoned = false }

unfoldable body : Bytes
unfolding to_json_bytes
body = elim (to_json_bytes toy exported) [ ok bytes ↦ bytes | err e ↦ [] ]

exported-body : to_json_bytes toy exported ≡ ok body
unfolding to_json_bytes body toy
exported-body = refl

down-put : put_object_bytes down 1 100 0 key body ≡ err (from_s3_error (network []))
unfolding put_object_bytes
down-put = refl

put_object_or_enqueue-queues_example :
    ((put_object_or_enqueue down 1 100 toy toy_serde 5 (runs writes) 0 key exported new_queue).0
      ≡ ok queued)
    × Represents toy toy_serde
        (put_object_or_enqueue down 1 100 toy toy_serde 5 (runs writes) 0 key exported new_queue).1
        ((queue_id_of toy key body, queued_object toy key body) ∷ [])
unfolding insert toy new_object_key retriable_archive_backend_code
    mipsorcu.Archive.Backend.as_error_code
put_object_or_enqueue-queues_example =
    put_object_or_enqueue-queues toy toy_serde toy_serde_laws down 1 100 toy-HexLaws 5
      (0x10005 ∷ b'Z' ∷ []) 0 key exported body (codes "archive_export_network_failed") new_queue []
      refl refl exported-body down-put refl (new_queue-Represents toy toy_serde)

-- the queue with one object
abbrev holding : LocalArchiveQueue
holding = (append_pending_bytes toy toy_serde 5 writes key stored new_queue).1

abbrev objects : BTreeMap QueuedArchiveObject
objects = (queue_id_of toy key stored, queued_object toy key stored) ∷ []

abbrev answer : Result ArchiveBackendError ResendArchiveSummary
answer =
    (resend_queued_objects one_object 1 100 toy toy_serde (λ i. 5) (λ i. runs writes) (some true)
      holding).0
