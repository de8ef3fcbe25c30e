-- ===== src/Archive/Queue.antt =====
-- src/archive/s3/queue.rs: the file of the objects that could not be put. What the derived `Serialize`
-- and `Deserialize` of a record do is the record `Serde`. An object's key is held as its text.
pub mod Refinement
use mipsorcu.Archive.Backend.{ArchiveBackendError, backend_failed, new_object_key}
use mipsorcu.Crates.{Crates, OffsetDateTime}
use mipsorcu.DeliveryLog.{
  AppendIo, refuses, File, contents, append_line, AppendError, io_failed, json_failed, lines,
  replay, collect_pending,
}
use mipsorcu.Prelude.{
  Bool, true, false, Bytes, Text, codes, text_eq, Result, ok, err, map_err, reject, ok_or, ◌>>=◌,
  ◌>>◌, List, [], ◌∷◌, ◌++◌, Option, none, some, not, if◌then◌else◌,
}

pub record QueuedArchiveObject : Type 0 where
  pub queue_id : Text
  pub key : Text
  pub payload_sha256_hex : Text
  pub payload : Bytes

pub data ArchiveQueueError : Type 0 where
  io json invalid_key invalid_payload_hex invalid_payload_hash time_unavailable : ArchiveQueueError

abbrev queue_error_code : ArchiveQueueError → Text
queue_error_code io = codes "archive_export_queue_io_failed"
queue_error_code json = codes "archive_export_queue_json_failed"
queue_error_code invalid_key = codes "archive_export_queue_invalid_key"
queue_error_code invalid_payload_hex = codes "archive_export_queue_invalid_payload_hex"
queue_error_code invalid_payload_hash = codes "archive_export_queue_payload_hash_mismatch"
queue_error_code time_unavailable = codes "archive_export_queue_time_unavailable"

-- `From<ArchiveQueueError> for ArchiveBackendError`
abbrev pub from_queue_error : ArchiveQueueError → ArchiveBackendError
from_queue_error error = backend_failed (queue_error_code error)

pub data DeliveryStatus : Type 0 where
  pending sent : DeliveryStatus

pub record QueueRecord : Type 0 where
  pub queue_id : Text
  pub delivery_status : DeliveryStatus
  pub key : Text
  pub payload_sha256_hex : Text
  pub payload_hex : Text
  pub queued_at : Text

-- `to_writer` and `from_str` on a record
pub record Serde : Type 0 where
  pub record_to_line : QueueRecord → Result Text Text
  pub record_from_line : Text → Result Text QueueRecord

-- The file and the lock: a thread that panics with the lock held poisons it.
pub record LocalArchiveQueue : Type 0 where
  pub file : File
  pub poisoned : Bool

abbrev append_error : AppendError → ArchiveQueueError
append_error io_failed = io
append_error json_failed = json

abbrev pub is_pending : QueueRecord → Bool
is_pending r = elim r.delivery_status [ pending ↦ true | sent ↦ false ]

module _ (c : Crates) where
  abbrev pub payload_hash : Bytes → Text
  payload_hash payload = c.hex_encode (c.sha256 payload)

  abbrev pub queue_id_of : Text → Bytes → Text
  queue_id_of key payload = key ++ (codes ":" ++ payload_hash payload)

  -- `QueueRecord::pending`
  unfoldable pub pending_record :
      OffsetDateTime → Text → Bytes → Result ArchiveQueueError QueueRecord
  pending_record now key payload = do
    queued_at ← map_err (λ e. time_unavailable) (c.format_rfc3339 now)
    ok (record {
      queue_id = queue_id_of key payload;
      delivery_status = pending;
      key = key;
      payload_sha256_hex = payload_hash payload;
      payload_hex = c.hex_encode payload;
      queued_at = queued_at;
    })

  abbrev or_epoch : Result Text Text → Text
  or_epoch (ok text) = text
  or_epoch (err e) = codes "1970-01-01T00:00:00Z"

  -- `QueueRecord::sent`
  unfoldable pub sent_record : OffsetDateTime → QueuedArchiveObject → QueueRecord
  sent_record now queued = record {
    queue_id = queued.queue_id;
    delivery_status = sent;
    key = queued.key;
    payload_sha256_hex = queued.payload_sha256_hex;
    payload_hex = c.hex_encode queued.payload;
    queued_at = or_epoch (c.format_rfc3339 now);
  }

  -- `TryFrom<QueueRecord> for QueuedArchiveObject`
  unfoldable pub try_from : QueueRecord → Result ArchiveQueueError QueuedArchiveObject
  unfolding new_object_key text_eq
  try_from r = do
    key ← map_err (λ e. invalid_key) (new_object_key r.key)
    payload ← ok_or (c.hex_decode r.payload_hex) invalid_payload_hex
    reject (not (text_eq (payload_hash payload) r.payload_sha256_hex)) invalid_payload_hash
    ok (record {
      queue_id = r.queue_id;
      key = key;
      payload_sha256_hex = r.payload_sha256_hex;
      payload = payload;
    })

  module _ (serde : Serde) where
    -- `from_str::<QueueRecord>(&line)?`
    abbrev pub parse_record : Text → Result ArchiveQueueError QueueRecord
    parse_record line = map_err (λ e. json) (serde.record_from_line line)

    abbrev write_record :
        AppendIo → Result Text Text → File → Result ArchiveQueueError (Unit {0}) × File
    write_record refuses line file = (err io, file)
    write_record disk (err e) file = (err json, some (contents file))
    write_record disk (ok line) file =
        let (answer, written) = append_line disk line file in (map_err append_error answer, written)

    -- `append_record`, with the lock held
    unfoldable pub append_record :
        AppendIo
        → QueueRecord
        → LocalArchiveQueue
        → Result ArchiveQueueError (Unit {0}) × LocalArchiveQueue
    append_record disk queued queue =
        let (answer, written) = write_record disk (serde.record_to_line queued) queue.file in
        (answer, record queue { file = written })

    unfoldable pub append_pending_bytes :
        OffsetDateTime
        → AppendIo
        → Text
        → Bytes
        → LocalArchiveQueue
        → Result ArchiveQueueError (Unit {0}) × LocalArchiveQueue
    unfolding pending_record append_record
    append_pending_bytes now disk key payload queue =
        if queue.poisoned then (err io, queue) else elim (pending_record now key payload) [
          | err e ↦ (err e, queue)
          | ok queued ↦ append_record disk queued queue
        ]

    unfoldable pub mark_sent :
        OffsetDateTime
        → AppendIo
        → QueuedArchiveObject
        → LocalArchiveQueue
        → Result ArchiveQueueError (Unit {0}) × LocalArchiveQueue
    unfolding sent_record append_record
    mark_sent now disk queued queue =
        let appended = append_record disk (sent_record now queued) queue in
        if queue.poisoned then (err io, queue) else appended

    abbrev pub read_pending : File → Result ArchiveQueueError (List QueuedArchiveObject)
    read_pending none = ok []
    read_pending (some text) = replay parse_record (λ r. r.queue_id) [] (lines text) >>= λ states.
        collect_pending is_pending try_from states

    -- `pending_objects`; the first argument tells whether the file can be read
    unfoldable pub pending_objects :
        Bool → LocalArchiveQueue → Result ArchiveQueueError (List QueuedArchiveObject)
    pending_objects readable queue =
        if queue.poisoned
        then err io
        else if readable
        then read_pending queue.file
        else elim queue.file [ none ↦ ok [] | some text ↦ err io ]
