-- ===== src/Archive/Store/Queueing.antt =====
-- What becomes of an object that is put or queued, and of the queued ones when they are sent again.
use mipsorcu.Archive.Backend.{backend_failed, new_object_key, retriable_archive_backend_code}
use mipsorcu.Archive.Export.{ArchiveExportPackage, to_json_bytes}
use mipsorcu.Archive.Queue.{
  from_queue_error, Serde, QueuedArchiveObject, LocalArchiveQueue, append_pending_bytes,
  queue_id_of,
}
use mipsorcu.Archive.Queue.Refinement.{
  SerdeLaws, Represents, queued_object, append_pending_bytes-Represents,
}
use mipsorcu.Archive.Store.{
  Bucket, put_object, put_object_bytes, put_object_or_enqueue, enqueue, queued, resend_object,
}
use mipsorcu.Crates.{Crates, OffsetDateTime, HexLaws}
use mipsorcu.DeliveryLog.{BTreeMap, insert, writes, runs}
use mipsorcu.Prelude.{map_err, ◌>>=◌, ℕ, Bool, true, is_ok, Bytes, Text, ok, err, ◌≡◌, arith}

module _ (c : Crates) (serde : Serde) (laws : SerdeLaws serde) (bucket : Bucket)
    (max_retries base : ℕ) where
  put_object_or_enqueue-step :
      (now : OffsetDateTime) (n : ℕ) (key : Text) (exported : ArchiveExportPackage) (body : Bytes)
      (code : Text) (queue : LocalArchiveQueue)
      → to_json_bytes c exported ≡ ok body
      → put_object_bytes bucket max_retries base n key body ≡ err (backend_failed code)
      → retriable_archive_backend_code code ≡ true
      → put_object_or_enqueue bucket max_retries base c serde now (runs writes) n key exported queue
        ≡ (
          map_err from_queue_error (append_pending_bytes c serde now writes key body queue).0
              >>= λ u. ok queued,
          (append_pending_bytes c serde now writes key body queue).1,
        )
  unfolding put_object_or_enqueue enqueue put_object
  put_object_or_enqueue-step now n key exported body code queue j f r = ground (arith, j, f, r)

  -- An object whose put fails with a retriable code is not lost: with a valid key and a file system
  -- that takes the append, the outcome is `Queued` and its bytes are in the queue, the other objects
  -- as before.
  pub put_object_or_enqueue-queues :
      (hex : HexLaws c) (now : OffsetDateTime) (text : Text) (n : ℕ) (key : Text)
      (exported : ArchiveExportPackage) (body : Bytes) (code : Text) (queue : LocalArchiveQueue)
      (objects : BTreeMap QueuedArchiveObject)
      → new_object_key key ≡ ok key
      → c.format_rfc3339 now ≡ ok text
      → to_json_bytes c exported ≡ ok body
      → put_object_bytes bucket max_retries base n key body ≡ err (backend_failed code)
      → retriable_archive_backend_code code ≡ true
      → Represents c serde queue objects
      → ((put_object_or_enqueue bucket max_retries base c serde now
            (runs writes)
            n
            key
            exported
            queue).0
          ≡ ok queued)
        × Represents c serde
            (put_object_or_enqueue bucket max_retries base c serde now
              (runs writes)
              n
              key
              exported
              queue).1
            (insert (queue_id_of c key body) (queued_object c key body) objects)
  unfolding put_object_or_enqueue enqueue put_object
  put_object_or_enqueue-queues hex now text n key exported body code queue objects k t j f r h =
      let (p, q) =
        append_pending_bytes-Represents c serde laws hex now key body queue objects text k t h in
      rw (put_object_or_enqueue-step now n key exported body code queue j f r)
        (ground (arith, p), q)

  module _ (now : ℕ → OffsetDateTime) where
    -- the objects that the bucket takes
    abbrev accepts : ℕ → QueuedArchiveObject → Bool
    accepts i o = is_ok (put_object_bytes bucket max_retries base i o.key o.payload)

    abbrev turn : ℕ → QueuedArchiveObject → LocalArchiveQueue → Bool × LocalArchiveQueue
    turn = resend_object bucket max_retries base c serde now (λ i. runs writes)
