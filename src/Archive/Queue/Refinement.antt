-- ===== src/Archive/Queue/Refinement.antt =====
-- The queue's file stands for a map of objects by queue id: `append_pending_bytes` inserts, `mark_sent`
-- removes, `pending_objects` gives the values.
use mipsorcu.Archive.Backend.{new_object_key}
use mipsorcu.Archive.Queue.{
  pending, Serde, QueueRecord, QueuedArchiveObject, LocalArchiveQueue, is_pending, parse_record,
  try_from, append_record, append_pending_bytes, mark_sent, pending_objects, pending_record,
  sent_record, read_pending, payload_hash, queue_id_of,
}
use mipsorcu.Crates.{Crates, OffsetDateTime, HexLaws}
use mipsorcu.DeliveryLog.{
  BTreeMap, insert, remove, values, writes, contents, File, newline, lines, replay, collect_pending,
}
use mipsorcu.DeliveryLog.Order.{Sorted, insert-Sorted, remove-Sorted}
use mipsorcu.DeliveryLog.Pending.{Holds, Holds-nothing, Holds-pending, Holds-sent, Holds-collected}
use mipsorcu.DeliveryLog.Replay.{IsLine}
use mipsorcu.Prelude.{
  Bytes, Text, text_eq_refl, true, false, ok, [], ◌∷◌, ◌≡◌, none, some, arith, refl, ◌++◌, ◌>>=◌,
  ◌∙◌,
}

-- JSON that is written can be read back, and one record is one line.
pub record SerdeLaws (serde : Serde) : Type 0 where
  pub record_line : QueueRecord → Text
  pub to_writer : (r : QueueRecord) → serde.record_to_line r ≡ ok (record_line r)
  pub from_str : (r : QueueRecord) → serde.record_from_line (record_line r) ≡ ok r
  pub record_line-IsLine : (r : QueueRecord) → IsLine (record_line r)

module _ (c : Crates) where
  -- the object that stands in the queue for a key and a payload
  abbrev pub queued_object : Text → Bytes → QueuedArchiveObject
  queued_object key payload = record {
    queue_id = queue_id_of c key payload;
    key = key;
    payload_sha256_hex = payload_hash c payload;
    payload = payload;
  }

  -- every object stands under its own id
  unfoldable pub Keyed : BTreeMap QueuedArchiveObject → Type 0
  Keyed [] = Unit
  Keyed ((k, o) ∷ m) = (k ≡ o.queue_id) × Keyed m

  insert-Keyed :
      (o : QueuedArchiveObject) (m : BTreeMap QueuedArchiveObject)
      → Keyed m
      → Keyed (insert o.queue_id o m)
  unfolding Keyed insert
  insert-Keyed o [] h = (refl, tt)
  insert-Keyed o ((j, w) ∷ m) (p, h) = ground (arith, insert-Keyed o m h)

  remove-Keyed : (k : Text) (m : BTreeMap QueuedArchiveObject) → Keyed m → Keyed (remove k m)
  unfolding Keyed remove
  remove-Keyed k [] h = tt
  remove-Keyed k ((j, w) ∷ m) (p, h) = ground (arith, remove-Keyed k m h)

  module _ (serde : Serde) where
    -- A queue that can be locked and whose file holds these objects as pending.
    pub record Represents (queue : LocalArchiveQueue) (objects : BTreeMap QueuedArchiveObject)
        : Type 0 where
      pub unpoisoned : queue.poisoned ≡ false
      pub ordered : Sorted objects
      pub keyed : Keyed objects
      pub holds :
          Holds is_pending
            (try_from c)
            (parse_record c serde)
            (λ r. r.queue_id)
            (contents queue.file)
            objects

    pub new_queue-Represents : Represents (record { file = none; poisoned = false }) []
    unfolding Sorted Keyed
    new_queue-Represents = record {
      unpoisoned = refl;
      ordered = tt;
      keyed = tt;
      holds = Holds-nothing is_pending (try_from c) (parse_record c serde) (λ r. r.queue_id);
    }

    read_pending-contents :
        (file : File)
        → read_pending c serde file ≡ (
            replay (parse_record c serde) (λ r. r.queue_id) [] (lines (contents file)) >>= λ states.
            collect_pending is_pending (try_from c) states)
    unfolding lines replay collect_pending
    read_pending-contents none = refl
    read_pending-contents (some text) = refl

    pub pending_objects-Represents :
        (queue : LocalArchiveQueue) (objects : BTreeMap QueuedArchiveObject)
        → Represents queue objects
        → pending_objects c serde true queue ≡ ok (values objects)
    unfolding pending_objects
    pending_objects-Represents queue objects h = rw h.unpoisoned (
        read_pending-contents queue.file
        ∙ Holds-collected is_pending (try_from c) (parse_record c serde) (λ r. r.queue_id)
            (contents queue.file) objects h.holds)

    module _ (laws : SerdeLaws serde) where
      abbrev with_line : Text → LocalArchiveQueue → LocalArchiveQueue
      with_line line queue = record queue {
        file = some (contents queue.file ++ (line ++ newline ∷ []));
      }

      append_record-writes :
          (r : QueueRecord) (queue : LocalArchiveQueue)
          → append_record c serde writes r queue ≡ (ok tt, with_line (laws.record_line r) queue)
      unfolding append_record
      append_record-writes r queue = ground (arith, laws.to_writer r)

      parse_record-line : (r : QueueRecord) → parse_record c serde (laws.record_line r) ≡ ok r
      parse_record-line r = ground (arith, laws.from_str r)

      abbrev written_record : Text → Bytes → Text → QueueRecord
      written_record key payload text = record {
        queue_id = queue_id_of c key payload;
        delivery_status = pending;
        key = key;
        payload_sha256_hex = payload_hash c payload;
        payload_hex = c.hex_encode payload;
        queued_at = text;
      }

      pending_record-written :
          (now : OffsetDateTime) (key : Text) (payload : Bytes) (text : Text)
          → c.format_rfc3339 now ≡ ok text
          → pending_record c now key payload ≡ ok (written_record key payload text)
      unfolding pending_record
      pending_record-written now key payload text t = rw t refl

      append_pending_bytes-writes :
          (now : OffsetDateTime) (key : Text) (payload : Bytes) (queue : LocalArchiveQueue)
          (text : Text)
          → queue.poisoned ≡ false
          → c.format_rfc3339 now ≡ ok text
          → append_pending_bytes c serde now writes key payload queue
            ≡ (ok tt, with_line (laws.record_line (written_record key payload text)) queue)
      unfolding append_pending_bytes
      append_pending_bytes-writes now key payload queue text p t = ground (
        arith,
        pending_record-written now key payload text t,
        append_record-writes (written_record key payload text) queue,
      )

      mark_sent-writes :
          (now : OffsetDateTime) (o : QueuedArchiveObject) (queue : LocalArchiveQueue)
          → queue.poisoned ≡ false
          → mark_sent c serde now writes o queue
            ≡ (ok tt, with_line (laws.record_line (sent_record c now o)) queue)
      unfolding mark_sent
      mark_sent-writes now o queue p =
          ground (arith, append_record-writes (sent_record c now o) queue)

      try_from-pending_record :
          (hex : HexLaws c) (now : OffsetDateTime) (key : Text) (payload : Bytes) (r : QueueRecord)
          → new_object_key key ≡ ok key
          → pending_record c now key payload ≡ ok r
          → (try_from c r ≡ ok (queued_object key payload))
            × (is_pending r ≡ true)
            × (r.queue_id ≡ queue_id_of c key payload)
      unfolding try_from pending_record
      try_from-pending_record hex now key payload r k p =
          ground (arith, hex.decode-encode payload, text_eq_refl (payload_hash c payload), k)

      -- An append of a valid key and a payload adds their object, if the time can be written.
      pub append_pending_bytes-Represents :
          (hex : HexLaws c) (now : OffsetDateTime) (key : Text) (payload : Bytes)
          (queue : LocalArchiveQueue) (objects : BTreeMap QueuedArchiveObject) (text : Text)
          → new_object_key key ≡ ok key
          → c.format_rfc3339 now ≡ ok text
          → Represents queue objects
          → ((append_pending_bytes c serde now writes key payload queue).0 ≡ ok tt)
            × Represents
                (append_pending_bytes c serde now writes key payload queue).1
                (insert (queue_id_of c key payload) (queued_object key payload) objects)
      unfolding append_pending_bytes
      append_pending_bytes-Represents hex now key payload queue objects text k t h =
          let r = written_record key payload text in
          let (d, i, q) =
            try_from-pending_record hex now key payload r k
              (pending_record-written now key payload text t) in
          rw (append_pending_bytes-writes now key payload queue text h.unpoisoned t) (
            refl,
            record {
              unpoisoned = h.unpoisoned;
              ordered =
                  insert-Sorted (queue_id_of c key payload) (queued_object key payload) objects
                    h.ordered;
              keyed = insert-Keyed (queued_object key payload) objects h.keyed;
              holds =
                  Holds-pending is_pending (try_from c) (parse_record c serde) (λ r. r.queue_id)
                    (contents queue.file) (laws.record_line r) objects r (queued_object key payload)
                    (laws.record_line-IsLine r) (parse_record-line r) i d h.holds;
            },
          )

      pub mark_sent-Represents :
          (now : OffsetDateTime) (o : QueuedArchiveObject) (queue : LocalArchiveQueue)
          (objects : BTreeMap QueuedArchiveObject)
          → Represents queue objects
          → ((mark_sent c serde now writes o queue).0 ≡ ok tt)
            × Represents (mark_sent c serde now writes o queue).1 (remove o.queue_id objects)
      unfolding mark_sent
      mark_sent-Represents now o queue objects h =
          let r = sent_record c now o in
          rw (mark_sent-writes now o queue h.unpoisoned) (
            refl,
            record {
              unpoisoned = h.unpoisoned;
              ordered = remove-Sorted o.queue_id objects h.ordered;
              keyed = remove-Keyed o.queue_id objects h.keyed;
              holds =
                  Holds-sent is_pending (try_from c) (parse_record c serde) (λ r. r.queue_id)
                    (contents queue.file) (laws.record_line r) objects r (laws.record_line-IsLine r)
                    (parse_record-line r) refl h.holds;
            },
          )
