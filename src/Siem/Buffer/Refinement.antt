-- ===== src/Siem/Buffer/Refinement.antt =====
-- The buffer's file stands for a map of pending events by id: `append_pending` inserts, `mark_sent`
-- removes, `pending_events` gives the values.
use mipsorcu.DeliveryLog.{
  newline, lines, replay, collect_pending, BTreeMap, insert, remove, values, writes, contents, File,
}
use mipsorcu.DeliveryLog.Order.{Sorted, insert-Sorted, remove-Sorted}
use mipsorcu.DeliveryLog.Pending.{Holds, Holds-nothing, Holds-pending, Holds-sent, Holds-collected}
use mipsorcu.DeliveryLog.Replay.{IsLine}
use mipsorcu.Json.{Value}
use mipsorcu.Json.Readable.{is_readable}
use mipsorcu.Siem.Buffer.Readable.{is_readable_event}
use mipsorcu.Siem.Event.{SiemEvent}
use mipsorcu.Siem.Buffer.{
  DeliveryStatus, read_pending, Serde, LocalSiemFallbackRecord, LocalSiemFallbackBuffer, is_pending,
  parse_record, state_event, append_record, append_status, append_pending, mark_sent,
  pending_events, pending, sent,
}
use mipsorcu.Prelude.{
  ◌++◌, ◌>>=◌, ◌∙◌, Text, true, false, ok, [], ◌∷◌, ◌≡◌, none, some, arith, refl,
}

-- What serde_json documents of the lines: a record is written as one line; the fields of an event are
-- text, numbers and its metadata; and what is readable is read back as it was.
pub record SerdeLaws (serde : Serde) : Type 0 where
  pub event_value : SiemEvent → Value
  pub record_line : LocalSiemFallbackRecord → Text
  pub to_value : (e : SiemEvent) → serde.event_to_value e ≡ ok (event_value e)
  pub from_value :
      (e : SiemEvent) → is_readable_event e ≡ true → serde.event_from_value (event_value e) ≡ ok e
  pub event_value-is_readable :
      (e : SiemEvent) → is_readable_event e ≡ true → is_readable 126 (event_value e) ≡ true
  pub to_writer : (r : LocalSiemFallbackRecord) → serde.record_to_line r ≡ ok (record_line r)
  pub from_str :
      (r : LocalSiemFallbackRecord)
      → is_readable 126 r.event ≡ true
      → serde.record_from_line (record_line r) ≡ ok r
  pub record_line-IsLine : (r : LocalSiemFallbackRecord) → IsLine (record_line r)

-- every event stands under its own id, and can be read back
unfoldable pub Kept : BTreeMap SiemEvent → Type 0
Kept [] = Unit
Kept ((k, e) ∷ m) = (k ≡ e.event_id) × (is_readable_event e ≡ true) × Kept m

insert-Kept :
    (e : SiemEvent) (m : BTreeMap SiemEvent)
    → is_readable_event e ≡ true
    → Kept m
    → Kept (insert e.event_id e m)
unfolding Kept insert
insert-Kept e [] q h = (refl, q, tt)
insert-Kept e ((j, w) ∷ m) q (p, r, h) = ground (arith, insert-Kept e m q h)

remove-Kept : (k : Text) (m : BTreeMap SiemEvent) → Kept m → Kept (remove k m)
unfolding Kept remove
remove-Kept k [] h = tt
remove-Kept k ((j, w) ∷ m) (p, r, h) = ground (arith, remove-Kept k m h)

module _ (serde : Serde) where
  -- A buffer that can be locked and whose file holds these events as pending.
  pub record Represents (buffer : LocalSiemFallbackBuffer) (events : BTreeMap SiemEvent)
      : Type 0 where
    pub unpoisoned : buffer.poisoned ≡ false
    pub ordered : Sorted events
    pub kept : Kept events
    pub holds :
        Holds is_pending
          (state_event serde)
          (parse_record serde)
          (λ r. r.event_id)
          (contents buffer.file)
          events

  pub new_buffer-Represents : Represents (record { file = none; poisoned = false }) []
  unfolding Sorted Kept
  new_buffer-Represents = record {
    unpoisoned = refl;
    ordered = tt;
    kept = tt;
    holds = Holds-nothing is_pending (state_event serde) (parse_record serde) (λ r. r.event_id);
  }

  read_pending-contents :
      (file : File)
      → read_pending serde file ≡ (
          replay (parse_record serde) (λ r. r.event_id) [] (lines (contents file)) >>= λ states.
          collect_pending is_pending (state_event serde) states)
  unfolding lines replay collect_pending
  read_pending-contents none = refl
  read_pending-contents (some text) = refl

  pub pending_events-Represents :
      (buffer : LocalSiemFallbackBuffer) (events : BTreeMap SiemEvent)
      → Represents buffer events
      → pending_events serde true buffer ≡ ok (values events)
  unfolding pending_events
  pending_events-Represents buffer events h = rw h.unpoisoned (
      read_pending-contents buffer.file
      ∙ Holds-collected is_pending (state_event serde) (parse_record serde) (λ r. r.event_id)
          (contents buffer.file) events h.holds)

  module _ (laws : SerdeLaws serde) where
    -- the record that is appended for an event
    abbrev status_record : DeliveryStatus → SiemEvent → LocalSiemFallbackRecord
    status_record status e = record {
      event_id = e.event_id;
      status = status;
      event = laws.event_value e;
    }

    abbrev with_line : Text → LocalSiemFallbackBuffer → LocalSiemFallbackBuffer
    with_line line buffer = record buffer {
      file = some (contents buffer.file ++ (line ++ newline ∷ []));
    }

    append_status-writes :
        (status : DeliveryStatus) (e : SiemEvent) (buffer : LocalSiemFallbackBuffer)
        → buffer.poisoned ≡ false
        → append_status serde status writes e buffer
          ≡ (ok tt, with_line (laws.record_line (status_record status e)) buffer)
    unfolding append_status append_record
    append_status-writes status e buffer p =
        ground (arith, laws.to_value e, laws.to_writer (status_record status e))

    state_event-status_record :
        (status : DeliveryStatus) (e : SiemEvent)
        → is_readable_event e ≡ true
        → state_event serde (status_record status e) ≡ ok e
    state_event-status_record status e readable = ground (arith, laws.from_value e readable)

    parse_record-line :
        (status : DeliveryStatus) (e : SiemEvent)
        → is_readable_event e ≡ true
        → parse_record serde (laws.record_line (status_record status e))
          ≡ ok (status_record status e)
    parse_record-line status e readable =
        let read =
          laws.from_str (status_record status e) (laws.event_value-is_readable e readable) in
        ground (arith, read)

    pub append_pending-Represents :
        (e : SiemEvent) (buffer : LocalSiemFallbackBuffer) (events : BTreeMap SiemEvent)
        → is_readable_event e ≡ true
        → Represents buffer events
        → ((append_pending serde writes e buffer).0 ≡ ok tt)
          × Represents (append_pending serde writes e buffer).1 (insert e.event_id e events)
    unfolding append_pending
    append_pending-Represents e buffer events readable h =
        rw (append_status-writes pending e buffer h.unpoisoned) (
          refl,
          record {
            unpoisoned = h.unpoisoned;
            ordered = insert-Sorted e.event_id e events h.ordered;
            kept = insert-Kept e events readable h.kept;
            holds =
                Holds-pending is_pending (state_event serde) (parse_record serde) (λ r. r.event_id)
                  (contents buffer.file) (laws.record_line (status_record pending e)) events
                  (status_record pending e) e (laws.record_line-IsLine (status_record pending e))
                  (parse_record-line pending e readable) refl
                  (state_event-status_record pending e readable) h.holds;
          },
        )

    pub mark_sent-Represents :
        (e : SiemEvent) (buffer : LocalSiemFallbackBuffer) (events : BTreeMap SiemEvent)
        → is_readable_event e ≡ true
        → Represents buffer events
        → ((mark_sent serde writes e buffer).0 ≡ ok tt)
          × Represents (mark_sent serde writes e buffer).1 (remove e.event_id events)
    unfolding mark_sent
    mark_sent-Represents e buffer events readable h =
        rw (append_status-writes sent e buffer h.unpoisoned) (
          refl,
          record {
            unpoisoned = h.unpoisoned;
            ordered = remove-Sorted e.event_id events h.ordered;
            kept = remove-Kept e.event_id events h.kept;
            holds =
                Holds-sent is_pending (state_event serde) (parse_record serde) (λ r. r.event_id)
                  (contents buffer.file) (laws.record_line (status_record sent e)) events
                  (status_record sent e) (laws.record_line-IsLine (status_record sent e))
                  (parse_record-line sent e readable) refl h.holds;
          },
        )
