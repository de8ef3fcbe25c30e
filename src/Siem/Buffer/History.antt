-- ===== src/Siem/Buffer/History.antt =====
-- What a run of appends to a new buffer leaves to be read.
use mipsorcu.DeliveryLog.{BTreeMap, insert, remove, values, writes}
use mipsorcu.Siem.Buffer.{
  Serde, LocalSiemFallbackBuffer, append_pending, mark_sent, pending_events, DeliveryStatus,
  pending, sent,
}
use mipsorcu.Siem.Buffer.Refinement.{
  SerdeLaws, Represents, new_buffer-Represents, append_pending-Represents, mark_sent-Represents,
  pending_events-Represents,
}
use mipsorcu.Siem.Event.{SiemEvent}
use mipsorcu.Siem.Buffer.Readable.{is_readable_event}
use mipsorcu.Prelude.{Bool, ◌&&◌, arith, List, [], ◌∷◌, ◌≡◌, ok, true, false, none}

-- `LocalSiemFallbackBuffer::new` at a path where no file stands
abbrev pub new_buffer : LocalSiemFallbackBuffer
new_buffer = record { file = none; poisoned = false }

abbrev pub History : Type 0
History = List (DeliveryStatus × SiemEvent)

-- the buffer after the calls of `append_pending` and `mark_sent`, in their order
abbrev pub run : Serde → History → LocalSiemFallbackBuffer → LocalSiemFallbackBuffer
run serde [] buffer = buffer
run serde ((pending, e) ∷ history) buffer =
    run serde history (append_pending serde writes e buffer).1
run serde ((sent, e) ∷ history) buffer = run serde history (mark_sent serde writes e buffer).1

-- the events that are still to be sent
abbrev pub outstanding : History → BTreeMap SiemEvent → BTreeMap SiemEvent
outstanding [] events = events
outstanding ((pending, e) ∷ history) events = outstanding history (insert e.event_id e events)
outstanding ((sent, e) ∷ history) events = outstanding history (remove e.event_id events)

-- every event of a history can be read back
abbrev pub are_readable_events : History → Bool
are_readable_events [] = true
are_readable_events ((status, e) ∷ history) = is_readable_event e && are_readable_events history

both : {a b : Bool} → (a && b) ≡ true → (a ≡ true) × (b ≡ true)
both h = ground arith

run-Represents :
    (serde : Serde) (laws : SerdeLaws serde) (history : History) (buffer : LocalSiemFallbackBuffer)
    (events : BTreeMap SiemEvent)
    → are_readable_events history ≡ true
    → Represents serde buffer events
    → Represents serde (run serde history buffer) (outstanding history events)
run-Represents serde laws [] buffer events q h = h
run-Represents serde laws ((pending, e) ∷ history) buffer events q h =
    let (readable, later) = both q in
    run-Represents serde laws history (append_pending serde writes e buffer).1
      (insert e.event_id e events) later
      (append_pending-Represents serde laws e buffer events readable h).1
run-Represents serde laws ((sent, e) ∷ history) buffer events q h =
    let (readable, later) = both q in
    run-Represents serde laws history (mark_sent serde writes e buffer).1 (remove e.event_id events)
      later (mark_sent-Represents serde laws e buffer events readable h).1

-- After any run of `append_pending` and `mark_sent` on a new buffer, of events that serde_json reads
-- back as they were (no float, no nesting beyond its limit), with a file system that takes the lines,
-- `pending_events` gives the values of the map by event id to which each `append_pending` added
-- its event and from which each `mark_sent` removed it: in the order of the ids, the last event of an
-- id, none that was marked after it was appended.
pub pending_events-history :
    (serde : Serde) (laws : SerdeLaws serde) (history : History)
    → are_readable_events history ≡ true
    → pending_events serde true (run serde history new_buffer)
      ≡ ok (values (outstanding history []))
pending_events-history serde laws history readable =
    pending_events-Represents serde (run serde history new_buffer) (outstanding history [])
      (run-Represents serde laws history new_buffer [] readable (new_buffer-Represents serde))
