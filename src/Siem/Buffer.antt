-- ===== src/Siem/Buffer.antt =====
-- src/siem/buffer.rs: the buffer of events that could not be sent, a file of JSON lines. What the
-- derived `Serialize` and `Deserialize` implementations do is the record `Serde`.

pub mod Refinement
pub mod History
pub mod Readable
use mipsorcu.DeliveryLog.{
  AppendIo, refuses, File, contents, append_line, AppendError, io_failed, json_failed, lines,
  replay, collect_pending,
}
use mipsorcu.Json.{Value}
use mipsorcu.Siem.Event.{SiemEvent}
use mipsorcu.Prelude.{
  if◌then◌else◌, Bool, true, false, Text, Result, ok, err, map_err, ◌>>=◌, List, [], none, some,
}

pub data DeliveryStatus : Type 0 where
  pending sent : DeliveryStatus

pub record LocalSiemFallbackRecord : Type 0 where
  pub event_id : Text
  pub status : DeliveryStatus
  pub event : Value

pub data LocalSiemBufferError : Type 0 where
  io serialization lock_poisoned : LocalSiemBufferError

-- `serde_json::to_value` and `from_value` on an event, `to_writer` and `from_str` on a record
pub record Serde : Type 0 where
  pub event_to_value : SiemEvent → Result Text Value
  pub event_from_value : Value → Result Text SiemEvent
  pub record_to_line : LocalSiemFallbackRecord → Result Text Text
  pub record_from_line : Text → Result Text LocalSiemFallbackRecord

-- The file and the lock: a thread that panics with the lock held poisons it.
pub record LocalSiemFallbackBuffer : Type 0 where
  pub file : File
  pub poisoned : Bool

abbrev append_error : AppendError → LocalSiemBufferError
append_error io_failed = io
append_error json_failed = serialization

abbrev pub is_pending : LocalSiemFallbackRecord → Bool
is_pending r = elim r.status [ pending ↦ true | sent ↦ false ]

module _ (serde : Serde) where
  -- `from_str::<LocalSiemFallbackRecord>(&line)?`
  abbrev pub parse_record : Text → Result LocalSiemBufferError LocalSiemFallbackRecord
  parse_record line = map_err (λ e. serialization) (serde.record_from_line line)

  -- `from_value::<SiemEvent>(state.event)?`
  abbrev pub state_event : LocalSiemFallbackRecord → Result LocalSiemBufferError SiemEvent
  state_event state = map_err (λ e. serialization) (serde.event_from_value state.event)

  abbrev write_record :
      AppendIo → Result Text Text → File → Result LocalSiemBufferError (Unit {0}) × File
  write_record refuses line file = (err io, file)
  write_record disk (err e) file = (err serialization, some (contents file))
  write_record disk (ok line) file =
      let (answer, written) = append_line disk line file in (map_err append_error answer, written)

  -- `append_record`
  unfoldable pub append_record :
      AppendIo
      → LocalSiemFallbackRecord
      → LocalSiemFallbackBuffer
      → Result LocalSiemBufferError (Unit {0}) × LocalSiemFallbackBuffer
  append_record disk line buffer =
      let (answer, written) = write_record disk (serde.record_to_line line) buffer.file in
      if buffer.poisoned
      then (err lock_poisoned, buffer)
      else (answer, record buffer { file = written })

  unfoldable pub append_status :
      DeliveryStatus
      → AppendIo
      → SiemEvent
      → LocalSiemFallbackBuffer
      → Result LocalSiemBufferError (Unit {0}) × LocalSiemFallbackBuffer
  unfolding append_record
  append_status status disk event buffer = elim (serde.event_to_value event) [
    | err e ↦ (err serialization, buffer)
    | ok value ↦
        append_record disk (record { event_id = event.event_id; status = status; event = value })
          buffer
  ]

  unfoldable pub append_pending :
      AppendIo
      → SiemEvent
      → LocalSiemFallbackBuffer
      → Result LocalSiemBufferError (Unit {0}) × LocalSiemFallbackBuffer
  unfolding append_status
  append_pending = append_status pending

  unfoldable pub mark_sent :
      AppendIo
      → SiemEvent
      → LocalSiemFallbackBuffer
      → Result LocalSiemBufferError (Unit {0}) × LocalSiemFallbackBuffer
  unfolding append_status
  mark_sent = append_status sent

  abbrev pub read_pending : File → Result LocalSiemBufferError (List SiemEvent)
  read_pending none = ok []
  read_pending (some text) = replay parse_record (λ r. r.event_id) [] (lines text) >>= λ states.
      collect_pending is_pending state_event states

  -- `pending_events`; the first argument tells whether the file can be read
  unfoldable pub pending_events :
      Bool → LocalSiemFallbackBuffer → Result LocalSiemBufferError (List SiemEvent)
  pending_events readable buffer =
      if buffer.poisoned
      then err lock_poisoned
      else if readable
      then read_pending buffer.file
      else elim buffer.file [ none ↦ ok [] | some text ↦ err io ]
