-- ===== src/Tests/Siem.antt =====
-- Runs of the SIEM buffer and forwarder, with a concrete JSON text.
use mipsorcu.DeliveryLog.{insert, remove, writes, runs, cancelled}
use mipsorcu.Json.Readable.{is_readable}
use mipsorcu.Siem.Buffer.Readable.{is_readable_event}
use mipsorcu.Json.{object, entry, end, Value, null, string, number, unsigned, array, cons, nil}
use mipsorcu.Ledger.Entry.{integer, optional}
use mipsorcu.Prelude.{
  ◌>>=◌, arith, ℕ, ◌≡◌, ◌⊎◌, refl, true, Text, codes, Option, none, some, Result, ok, err, [], ◌∷◌,
  ◌==◌, if◌then◌else◌, starts_with, text_eq, text_lt, bytes_eq,
}
use mipsorcu.Siem.Buffer.{
  append_pending, Serde, DeliveryStatus, pending, sent, LocalSiemFallbackRecord,
  LocalSiemFallbackBuffer, pending_events,
}
use mipsorcu.Siem.Buffer.History.{new_buffer, run, pending_events-history}
use mipsorcu.Siem.Buffer.Refinement.{SerdeLaws, Represents, new_buffer-Represents}
use mipsorcu.Siem.Event.{SiemEvent}
use mipsorcu.Siem.Forwarder.{
  SiemForwarder, SiemSinkError, backend_failed, invalid_response, sent_direct, buffered,
  sink_error_code, forward,
}
use mipsorcu.Siem.Forwarder.Delivery.{forward-delivers}
use mipsorcu.Siem.Forwarder.Failures.{
  Call, forward_all, failure_since-since_accepted, sink_error_code-siem,
}
use mipsorcu.Tests.Wire.{line_of, value_of, value_of-line_of, line_of-IsLine}

abbrev version_value : Option ℕ → Value
version_value none = null
version_value (some n) = integer n

abbrev text_of : Value → Option Text
text_of (string s) = some s
text_of _ = none

abbrev version_of : Value → Option ℕ
version_of (number (unsigned n)) = some n
version_of _ = none

text_of-optional : (o : Option Text) → text_of (optional (λ t. t) o) ≡ o
text_of-optional none = refl
text_of-optional (some t) = refl

version_of-value : (o : Option ℕ) → version_of (version_value o) ≡ o
version_of-value none = refl
version_of-value (some n) = refl

abbrev to_value : SiemEvent → Value
to_value e = array (
    cons (integer e.schema_version) (
      cons (string e.event_id) (
        cons (string e.event_type) (
          cons (string e.result) (
            cons (string e.request_id) (
              cons (optional (λ t. t) e.actor_user_id) (
                cons (optional (λ t. t) e.actor_device_id) (
                  cons (optional (λ t. t) e.target_secret_id) (
                    cons (version_value e.key_version)
                      (cons (string e.source_event_at) (cons e.metadata nil)))))))))))

from_value : Value → Result Text SiemEvent
from_value
      (array (
        cons (number (unsigned schema_version)) (
          cons (string event_id) (
            cons (string event_type) (
              cons (string result) (
                cons (string request_id) (
                  cons user (
                    cons device
                      (cons secret (cons version (cons (string at) (cons metadata nil)))))))))))) =
    ok (record {
      schema_version = schema_version;
      event_id = event_id;
      event_type = event_type;
      result = result;
      request_id = request_id;
      actor_user_id = text_of user;
      actor_device_id = text_of device;
      target_secret_id = text_of secret;
      key_version = version_of version;
      source_event_at = at;
      metadata = metadata;
    })
from_value _ = err []

from_value-to_value : (e : SiemEvent) → from_value (to_value e) ≡ ok e
unfolding from_value
from_value-to_value e =
    rw
      (
        text_of-optional e.actor_user_id,
        text_of-optional e.actor_device_id,
        text_of-optional e.target_secret_id,
        version_of-value e.key_version,
      )
      refl

abbrev status_value : DeliveryStatus → Value
status_value pending = null
status_value sent = string []

abbrev record_value : LocalSiemFallbackRecord → Value
record_value r = array (cons (string r.event_id) (cons (status_value r.status) (cons r.event nil)))

record_of : Value → Result Text LocalSiemFallbackRecord
record_of (array (cons (string event_id) (cons null (cons event nil)))) =
    ok (record { event_id = event_id; status = pending; event = event })
record_of (array (cons (string event_id) (cons (string s) (cons event nil)))) =
    ok (record { event_id = event_id; status = sent; event = event })
record_of _ = err []

record_of-status :
    (id : Text) (status : DeliveryStatus) (event : Value)
    → record_of (array (cons (string id) (cons (status_value status) (cons event nil))))
      ≡ ok (record { event_id = id; status = status; event = event })
unfolding record_of
record_of-status id pending event = refl
record_of-status id sent event = refl

record_of-value : (r : LocalSiemFallbackRecord) → record_of (record_value r) ≡ ok r
unfolding record_of
record_of-value r = record_of-status r.event_id r.status r.event

-- a line whose event is not readable is refused
read_record : Text → Result Text LocalSiemFallbackRecord
read_record line =
    record_of (value_of line) >>= λ r. if is_readable 126 r.event then ok r else err []

toy_serde : Serde
toy_serde = record {
  event_to_value = λ e. ok (to_value e);
  event_from_value = from_value;
  record_to_line = λ r. ok (line_of (record_value r));
  record_from_line = λ line. read_record line;
}

to_value-is_readable :
    (e : SiemEvent) → is_readable_event e ≡ true → is_readable 126 (to_value e) ≡ true
unfolding is_readable is_readable_event
to_value-is_readable e h = ground arith

read_record-line :
    (r : LocalSiemFallbackRecord)
    → is_readable 126 r.event ≡ true
    → read_record (line_of (record_value r)) ≡ ok r
unfolding read_record
read_record-line r h = rw (value_of-line_of (record_value r), record_of-value r, h) refl

toy_serde_laws : SerdeLaws toy_serde
unfolding toy_serde
toy_serde_laws = record {
  event_value = to_value;
  record_line = λ r. line_of (record_value r);
  to_value = λ e. refl;
  from_value = λ e h. from_value-to_value e;
  event_value-is_readable = to_value-is_readable;
  to_writer = λ r. refl;
  from_str = read_record-line;
  record_line-IsLine = λ r. line_of-IsLine (record_value r);
}

abbrev event : Text → SiemEvent
event id = record {
  schema_version = 1;
  event_id = id;
  event_type = codes "decrypt";
  result = codes "failure";
  request_id = codes "r";
  actor_user_id = none;
  actor_device_id = some (codes "d");
  target_secret_id = none;
  key_version = some 7;
  source_event_at = codes "t";
  metadata = object (
      entry (codes "attempts") (number (unsigned 3))
        (entry (codes "trigger") (array (cons (string (codes "manual")) (cons null nil))) end));
}

abbrev event_a : SiemEvent
event_a = event (codes "a")

abbrev event_b : SiemEvent
event_b = event (codes "b")

pending_events-history_example :
    pending_events toy_serde true (
      run toy_serde
        ((pending, event_b) ∷ (pending, event_a) ∷ (pending, event_b) ∷ (sent, event_a) ∷ [])
        new_buffer)
    ≡ ok (event_b ∷ [])
unfolding insert remove text_eq text_lt bytes_eq is_readable_event
pending_events-history_example =
    pending_events-history toy_serde toy_serde_laws
      ((pending, event_b) ∷ (pending, event_a) ∷ (pending, event_b) ∷ (sent, event_a) ∷ []) refl

abbrev forwarder : SiemForwarder
forwarder = record { buffer = new_buffer; failure_since = none }

abbrev refusal : Result SiemSinkError (Unit {0})
refusal = err (invalid_response [])

forward-delivers_example :
    ((refusal ≡ ok tt)
      × ((forward toy_serde 5 (runs writes) refusal event_a forwarder).0 ≡ sent_direct)
      × Represents toy_serde
          (forward toy_serde 5 (runs writes) refusal event_a forwarder).1.buffer
          [])
    ⊎ ((error : SiemSinkError) × (refusal ≡ err error)
        × ((forward toy_serde 5 (runs writes) refusal event_a forwarder).0
            ≡ buffered (sink_error_code error))
        × Represents toy_serde
            (forward toy_serde 5 (runs writes) refusal event_a forwarder).1.buffer
            ((codes "a", event_a) ∷ []))
unfolding insert is_readable_event
forward-delivers_example =
    forward-delivers toy_serde toy_serde_laws 5 refusal event_a forwarder [] refl
      (new_buffer-Represents toy_serde)

abbrev held_a : LocalSiemFallbackBuffer
held_a = (append_pending toy_serde writes event_a new_buffer).1

abbrev held_ab : LocalSiemFallbackBuffer
held_ab = (append_pending toy_serde writes event_b held_a).1

-- the sink refuses the event `a`
abbrev send : ℕ → SiemEvent → Result SiemSinkError (Unit {0})
send i e = if i == 0 then refusal else ok tt

abbrev holding : SiemForwarder
holding = record { buffer = held_ab; failure_since = some 3 }

abbrev call : ℕ → Result SiemSinkError (Unit {0}) → Call
call now answer = record { now = now; spawn = cancelled; answer = answer; event = event_a }

failure_since-since_accepted_example :
    (forward_all toy_serde
      (call 1 refusal ∷ call 2 (ok tt) ∷ call 3 refusal ∷ call 4 refusal ∷ [])
      forwarder).failure_since
    ≡ some 3
failure_since-since_accepted_example =
    failure_since-since_accepted toy_serde
      (call 1 refusal ∷ call 2 (ok tt) ∷ call 3 refusal ∷ call 4 refusal ∷ []) forwarder refl

sink_error_code-siem_example :
    starts_with (sink_error_code (backend_failed (codes "timeout"))) (codes "siem_") ≡ true
sink_error_code-siem_example = sink_error_code-siem (backend_failed (codes "timeout"))
