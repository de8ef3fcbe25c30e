-- ===== src/Siem/Forwarder.antt =====
-- src/siem/forwarder.rs and the error of src/siem/sink.rs: an event is sent, or else kept in the
-- buffer; the pending ones are sent again later. The status is read and written even when its mutex is poisoned.
pub mod Delivery
pub mod Failures
use mipsorcu.Crates.{OffsetDateTime}
use mipsorcu.DeliveryLog.{Spawn, runs, cancelled, resend_all, AppendIo}
use mipsorcu.Siem.Buffer.{
  Serde, LocalSiemFallbackBuffer, LocalSiemBufferError, append_pending, mark_sent, pending_events,
}
use mipsorcu.Siem.Event.{SiemEvent}
use mipsorcu.Prelude.{
  ℕ, ◌+◌, Bool, true, false, ◌&&◌, Text, codes, Option, none, some, Result, ok, err, List, [], ◌∷◌,
  length, starts_with, if◌then◌else◌, ◌==◌, ltb,
}

pub data SiemSinkError : Type 0 where
  backend_failed : Text → SiemSinkError
  invalid_response : Text → SiemSinkError

pub data SiemForwardOutcome : Type 0 where
  sent_direct : SiemForwardOutcome
  buffered : Text → SiemForwardOutcome
  buffering_failed : Text → SiemForwardOutcome

pub record SiemResendSummary : Type 0 where
  pub attempted : ℕ
  pub sent : ℕ
  pub failed : ℕ

-- the forwarder's buffer, and `failure_since` of its status
pub record SiemForwarder : Type 0 where
  pub buffer : LocalSiemFallbackBuffer
  pub failure_since : Option OffsetDateTime

-- `is_long_failure`; the first argument is `now - failure_since >= threshold` of the crate time, `none`
-- for a threshold that the crate does not hold
unfoldable pub is_long_failure :
    {Duration : Type 0}
    → (OffsetDateTime → OffsetDateTime → Duration → Option Bool)
    → OffsetDateTime
    → Duration
    → SiemForwarder
    → Bool
is_long_failure elapsed now threshold forwarder = elim forwarder.failure_since [
  | none ↦ false
  | some since ↦ elim (elapsed now since threshold) [ none ↦ false | some long ↦ long ]
]

-- `record_failure`
unfoldable pub record_failure : OffsetDateTime → SiemForwarder → SiemForwarder
record_failure now forwarder = elim forwarder.failure_since [
  | none ↦ record forwarder { failure_since = some now }
  | some since ↦ forwarder
]

-- `clear`
abbrev pub clear : SiemForwarder → SiemForwarder
clear forwarder = record forwarder { failure_since = none }

unfoldable pub sink_error_code : SiemSinkError → Text
unfolding starts_with
sink_error_code (backend_failed code) =
    if starts_with code (codes "siem_") then code else codes "siem_backend_failed"
sink_error_code (invalid_response reason) = codes "siem_invalid_response"

abbrev pub with_buffer : SiemForwarder → LocalSiemFallbackBuffer → SiemForwarder
with_buffer forwarder buffer = record forwarder { buffer = buffer }

-- the end of `resend_pending`
unfoldable pub finish_resend :
    SiemForwarder → ℕ → ℕ → ℕ → LocalSiemFallbackBuffer → SiemResendSummary × SiemForwarder
finish_resend forwarder attempted sent failed after = (
  record { attempted = attempted; sent = sent; failed = failed },
  if failed == 0 && ltb 0 attempted
      then clear (with_buffer forwarder after)
      else with_buffer forwarder after,
)

module _ (serde : Serde) where
  -- an append in `spawn_blocking`: whether it ran and went through, and the buffer after it
  abbrev pub spawn_blocking :
      (AppendIo
        → LocalSiemFallbackBuffer
        → Result LocalSiemBufferError (Unit {0}) × LocalSiemFallbackBuffer)
      → Spawn
      → LocalSiemFallbackBuffer
      → Bool × LocalSiemFallbackBuffer
  spawn_blocking append cancelled buffer = (false, buffer)
  spawn_blocking append (runs disk) buffer =
      let (answer, after) = append disk buffer in
      (elim answer [ ok u ↦ true | err e ↦ false ], after)

  unfoldable pub handle_send_failure :
      OffsetDateTime
      → Spawn
      → SiemEvent
      → SiemSinkError
      → SiemForwarder
      → SiemForwardOutcome × SiemForwarder
  unfolding sink_error_code record_failure append_pending
  handle_send_failure now spawn event error forwarder =
      let code = sink_error_code error in
      let failing = record_failure now forwarder in
      let (done, after) =
        spawn_blocking (λ disk. append_pending serde disk event) spawn failing.buffer in
      (if done then buffered code else buffering_failed code, with_buffer failing after)

  -- `forward`, with the sink's answer to `send_event`
  unfoldable pub forward :
      OffsetDateTime
      → Spawn
      → Result SiemSinkError (Unit {0})
      → SiemEvent
      → SiemForwarder
      → SiemForwardOutcome × SiemForwarder
  unfolding handle_send_failure
  forward now spawn (ok u) event forwarder = (sent_direct, clear forwarder)
  forward now spawn (err error) event forwarder =
      handle_send_failure now spawn event error forwarder

  -- What the i-th event of a batch meets: the sink's answer, and the task that marks it as sent.
  module _ (send_event : ℕ → SiemEvent → Result SiemSinkError (Unit {0})) (spawn : ℕ → Spawn) where
    -- one turn of the loop of `resend_pending`: whether the event was sent and marked
    unfoldable pub resend_event :
        ℕ → SiemEvent → LocalSiemFallbackBuffer → Bool × LocalSiemFallbackBuffer
    unfolding mark_sent
    resend_event i event buffer = elim (send_event i event) [
      | ok u ↦ spawn_blocking (λ disk. mark_sent serde disk event) (spawn i) buffer
      | err e ↦ (false, buffer)
    ]

    -- `resend_pending`; `read` is the answer of the task that reads the pending events, `none` when
    -- it is cancelled
    unfoldable pub resend_pending : Option Bool → SiemForwarder → SiemResendSummary × SiemForwarder
    unfolding resend_event resend_all pending_events finish_resend
    resend_pending none forwarder = (record { attempted = 0; sent = 0; failed = 0 }, forwarder)
    resend_pending (some readable) forwarder =
        elim (pending_events serde readable forwarder.buffer) [
          | err e ↦ (record { attempted = 0; sent = 0; failed = 0 }, forwarder)
          | ok pending ↦
              let (counts, after) = resend_all resend_event 0 pending 0 0 forwarder.buffer in
              finish_resend forwarder (length pending) counts.0 counts.1 after
        ]
