-- ===== src/Siem/Forwarder/Delivery.antt =====
-- What becomes of an event that is forwarded, and of the pending ones when they are sent again.
use mipsorcu.DeliveryLog.{runs, BTreeMap, insert, writes}
use mipsorcu.Siem.Buffer.{Serde}
use mipsorcu.Siem.Buffer.Refinement.{SerdeLaws, Represents, append_pending-Represents}
use mipsorcu.Siem.Buffer.Readable.{is_readable_event}
use mipsorcu.Siem.Event.{SiemEvent}
use mipsorcu.Siem.Forwarder.{
  SiemForwarder, SiemSinkError, sent_direct, buffered, sink_error_code, forward, record_failure,
}
use mipsorcu.Crates.{OffsetDateTime}
use mipsorcu.Prelude.{Bool, is_ok, ℕ, true, Result, ok, err, ◌≡◌, refl, arith, inl, inr, ◌⊎◌}

record_failure-buffer :
    (now : OffsetDateTime) (f : SiemForwarder) → (record_failure now f).buffer ≡ f.buffer
unfolding record_failure
record_failure-buffer now f = ground arith

module _ (serde : Serde) (laws : SerdeLaws serde) where
  -- An event that serde_json reads back as it was (no float, no nesting beyond its limit), forwarded
  -- with a file system that takes the append, is not lost: the sink accepted it and the pending events are the same, or the outcome is `Buffered` with the code of the sink's
  -- error and the event is pending, the others as before.
  pub forward-delivers :
      (now : OffsetDateTime) (answer : Result SiemSinkError (Unit {0})) (e : SiemEvent)
      (f : SiemForwarder) (events : BTreeMap SiemEvent)
      → is_readable_event e ≡ true
      → Represents serde f.buffer events
      → ((answer ≡ ok tt)
          × ((forward serde now (runs writes) answer e f).0 ≡ sent_direct)
          × Represents serde (forward serde now (runs writes) answer e f).1.buffer events)
        ⊎ ((error : SiemSinkError) × (answer ≡ err error)
            × ((forward serde now (runs writes) answer e f).0 ≡ buffered (sink_error_code error))
            × Represents serde
                (forward serde now (runs writes) answer e f).1.buffer
                (insert e.event_id e events))
  unfolding forward
  forward-delivers now (ok u) e f events readable h = inl (refl, refl, h)
  forward-delivers now (err error) e f events readable h =
      let (p, r) = append_pending-Represents serde laws e f.buffer events readable h in
      inr (
        error,
        refl,
        rw (record_failure-buffer now f) (ground (arith, p)),
        rw (record_failure-buffer now f) r,
      )

  module _ (send_event : ℕ → SiemEvent → Result SiemSinkError (Unit {0})) where
    abbrev accepts : ℕ → SiemEvent → Bool
    accepts i e = is_ok (send_event i e)
